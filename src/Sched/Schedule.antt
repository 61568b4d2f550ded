-- ===== src/Sched/Schedule.antt =====
-- `schedule` of kern/schedule/sched.c keeps the scheduler's invariant.
use li_nos.Base.{
  ℕ, ◌<◌, ◌≡◌, ◌≢◌, ◌∙◌, ◌⊎◌, sym, ap, refl, inl, inr, Option, none, some, Bool-cases, false, arith,
}
use native.Mathlib.Decide.{ℕ_discrete}
use li_nos.Kernel.{runnable, is_runnable, Kernel, set_proc}
use li_nos.Class.{sched_class_pick_next, sched_class_dequeue}
use li_nos.Sched.{requeue_current, proc_run, run_next, dequeue_picked, schedule}
use li_nos.Sched.Queue.{in_class, SameGlobals, Picked, Dequeued, pick-Picked, dequeue-Dequeued}
use li_nos.Sched.Invariant.{
  queued, IsQueued, IsSched, SameQueue, same-queued, same-IsQueued, sched_enqueue-IsQueued,
  widen-IsQueued,
}

-- The current process has gone back to the queue if it can run, so none is exempt.
abbrev Nobody : ℕ → Type 0
Nobody q = ⊥

requeue-IsQueued :
    (k : Kernel)
    → IsSched k
    → (k' : Kernel) × (requeue_current k ≡ some k')
      × IsQueued k' Nobody
      × SameGlobals k k'
      × ((q : ℕ) → (k'.procs q).state ≡ (k.procs q).state)
unfolding requeue_current
requeue-IsQueued k v =
    let x = k.procs k.current in
    let k1 = set_proc k.current (record x { need_resched = false }) k in
    let rested : SameQueue k k1 = record {
      queue = refl;
      state = λ q. ground arith;
      marked = λ q. ground arith;
      same = ground arith;
    } in
    let w = same-IsQueued k k1 (λ q. q ≡ k.current) rested v.waiting in
    elim (Bool-cases (is_runnable x.state)) [
      | inl run ↦
          let (k', ran, w', same, state, count) =
            sched_enqueue-IsQueued k.current k1 Nobody
              (widen-IsQueued k1 _ _ w (λ q r y c. y (inl c))) v.current_out (ground arith) in
          rw run (
            k',
            ran,
            w',
            record {
              timer_list = same.timer_list;
              current = same.current;
              idleproc = same.idleproc;
              sched_class = same.sched_class;
            },
            λ q. state q ∙ rested.state q,
          )
      | inr stopped ↦ rw stopped (
        k1,
        refl,
        widen-IsQueued k1 _ Nobody w (λ q r y c. stuck q c (sym (rested.state q) ∙ r) stopped),
        ground arith,
        rested.state,
      )
    ]
  where
    stuck :
        (q : ℕ)
        → q ≡ k.current
        → (k.procs q).state ≡ runnable
        → is_runnable (k.procs k.current).state ≡ false
        → ⊥
    stuck q c r e = ground arith

-- What `run_next` does: the process is the current one, and the queue stays.
run_next-current : (p : ℕ) (k : Kernel) → (run_next p k).current ≡ p
unfolding run_next proc_run
run_next-current p k = ground arith

run_next-SameQueue :
    (p : ℕ) (k : Kernel)
    → ((run_next p k).rq ≡ k.rq)
      × ((run_next p k).sched_class ≡ k.sched_class)
      × ((run_next p k).idleproc ≡ k.idleproc)
unfolding run_next proc_run
run_next-SameQueue p k = ground arith

run_next-state :
    (p : ℕ) (k : Kernel) (q : ℕ)
    → (((run_next p k).procs q).state ≡ (k.procs q).state)
      × (((run_next p k).procs q).rq ≡ (k.procs q).rq)
unfolding run_next proc_run
run_next-state p k q = ground arith

run_next-IsSched :
    (p : ℕ) (k : Kernel) → IsQueued k (λ q. q ≡ p) → queued k p ≡ 0 → IsSched (run_next p k)
run_next-IsSched p k w out =
    let k' = run_next p k in
    let (queue, class, idle) = run_next-SameQueue p k in
    let now = run_next-current p k in
    let d = same-queued k k' queue class in
    record {
      waiting = record {
        once = λ q. rw (d q) (w.once q);
        idle_out = ap (queued k') idle ∙ d k.idleproc ∙ w.idle_out;
        ready = λ q h.
            let r = w.ready q (rw (d q) at h) in
            ((run_next-state p k q).0 ∙ r.0, (run_next-state p k q).1 ∙ r.1);
        none_lost = λ q r x i.
            d q
            ∙ w.none_lost q (sym (run_next-state p k q).0 ∙ r) (λ e. x (e ∙ sym now))
                (λ j. i (j ∙ sym idle));
      };
      current_out = ap (queued k') now ∙ d p ∙ out;
    }

-- A process that was chosen is taken from the queue.
taken-IsQueued :
    (p : ℕ) (k k' : Kernel)
    → Dequeued k.sched_class p k k'
    → IsQueued k Nobody
    → IsQueued k' (λ q. q ≡ p) × (queued k' p ≡ 0)
taken-IsQueued p k k' e w =
    let d = λ (q : ℕ). ap (λ c. in_class c k'.rq q) e.same.sched_class in
    let state = λ (q : ℕ). ap (λ f. (f q).state) e.procs in
    let marked = λ (q : ℕ). ap (λ f. (f q).rq) e.procs in
    (
      record {
        once = λ q. rw (d q) (omega (arith, e.removed q, w.once q));
        idle_out =
            ap (queued k') e.same.idleproc
            ∙ d k.idleproc
            ∙ omega (arith, e.removed k.idleproc, w.idle_out);
        ready = λ q h.
            let r = w.ready q (omega (arith, e.removed q, d q)) in (state q ∙ r.0, marked q ∙ r.1);
        none_lost = λ q r x i.
            let b = w.none_lost q (sym (state q) ∙ r) (λ c. c) (λ j. i (j ∙ sym e.same.idleproc)) in
            d q ∙ ground (arith, e.removed q);
      },
      d p ∙ ground (arith, e.removed p, w.once p),
    )

-- The process that runs next can run and is not the idle one; or it is the idle one, and no other can run.
abbrev pub Chosen : Kernel → ℕ → Type 0
Chosen k n =
    ((n ≢ k.idleproc) × ((k.procs n).state ≡ runnable))
    ⊎ ((n ≡ k.idleproc) × ((q : ℕ) → (k.procs q).state ≡ runnable → q ≡ k.idleproc))

Picked-IsQueued :
    (o : Option ℕ) (k k3 : Kernel)
    → IsQueued k Nobody
    → Picked k.sched_class k o k3
    → IsQueued k3 Nobody
Picked-IsQueued o k k3 w pick =
    same-IsQueued k k3 Nobody
      (record { queue = pick.queue; state = pick.state; marked = pick.marked; same = pick.same }) w

Chosen-same :
    (k k' : Kernel) (n : ℕ)
    → SameGlobals k k'
    → ((q : ℕ) → (k'.procs q).state ≡ (k.procs q).state)
    → Chosen k' n
    → Chosen k n
Chosen-same k k' n same state (inl c) = inl (λ e. c.0 (e ∙ sym same.idleproc), sym (state n) ∙ c.1)
Chosen-same k k' n same state (inr c) =
    inr (c.0 ∙ same.idleproc, λ q r. c.1 q (state q ∙ r) ∙ same.idleproc)

finish-IsSched :
    (o : Option ℕ) (k k3 : Kernel)
    → IsQueued k Nobody
    → Picked k.sched_class k o k3
    → (k' : Kernel) × (dequeue_picked o k3 ≡ some k') × IsSched k' × Chosen k k'.current
unfolding dequeue_picked sched_class_dequeue
finish-IsSched none k k3 w pick =
    let w3 = Picked-IsQueued none k k3 w pick in
    (
      run_next k3.idleproc k3,
      refl,
      run_next-IsSched k3.idleproc k3 (widen-IsQueued k3 Nobody _ w3 (λ q r x c. c)) w3.idle_out,
      inr (
        run_next-current k3.idleproc k3 ∙ pick.same.idleproc,
        λ q r. elim (ℕ_discrete q k.idleproc) [
          | yes e ↦ e
          | no n ↦
              let one = w.none_lost q r (λ c. c) n in absurd (omega (arith, pick.none_empty refl q))
        ],
      ),
    )
finish-IsSched (some p) k k3 w pick =
    let w3 = Picked-IsQueued (some p) k k3 w pick in
    let inside = pick.some_queued refl in
    let still = same-queued k k3 pick.queue pick.same.sched_class p in
    let (k4, ran, gone) =
      dequeue-Dequeued k3.sched_class p k3 (omega (arith, w3.once p))
        (w3.ready p (omega arith)).1 in
    let (w4, out) = taken-IsQueued p k3 k4 gone w3 in
    let now = run_next-current p k4 in
    (
      run_next p k4,
      rw ran,
      run_next-IsSched p k4 w4 out,
      inl (λ e. away (sym now ∙ e) inside, ap (λ n. (k.procs n).state) now ∙ (w.ready p inside).0),
    )
  where
    away : p ≡ k.idleproc → 0 < queued k p → ⊥
    away e h = let z = ap (queued k) e ∙ w.idle_out in omega arith

-- In every scheduling class, from a state that meets the invariant, `schedule` returns, and the
-- invariant holds again: the process that it switches to has left the queue, the old one is queued
-- exactly if it can run. It switches to the idle process only when no other process can run.
pub schedule-IsSched :
    (k : Kernel)
    → IsSched k
    → (k' : Kernel) × (schedule k ≡ some k') × IsSched k' × Chosen k k'.current
unfolding schedule sched_class_pick_next
schedule-IsSched k v =
    let (k2, ran, w, same, state) = requeue-IsQueued k v in
    let picked = sched_class_pick_next k2 in
    let (k', done, v', chosen) =
      finish-IsSched picked.0 k2 picked.1 w (pick-Picked k2.sched_class k2) in
    (k', rw ran done, v', Chosen-same k k2 k'.current same state chosen)
