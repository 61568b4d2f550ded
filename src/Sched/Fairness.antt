-- ===== src/Sched/Fairness.antt =====
-- Round robin, kern/schedule/rr_sched.c through kern/schedule/sched.c: every process in the queue gets its turn.
use li_nos.Base.{
  ℕ, suc, ◌+◌, ◌-◌, ◌≤◌, ◌≡◌, ◌∙◌, not, subst, inl, inr, List, [], ◌∷◌, ◌++◌, append-nil,
  append_assoc, length, some, ◌==◌, Bool-cases, false, arith, >>=-eq-some, assert-eq-some,
}
use mathlib.Core.Option.{some-injective}
use li_nos.Kernel.{is_runnable, Kernel, rr_sched, Timer}
use li_nos.Class.{
  class_enqueue, class_dequeue, class_pick_next, class_proc_tick, sched_class_pick_next,
  sched_class_dequeue, sched_class_enqueue, sched_class_proc_tick,
}
use li_nos.Class.Rr.{rr_push, rr_enqueue, rr_unlink, rr_dequeue, rr_pick_next, rr_proc_tick}
use li_nos.Sched.{
  woken, wakeup_proc, requeue_current, proc_run, run_next, dequeue_picked, schedule, run_expired,
  tick_timers, run_timer_list,
}
use li_nos.Sched.Timers.{del_timer}

-- The class is round robin, and the queue holds `xs`, from the front on.
abbrev pub RoundRobin : Kernel → List ℕ → Type 0
RoundRobin k xs = (k.sched_class ≡ rr_sched) × (k.rq.run_list ≡ xs)

enqueue-RoundRobin :
    (p : ℕ) (k k' : Kernel) (xs : List ℕ)
    → RoundRobin k xs
    → sched_class_enqueue p k ≡ some k'
    → (zs : List ℕ) × RoundRobin k' (xs ++ zs)
unfolding sched_class_enqueue class_enqueue rr_enqueue rr_push
enqueue-RoundRobin p k k' xs r e = elim (Bool-cases (p == k.idleproc)) [
  | inl idle ↦ ([], (ground arith, ground (arith, append-nil xs)))
  | inr busy ↦ (p ∷ [], (ground arith, ground arith))
]

requeue-RoundRobin :
    (k k' : Kernel) (xs : List ℕ)
    → RoundRobin k xs
    → requeue_current k ≡ some k'
    → (zs : List ℕ) × RoundRobin k' (xs ++ zs)
unfolding requeue_current
requeue-RoundRobin k k' xs r e = elim (Bool-cases (is_runnable (k.procs k.current).state)) [
  | inl run ↦ enqueue-RoundRobin k.current _ k' xs r (rw run at e)
  | inr stopped ↦ ([], (ground arith, ground (arith, append-nil xs)))
]

-- The one at the front gets the CPU.
pick-RoundRobin :
    (k k' : Kernel) (p : ℕ) (xs : List ℕ)
    → RoundRobin k (p ∷ xs)
    → dequeue_picked (sched_class_pick_next k).0 (sched_class_pick_next k).1 ≡ some k'
    → (k'.current ≡ p) × RoundRobin k' xs
unfolding sched_class_pick_next class_pick_next rr_pick_next dequeue_picked sched_class_dequeue
    class_dequeue rr_dequeue rr_unlink run_next proc_run
pick-RoundRobin k k' p xs r e = (ground arith, (ground arith, ground arith))

schedule-RoundRobin :
    (k k' : Kernel) (p : ℕ) (xs : List ℕ)
    → RoundRobin k (p ∷ xs)
    → schedule k ≡ some k'
    → (k'.current ≡ p) × ((zs : List ℕ) × RoundRobin k' (xs ++ zs))
unfolding schedule
schedule-RoundRobin k k' p xs r e =
    let (k2, ran, done) = >>=-eq-some (requeue_current k) _ e in
    let (zs, r2) = requeue-RoundRobin k k2 (p ∷ xs) r ran in
    let (now, r3) = pick-RoundRobin k2 k' p (xs ++ zs) r2 done in (now, (zs, r3))

wakeup-RoundRobin :
    (p : ℕ) (k k' : Kernel) (xs : List ℕ)
    → RoundRobin k xs
    → wakeup_proc p k ≡ some k'
    → (zs : List ℕ) × RoundRobin k' (xs ++ zs)
unfolding wakeup_proc
wakeup-RoundRobin p k k' xs r e = elim (Bool-cases (is_runnable (k.procs p).state)) [
  | inl run ↦ ([], (ground arith, ground (arith, append-nil xs)))
  | inr stopped ↦ elim (Bool-cases (p == k.current)) [
    | inl own ↦ ([], (ground arith, ground (arith, append-nil xs)))
    | inr other ↦ enqueue-RoundRobin p (woken p k) k' xs r (queue_step stopped other)
  ]
]
  where
    queue_step :
        is_runnable (k.procs p).state ≡ false
        → (p == k.current) ≡ false
        → sched_class_enqueue p (woken p k) ≡ some k'
    queue_step s o = ground arith

-- Two extensions of the queue, one after the other.
extend_twice :
    (k : Kernel) (xs ys zs : List ℕ)
    → RoundRobin k ((xs ++ ys) ++ zs)
    → RoundRobin k (xs ++ (ys ++ zs))
extend_twice k xs ys zs r = (r.0, r.1 ∙ append_assoc xs ys zs)

expired-RoundRobin :
    (ts : List Timer) (k k' : Kernel) (xs : List ℕ)
    → RoundRobin k xs
    → run_expired ts k ≡ some k'
    → (zs : List ℕ) × RoundRobin k' (xs ++ zs)
unfolding run_expired del_timer
expired-RoundRobin [] k k' xs r e = ([], (ground arith, ground (arith, append-nil xs)))
expired-RoundRobin (t ∷ ts) k k' xs r e = elim (Bool-cases (t.expires == 0)) [
  | inl z ↦
      let (ok, e1) = assert-eq-some _ _ (rw z at e) in
      let (k1, w, e2) = >>=-eq-some (wakeup_proc t.proc k) _ e1 in
      let (ys, r1) = wakeup-RoundRobin t.proc k k1 xs r w in
      let (zs, r2) = expired-RoundRobin ts (del_timer t.timer_link k1) k' (xs ++ ys) r1 e2 in
      (ys ++ zs, extend_twice k' xs ys zs r2)
  | inr nz ↦ ([], (ground arith, ground (arith, append-nil xs)))
]

timers-RoundRobin :
    (ts : List Timer) (k k' : Kernel) (xs : List ℕ)
    → RoundRobin k xs
    → tick_timers ts k ≡ some k'
    → (zs : List ℕ) × RoundRobin k' (xs ++ zs)
unfolding tick_timers
timers-RoundRobin [] k k' xs r e = ([], (ground arith, ground (arith, append-nil xs)))
timers-RoundRobin (t ∷ ts) k k' xs r e =
    let t' = record t { expires = t.expires - 1 } in
    let (ok, e1) = assert-eq-some (not (t.expires == 0)) _ e in
    expired-RoundRobin (t' ∷ ts) (record k { timer_list = t' ∷ ts }) k' xs r e1

class_tick-RoundRobin :
    (p : ℕ) (k : Kernel) (xs : List ℕ) → RoundRobin k xs → RoundRobin (sched_class_proc_tick p k) xs
unfolding sched_class_proc_tick class_proc_tick rr_proc_tick
class_tick-RoundRobin p k xs r = (ground arith, ground arith)

tick-RoundRobin :
    (k k' : Kernel) (xs : List ℕ)
    → RoundRobin k xs
    → run_timer_list k ≡ some k'
    → (zs : List ℕ) × RoundRobin k' (xs ++ zs)
unfolding run_timer_list
tick-RoundRobin k k' xs r e =
    let (k1, e1, e2) = >>=-eq-some (tick_timers k.timer_list k) _ e in
    let (zs, r1) = timers-RoundRobin k.timer_list k k1 xs r e1 in
    (
      zs,
      subst (λ x. RoundRobin x (xs ++ zs)) (some-injective _ _ e2)
          (class_tick-RoundRobin k1.current k1 (xs ++ zs) r1),
    )

-- A run of the scheduler: processes wake up, the clock ticks, the CPU is switched `n` times.
pub data Steps (k : Kernel) : ℕ → Kernel → Type 0 where
  start : Steps k 0 k
  wake : {n : ℕ} {k1 k2 : Kernel} (p : ℕ) → Steps k n k1 → wakeup_proc p k1 ≡ some k2 → Steps k n k2
  tick : {n : ℕ} {k1 k2 : Kernel} → Steps k n k1 → run_timer_list k1 ≡ some k2 → Steps k n k2
  switch : {n : ℕ} {k1 k2 : Kernel} → Steps k n k1 → schedule k1 ≡ some k2 → Steps k (suc n) k2

-- In a run from a queue `xs ++ p ∷ ys`, each switch brings `p` at least one place nearer.
nearer :
    {k : Kernel} {n : ℕ} {k' : Kernel} (p : ℕ) (xs ys : List ℕ)
    → RoundRobin k (xs ++ p ∷ ys)
    → Steps k n k'
    → n ≤ length xs
    → (us : List ℕ) × (vs : List ℕ) × RoundRobin k' (us ++ p ∷ vs) × (length us + n ≡ length xs)
nearer p xs ys r start h = (xs, ys, r, omega arith)
nearer p xs ys r (wake {k1} {k2} q s e) h =
    let (us, vs, r1, l) = nearer p xs ys r s h in
    let (zs, r2) = wakeup-RoundRobin q k1 k2 (us ++ p ∷ vs) r1 e in
    (us, vs ++ zs, extend_twice k2 us (p ∷ vs) zs r2, l)
nearer p xs ys r (tick {k1} {k2} s e) h =
    let (us, vs, r1, l) = nearer p xs ys r s h in
    let (zs, r2) = tick-RoundRobin k1 k2 (us ++ p ∷ vs) r1 e in
    (us, vs ++ zs, extend_twice k2 us (p ∷ vs) zs r2, l)
nearer p xs ys r (switch {k1} {k2} s e) h =
    let (us, vs, r1, l) = nearer p xs ys r s (omega arith) in
    advance us vs k1 k2 _ _ p r1 e (omega arith) l
  where
    advance :
        (us vs : List ℕ) (k1 k2 : Kernel) (m l : ℕ) (p : ℕ)
        → RoundRobin k1 (us ++ p ∷ vs)
        → schedule k1 ≡ some k2
        → suc m ≤ l
        → length us + m ≡ l
        → (us' : List ℕ) × (vs' : List ℕ) × RoundRobin k2 (us' ++ p ∷ vs')
          × (length us' + suc m ≡ l)
    advance [] vs k1 k2 m l p r1 e h d = absurd (omega arith)
    advance (u ∷ us) vs k1 k2 m l p r1 e h d =
        let (now, (zs, r2)) = schedule-RoundRobin k1 k2 u (us ++ p ∷ vs) r1 e in
        (us, vs ++ zs, extend_twice k2 us (p ∷ vs) zs r2, omega arith)

-- Under round robin, if `n` others stand before a process in the queue, then after `n` switches the
-- next one is to that process, whatever processes wake up, however the clock ticks, and whether or not the running
-- processes come back to the queue in between.
pub round_robin_fair :
    {k k1 k2 : Kernel} (p : ℕ) (xs ys : List ℕ)
    → k.sched_class ≡ rr_sched
    → k.rq.run_list ≡ xs ++ p ∷ ys
    → Steps k (length xs) k1
    → schedule k1 ≡ some k2
    → k2.current ≡ p
round_robin_fair {k1} {k2} p xs ys c q s e =
    let (us, vs, r, l) = nearer p xs ys (c, q) s (omega arith) in turn us vs r (omega arith)
  where
    turn : (us vs : List ℕ) → RoundRobin k1 (us ++ p ∷ vs) → length us ≡ 0 → k2.current ≡ p
    turn [] vs r z = (schedule-RoundRobin k1 k2 p vs r e).0
    turn (u ∷ us) vs r z = absurd (omega arith)
