-- ===== src/Sem/Down.antt =====
-- down of kern/sync/sem.c, up to the switch to another process.
use li_nos.Base.{
  ℕ, ◌-◌, ◌<◌, Bool, true, false, ◌≡◌, ◌≢◌, ◌∙◌, ◌⊎◌, inl, inr, refl, arith, Option, some, [], ◌∷◌,
  ◌++◌, ltb, update, Bool-cases, ==_refl, sym, ap, ==_ne,
}
use li_nos.Kernel.{runnable, sleeping, Kernel, wt_ksem}
use li_nos.Sched.{schedule}
use li_nos.Sched.Invariant.{IsSched}
use li_nos.Sched.Schedule.{Chosen, schedule-IsSched}
use li_nos.Sched.Kept.{Kept, schedule-Kept}
use li_nos.Wait.{Sync}
use li_nos.Wait.Waiting.{IsWaiting}
use li_nos.Sem.{Sems, down_start, down_switch, down}
use li_nos.Sem.Asleep.{asleep, current_set_runs, asleep-IsWaiting, own_wait}

-- A switch touches no wait and no process's state.
switched-IsWaiting :
    (kind : ℕ → ℕ) (s : Sync) (k : Kernel)
    → IsWaiting kind s
    → Kept s.kernel k
    → IsSched k
    → IsWaiting kind (record s { kernel = k })
switched-IsWaiting kind s k v kept i = record {
  sched = i;
  member = λ r u h.
      let m = v.member r u h in
      record {
        is_linked = m.is_linked;
        wait_queue = m.wait_queue;
        asleep = kept.state (s.waits u).proc ∙ m.asleep;
        wait_state = kept.wait_state (s.waits u).proc ∙ m.wait_state;
      };
  queued = v.queued;
  once = v.once;
  apart = v.apart;
}

taken_runs :
    (sem w : ℕ) (s : Sems)
    → ltb 0 (s.value sem) ≡ true
    → down sem w s ≡ some (true, record s { value = update s.value sem (s.value sem - 1) })
unfolding down down_start
taken_runs sem w s e = rw e refl

waits_runs :
    (sem w : ℕ) (s : Sems) (k : Kernel)
    → ltb 0 (s.value sem) ≡ false
    → s.sync.kernel.current ≢ 0
    → schedule (asleep sem w s.sync).kernel ≡ some k
    → down sem w s ≡ some (false, record s { sync = record (asleep sem w s.sync) { kernel = k } })
unfolding down down_start down_switch
waits_runs sem w s k e n r = rw e (rw (current_set_runs sem w s.sync n) (rw r refl))

-- Another process than before runs next, and it can run; or it is the idle one, and no other can run.
abbrev pub Switched : (k k' : Kernel) → Type 0
Switched k k' =
    ((k'.current ≢ k.current)
      × (k'.current ≢ k.idleproc)
      × ((k'.procs k'.current).state ≡ runnable))
    ⊎ ((k'.current ≡ k.idleproc) × ((q : ℕ) → (k'.procs q).state ≡ runnable → q ≡ k.idleproc))

-- The other queues, the other waits and the states of the other processes stay.
abbrev pub SameRest : (sem w : ℕ) (s s' : Sync) → Type 0
SameRest sem w s s' =
    ((r : ℕ) → r ≢ sem → s'.queues r ≡ s.queues r)
    × ((u : ℕ) → u ≢ w → s'.waits u ≡ s.waits u)
    × ((q : ℕ) → q ≢ s.kernel.current → (s'.kernel.procs q).state ≡ (s.kernel.procs q).state)

-- The process that schedule chooses, once the current one sleeps.
chosen-Switched :
    (sem w : ℕ) (s : Sync) (k : Kernel)
    → Kept (asleep sem w s).kernel k
    → Chosen (asleep sem w s).kernel k.current
    → Switched s.kernel k
chosen-Switched sem w s k kept (inl (n, r)) = inl (differs, n, kept.state k.current ∙ r)
  where
    clash : sleeping ≢ runnable
    clash e = cc

    differs : k.current ≢ s.kernel.current
    differs e = clash (
        sym (rw (==_refl s.kernel.current) refl)
        ∙ ap (λ y. ((asleep sem w s).kernel.procs y).state) (sym e)
        ∙ r)
chosen-Switched sem w s k kept (inr (n, o)) = inr (n, λ q r. o q (sym (kept.state q) ∙ r))

asleep-SameRest :
    (sem w : ℕ) (s : Sync) (k : Kernel)
    → Kept (asleep sem w s).kernel k
    → SameRest sem w s (record (asleep sem w s) { kernel = k })
asleep-SameRest sem w s k kept = (
  λ r n. rw (==_ne r sem n) refl,
  λ u n. rw (==_ne u w n) refl,
  λ q n. kept.state q ∙ rw (==_ne q s.kernel.current n) refl,
)

-- What down does up to the switch.
abbrev pub Downed : (kind : ℕ → ℕ) (sem w : ℕ) (s : Sems) → Option (Bool × Sems) → Type 0
Downed kind sem w s o =
    (s' : Sems) × (((0 < s.value sem)
        × (o ≡ some (true, s'))
        × (s' ≡ record s { value = update s.value sem (s.value sem - 1) }))
      ⊎ ((s.value sem ≡ 0)
          × (o ≡ some (false, s'))
          × (s'.value ≡ s.value)
          × (s'.sync.queues sem ≡ s.sync.queues sem ++ w ∷ [])
          × ((s'.sync.waits w).proc ≡ s.sync.kernel.current)
          × ((s'.sync.kernel.procs s.sync.kernel.current).state ≡ sleeping)
          × Switched s.sync.kernel s'.sync.kernel
          × SameRest sem w s.sync s'.sync))
    × IsWaiting kind s'.sync

-- From a state in which no process that can run is lost to the scheduler and those in the queues
-- sleep, each in one place, down by the current process, which can run, with a wait_t that is in no
-- queue, never panics and keeps that state: with a positive value it takes one and goes on; with none
-- the process goes to sleep at the end of the queue, and another process runs, which can run, or the
-- idle one if no other can; the other queues, the other waits and the states of the other processes
-- stay.
pub down-Downed :
    (kind : ℕ → ℕ) (sem w : ℕ) (s : Sems)
    → IsWaiting kind s.sync
    → kind sem ≡ wt_ksem
    → s.sync.kernel.current ≢ 0
    → (s.sync.kernel.procs s.sync.kernel.current).state ≡ runnable
    → (s.sync.waits w).is_linked ≡ false
    → Downed kind sem w s (down sem w s)
down-Downed kind sem w s v k n run new = elim (Bool-cases (ltb 0 (s.value sem))) [
  | inl e ↦ (
    record s { value = update s.value sem (s.value sem - 1) },
    inl (ground arith, taken_runs sem w s e, refl),
    v,
  )
  | inr e ↦
      let y = asleep sem w s.sync in
      let vy = asleep-IsWaiting kind sem w s.sync v k run new in
      let (k', r, i, c) = schedule-IsSched y.kernel vy.sched in
      let kept = schedule-Kept y.kernel k' r in
      let s' = record s { sync = record y { kernel = k' } } in
      (
        s',
        inr (
          ground arith,
          waits_runs sem w s k' e n r,
          refl,
          rw (==_refl sem) refl,
          own_wait kind sem w s.sync v k run new,
          kept.state s.sync.kernel.current ∙ rw (==_refl s.sync.kernel.current) refl,
          chosen-Switched sem w s.sync k' kept c,
          asleep-SameRest sem w s.sync k' kept,
        ),
        switched-IsWaiting kind y k' vy kept i,
      )
]
