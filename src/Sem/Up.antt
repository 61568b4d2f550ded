-- ===== src/Sem/Up.antt =====
-- up of kern/sync/sem.c, and down of the process that it wakes.
use li_nos.Base.{
  ℕ, ◌+◌, true, false, ◌≡◌, ◌∙◌, ◌⊎◌, inl, inr, refl, arith, Option, some, List, [], ◌∷◌, update,
  has, ==_refl,
}
use li_nos.Kernel.{wt_ksem}
use li_nos.Wait.{Sync, wakeup_wait, wait_current_del, wait_in_queue}
use li_nos.Wait.Waiting.{IsWaiting}
use li_nos.Wait.Wake.{Woken, wakeup_wait-IsWaiting}
use li_nos.Wait.Empty.{rest_queue}
use li_nos.Sem.{Sems, hand_over, up_state, up, down_finish, down_return}

up_free :
    (sem : ℕ) (s : Sems)
    → s.sync.queues sem ≡ []
    → up sem s ≡ some (record s { value = update s.value sem (s.value sem + 1) })
unfolding up up_state
up_free sem s e = rw (e, up_state) refl

hand_over_runs :
    (sem w : ℕ) (s : Sems) (y : Sync)
    → (s.sync.kernel.procs (s.sync.waits w).proc).wait_state ≡ wt_ksem
    → wakeup_wait sem w wt_ksem true s.sync ≡ some y
    → hand_over sem w wt_ksem s ≡ some (record s { sync = y })
unfolding hand_over
hand_over_runs sem w s y k r = rw (k, r) refl

up_wakes :
    (sem w : ℕ) (ws : List ℕ) (s : Sems) (y : Sync)
    → s.sync.queues sem ≡ w ∷ ws
    → (s.sync.kernel.procs (s.sync.waits w).proc).wait_state ≡ wt_ksem
    → wakeup_wait sem w wt_ksem true s.sync ≡ some y
    → up sem s ≡ some (record s { sync = y })
unfolding up up_state
up_wakes sem w ws s y e k r = rw (e, up_state) (hand_over_runs sem w s y k r)

-- A process that was woken with the semaphore's flags, and whose wait has left the queue, returns from
-- down without a panic and changes nothing.
returns :
    (sem w : ℕ) (s : Sems)
    → (s.sync.waits w).is_linked ≡ false
    → (s.sync.waits w).wakeup_flags ≡ wt_ksem
    → down_return sem w s ≡ some s
unfolding down_return down_finish wait_current_del wait_in_queue
returns sem w s l f = rw (l) (rw f refl)

-- What up does: with nobody waiting the value is one more; else the first that waits leaves the queue
-- with its process able to run, and that process returns from down.
abbrev pub Upped : (kind : ℕ → ℕ) (sem : ℕ) (s : Sems) → Option Sems → Type 0
Upped kind sem s o =
    (s' : Sems) × (o ≡ some s')
    × IsWaiting kind s'.sync
    × (((s.sync.queues sem ≡ []) × (s' ≡ record s { value = update s.value sem (s.value sem + 1) }))
        ⊎ ((w : ℕ) × (ws : List ℕ) × (s.sync.queues sem ≡ w ∷ ws)
            × (s'.sync.queues sem ≡ ws)
            × (s'.value ≡ s.value)
            × Woken w sem wt_ksem s.sync s'.sync
            × (down_return sem w s' ≡ some s')))

-- From a state in which no process that can run is lost to the scheduler and those in the queues
-- sleep, each in one place, up of a semaphore never fails its assertion, and keeps that state: if nobody
-- waits, the value grows by one; else the first that waits, and no other, leaves the queue, its
-- process can run, the value stays, and that process returns from down without a panic.
pub up-Upped :
    (kind : ℕ → ℕ) (sem : ℕ) (s : Sems)
    → IsWaiting kind s.sync
    → kind sem ≡ wt_ksem
    → Upped kind sem s (up sem s)
up-Upped kind sem s v k = go (s.sync.queues sem) refl
  where
    go : (l : List ℕ) → s.sync.queues sem ≡ l → Upped kind sem s (up sem s)
    go [] e = (
      record s { value = update s.value sem (s.value sem + 1) },
      up_free sem s e,
      v,
      inl (e, refl),
    )
    go (w ∷ ws) e =
        let m : has w (s.sync.queues sem) ≡ true = rw e (ground (arith, ==_refl w)) in
        let (y, r, v', x) = wakeup_wait-IsWaiting kind w sem wt_ksem s.sync v m in
        let s' = record s { sync = y } in
        (
          s',
          up_wakes sem w ws s y e ((v.member sem w m).wait_state ∙ k) r,
          v',
          inr (
            w,
            ws,
            e,
            rest_queue sem wt_ksem w ws s.sync y e x,
            refl,
            x,
            returns sem w s' x.unlinked x.flagged,
          ),
        )
