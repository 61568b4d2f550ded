-- ===== src/Sem.antt =====
-- kern/sync/sem.c. A semaphore is named by the address of its wait queue. The value is an `int` that
-- `down` takes from only when it is positive; `up` is modelled for values below 2^31 - 1.
pub mod Up
pub mod Asleep
pub mod Down
mod Tests
use li_nos.Base.{
  ℕ, ◌+◌, ◌-◌, Bool, true, false, Option, none, some, if◌then◌else◌, ◌==◌, ltb, update, assert,
  ◌>>=◌, ◌>>◌,
}
use li_nos.Kernel.{Kernel, wt_ksem}
use li_nos.Sched.{schedule}
use li_nos.Wait.{
  Sync, wait_queue_init, wait_queue_first, wakeup_wait, wait_current_set, wait_current_del,
}

pub record Sems : Type 0 where
  pub value : ℕ → ℕ
  pub sync : Sync

pub sem_init : (sem v : ℕ) → Sems → Sems
sem_init sem v s = record { value = update s.value sem v; sync = wait_queue_init sem s.sync }

-- The part of `__up` for a waiter that is there.
pub hand_over : (sem w wait_state : ℕ) → Sems → Option Sems
hand_over sem w wait_state s =
    assert ((s.sync.kernel.procs (s.sync.waits w).proc).wait_state == wait_state)
    >> (wakeup_wait sem w wait_state true s.sync >>= λ y. some (record s { sync = y }))

pub up_state : (sem wait_state : ℕ) → Sems → Option Sems
up_state sem wait_state s = elim (wait_queue_first sem s.sync) [
  | none ↦ some (record s { value = update s.value sem (s.value sem + 1) })
  | some w ↦ hand_over sem w wait_state s
]

pub up : ℕ → Sems → Option Sems
up sem s = up_state sem wt_ksem s

-- `__down` up to the call of schedule: whether the semaphore was taken at once, else the process waits
-- with the wait_t at `w`.
pub down_start : (sem w wait_state : ℕ) → Sems → Option (Bool × Sems)
down_start sem w wait_state s =
    let waiting =
      wait_current_set sem w wait_state s.sync >>= λ y. some (false, record s { sync = y }) in
    if ltb 0 (s.value sem)
    then some (true, record s { value = update s.value sem (s.value sem - 1) })
    else waiting

-- The call of schedule.
pub down_switch : Sems → Option Sems
down_switch s =
    schedule s.sync.kernel >>= λ k. some (record s { sync = record (s.sync) { kernel = k } })

-- `__down` when the process runs again: the flags it returns.
pub down_finish : (sem w wait_state : ℕ) → Sems → Option (ℕ × Sems)
down_finish sem w wait_state s = wait_current_del sem w s.sync >>= λ y.
    let flags = (y.waits w).wakeup_flags in
    some (if flags == wait_state then 0 else flags, record s { sync = y })

-- `down` before and after the switch. The assertion is that the flags are zero.
pub down : (sem w : ℕ) → Sems → Option (Bool × Sems)
down sem w s = down_start sem w wt_ksem s >>= λ (taken, s').
    if taken then some (true, s') else down_switch s' >>= λ s''. some (false, s'')

pub down_return : (sem w : ℕ) → Sems → Option Sems
down_return sem w s = down_finish sem w wt_ksem s >>= λ (flags, s'). assert (flags == 0) >> some s'

pub try_down : ℕ → Sems → Bool × Sems
try_down sem s =
    if ltb 0 (s.value sem)
    then (true, record s { value = update s.value sem (s.value sem - 1) })
    else (false, s)
