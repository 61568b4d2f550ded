-- ===== src/Monitor.antt =====
-- kern/sync/monitor.c. A condition variable is named by the address of its semaphore. The calls are cut
-- where they switch to another process; messages are left out. `count` and `next_count` only go down
-- after they went up.
pub mod CondWait
mod Tests
use li_nos.Base.{
  ℕ, ◌+◌, ◌-◌, Bool, true, false, not, Option, none, some, List, [], ◌∷◌, if◌then◌else◌, ◌==◌, ltb,
  update, assert, ◌>>=◌, ◌>>◌,
}
use li_nos.Sem.{Sems, sem_init, up, down, down_return}

pub record Monitor : Type 0 where
  pub mutex : ℕ
  pub next : ℕ
  pub next_count : ℕ
  pub count : ℕ → ℕ
  pub sems : Sems

pub init_condvars : List ℕ → Monitor → Monitor
init_condvars [] m = m
init_condvars (cv ∷ cvs) m =
    init_condvars cvs (record m { count = update m.count cv 0; sems = sem_init cv 0 m.sems })

abbrev is_empty : List ℕ → Bool
is_empty [] = true
is_empty (_ ∷ _) = false

-- The memory for the condition variables, which is not null, is that of the list.
pub monitor_init : (cvs : List ℕ) → Monitor → Option Monitor
monitor_init cvs m =
    let s = sem_init m.next 0 (sem_init m.mutex 1 m.sems) in
    assert (not (is_empty cvs)) >> some (init_condvars cvs (record m { next_count = 0; sems = s }))

-- down of a semaphore, with the wait_t at `w`: whether it was taken at once.
abbrev pub down_on : (sem w : ℕ) → Monitor → Option (Bool × Monitor)
down_on sem w m = down sem w m.sems >>= λ (taken, s). some (taken, record m { sems = s })

abbrev pub up_on : ℕ → Monitor → Option Monitor
up_on sem m = up sem m.sems >>= λ s. some (record m { sems = s })

-- The semaphore that a process that leaves the monitor raises.
abbrev pub leaving : Monitor → ℕ
leaving m = if ltb 0 m.next_count then m.next else m.mutex

-- cond_wait up to the switch.
pub cond_wait : (cv w : ℕ) → Monitor → Option (Bool × Monitor)
cond_wait cv w m =
    up_on (leaving m) (record m { count = update m.count cv (m.count cv + 1) }) >>= λ m1.
    down_on cv w m1

-- The rest of cond_wait; `taken` tells whether there was no switch.
pub cond_wait_return : (cv w : ℕ) (taken : Bool) → Monitor → Option Monitor
cond_wait_return cv w taken m = (if taken then some m.sems else down_return cv w m.sems) >>= λ s.
    some (record m { count = update m.count cv (m.count cv - 1); sems = s })

-- cond_signal up to the switch; with nobody waiting it does nothing.
pub cond_signal : (cv w : ℕ) → Monitor → Option (Bool × Monitor)
cond_signal cv w m =
    let signalled =
      up_on cv (record m { next_count = m.next_count + 1 }) >>= λ m1. down_on m1.next w m1 in
    if ltb 0 (m.count cv) then signalled else some (true, m)

-- The rest of cond_signal, if somebody waited.
pub cond_signal_return : (w : ℕ) (taken : Bool) → Monitor → Option Monitor
cond_signal_return w taken m = (if taken then some m.sems else down_return m.next w m.sems) >>= λ s.
    some (record m { next_count = m.next_count - 1; sems = s })
