-- ===== src/Kernel.antt =====
-- The state that the scheduler and the synchronisation code share: kern/process/proc.h and
-- kern/schedule/sched.h. A process is named by the address of its `proc_struct`.
use li_nos.Base.{[], ℕ, ◌+◌, ◌-◌, ◌%◌, ◌^◌, Bool, true, false, List}
use li_nos.Base.{update, ◌∷◌, ◌||◌, ◌==◌, ltb, if◌then◌else◌, Option, some, none}
use li_nos.SkewHeap.{Heap}

pub data ProcState : Type 0 where
  uninit sleeping runnable zombie : ProcState

abbrev pub is_runnable : ProcState → Bool
is_runnable runnable = true
is_runnable _ = false

abbrev pub is_zombie : ProcState → Bool
is_zombie zombie = true
is_zombie _ = false

-- The fields of `proc_struct` that scheduling and waiting read or write. `rq` tells whether the
-- pointer is the run queue, of which there is one, or `NULL`. `time_slice` starts at 0 and is only
-- decremented when positive, so the `int` is a natural number.
pub record Proc : Type 0 where
  pub state : ProcState
  pub runs : ℕ
  pub need_resched : Bool
  pub wait_state : ℕ
  pub rq : Bool
  pub time_slice : ℕ
  pub stride : ℕ
  pub priority : ℕ

-- `run_list` holds the processes whose `run_link` is in the list, from the head on.
pub record RunQueue : Type 0 where
  pub run_list : List ℕ
  pub proc_num : ℕ
  pub max_time_slice : ℕ
  pub lab6_run_pool : Heap

pub data SchedClass : Type 0 where
  stride_sched fcfs_sched rr_sched prior_sched : SchedClass

pub record Timer : Type 0 where
  pub timer_link : ℕ
  pub expires : ℕ
  pub proc : ℕ

-- The globals of proc.c and sched.c. The timers stand in the order of `timer_list`.
pub record Kernel : Type 0 where
  pub procs : ℕ → Proc
  pub current : ℕ
  pub idleproc : ℕ
  pub sched_class : SchedClass
  pub rq : RunQueue
  pub timer_list : List Timer

-- `uint32_t` arithmetic wraps.
abbrev pub add32 : ℕ → ℕ → ℕ
add32 a b = (a + b) % 2 ^ 32

abbrev pub sub32 : ℕ → ℕ → ℕ
sub32 a b = (a + 2 ^ 32 - b) % 2 ^ 32

-- `time_slice == 0 || time_slice > max_time_slice`: a process that has used up its time slice gets a new one.
abbrev pub refill : ℕ → ℕ → ℕ
refill max slice = if (slice == 0) || ltb max slice then max else slice

-- The front of a list, or `NULL` for a list that is only its head.
abbrev pub first_entry : List ℕ → Option ℕ
first_entry [] = none
first_entry (p ∷ _) = some p

-- Writing the fields of one process.
abbrev pub set_proc : ℕ → Proc → Kernel → Kernel
set_proc p x k = record k { procs = update k.procs p x }

abbrev pub wt_interrupted : ℕ
wt_interrupted = 0x80000000

abbrev pub wt_ksem : ℕ
wt_ksem = 0x100

abbrev pub wt_timer : ℕ
wt_timer = 0x80000002

abbrev pub wt_child : ℕ
wt_child = 0x80000001

-- What a comparison function of the schedulers returns: 1, 0 or -1.
pub data Compared : Type 0 where
  greater same less : Compared

abbrev pub is_less : Compared → Bool
is_less less = true
is_less _ = false

-- `if (c > 0) return 1; else if (c == 0) return 0; else return -1`, where `c` is the `int32_t` with
-- the bits of `d`: negative from 2^31 on.
abbrev pub compare_int32 : ℕ → Compared
compare_int32 d = if d == 0 then same else if ltb d (2 ^ 31) then greater else less
