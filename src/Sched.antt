-- ===== src/Sched.antt =====
-- kern/schedule/sched.c: waking, switching, timers, and the choice of the scheduling class. The
-- calls run with interrupts off, so each is one step. `none` is a failed `assert`.
pub mod Timers
pub mod Queue
pub mod Invariant
pub mod Frame
pub mod Kept
pub mod Wakeup
pub mod Schedule
pub mod Fairness
pub mod Window
pub mod Turn
pub mod Striding
mod Tests
pub mod Tick
use li_nos.Base.{
  ℕ, ◌+◌, ◌-◌, ◌/◌, ◌%◌, ◌^◌, Bool, true, false, not, ◌&&◌, ◌||◌, Option, none, some, List, [], ◌∷◌,
  if◌then◌else◌, ◌==◌, ltb, assert, ◌>>=◌, ◌>>◌,
}
use li_nos.Kernel.{
  ProcState, runnable, is_runnable, is_zombie, Proc, RunQueue, Kernel, Timer, SchedClass, rr_sched,
  fcfs_sched, stride_sched, prior_sched, set_proc, wt_interrupted, add32,
}
use li_nos.Class.{
  class_init, sched_class_enqueue, sched_class_dequeue, sched_class_pick_next,
  sched_class_proc_tick,
}
use Timers.{del_timer}

pub sched_init : Kernel → Kernel
sched_init k = record k {
  timer_list = [];
  sched_class = rr_sched;
  rq = class_init rr_sched (record (k.rq) { max_time_slice = 5 });
}

-- `proc->state = PROC_RUNNABLE; proc->wait_state = 0`
abbrev pub woken : ℕ → Kernel → Kernel
woken p k = set_proc p (record (k.procs p) { state = runnable; wait_state = 0 }) k

pub wakeup_proc : ℕ → Kernel → Option Kernel
wakeup_proc p k =
    let queued = if p == k.current then some (woken p k) else sched_class_enqueue p (woken p k) in
    assert (not (is_zombie (k.procs p).state))
    >> (if is_runnable (k.procs p).state then some k else queued)

-- `proc_run`, as far as the scheduler sees it: the registers and the address space are the machine's.
pub proc_run : ℕ → Kernel → Kernel
proc_run p k = if p == k.current then k else record k { current = p }

-- `next->runs++`, and the switch to it.
pub run_next : ℕ → Kernel → Kernel
unfolding proc_run
run_next p k = proc_run p (set_proc p (record (k.procs p) { runs = (k.procs p).runs + 1 }) k)

pub dequeue_picked : Option ℕ → Kernel → Option Kernel
dequeue_picked none k = some (run_next k.idleproc k)
dequeue_picked (some p) k = sched_class_dequeue p k >>= λ k'. some (run_next p k')

-- `current->need_resched = 0`, and the current process goes back to the queue if it can run.
pub requeue_current : Kernel → Option Kernel
requeue_current k =
    let x = k.procs k.current in
    let k1 = set_proc k.current (record x { need_resched = false }) k in
    if is_runnable x.state then sched_class_enqueue k.current k1 else some k1

pub schedule : Kernel → Option Kernel
unfolding requeue_current dequeue_picked run_next
schedule k = requeue_current k >>= λ k2.
    dequeue_picked (sched_class_pick_next k2).0 (sched_class_pick_next k2).1

abbrev pub is_interrupted : ℕ → Bool
is_interrupted w = (w / 2 ^ 31) % 2 == 1

-- The `while` loop of `run_timer_list` over the timers from `timer` on.
pub run_expired : List Timer → Kernel → Option Kernel
unfolding wakeup_proc
run_expired [] k = some k
run_expired (t ∷ ts) k =
    let w = (k.procs t.proc).wait_state in
    let fired =
      assert ((w == 0) || is_interrupted w)
      >> (wakeup_proc t.proc k >>= λ k'. run_expired ts (del_timer t.timer_link k')) in
    if t.expires == 0 then fired else some k

pub tick_timers : List Timer → Kernel → Option Kernel
unfolding run_expired
tick_timers [] k = some k
tick_timers (t ∷ ts) k =
    let t' = record t { expires = t.expires - 1 } in
    assert (not (t.expires == 0)) >> run_expired (t' ∷ ts) (record k { timer_list = t' ∷ ts })

pub run_timer_list : Kernel → Option Kernel
unfolding tick_timers
run_timer_list k = tick_timers k.timer_list k >>= λ k'. some (sched_class_proc_tick k'.current k')

abbrev pub class_of_mode : ℕ → SchedClass → SchedClass
class_of_mode mode c =
    if mode == 1
    then stride_sched
    else if mode == 2
    then fcfs_sched
    else if mode == 3
    then rr_sched
    else if mode == 4
    then prior_sched
    else c

-- The queues stay as they are.
pub do_change_sched : ℕ → Kernel → Kernel
do_change_sched mode k = record k { sched_class = class_of_mode mode k.sched_class }
