-- ===== src/Class.antt =====
-- The scheduling class in use, and the calls through it: `struct sched_class` of
-- kern/schedule/sched.h, and the `sched_class_` functions of kern/schedule/sched.c.
pub mod Rr
pub mod Fcfs
pub mod Stride
pub mod Prior
use li_nos.Base.{ℕ, Bool, true, false, Option, none, some, if◌then◌else◌, ◌==◌}
use li_nos.Kernel.{
  Proc, RunQueue, Kernel, SchedClass, rr_sched, fcfs_sched, stride_sched, prior_sched, set_proc,
}
use Rr.{rr_init, rr_enqueue, rr_dequeue, rr_pick_next, rr_proc_tick}
use Fcfs.{fcfs_init, fcfs_enqueue, fcfs_dequeue, fcfs_pick_next, fcfs_proc_tick}
use Stride.{stride_init, stride_enqueue, stride_dequeue, stride_pick_next, stride_proc_tick}
use Prior.{prior_init, prior_enqueue, prior_dequeue, prior_pick_next, prior_proc_tick}

-- `sched_class->init(rq)` and the other members of the structure.
unfoldable pub class_init : SchedClass → RunQueue → RunQueue
class_init rr_sched rq = rr_init rq
class_init fcfs_sched rq = fcfs_init rq
class_init stride_sched rq = stride_init rq
class_init prior_sched rq = prior_init rq

unfoldable pub class_enqueue : SchedClass → ℕ → Kernel → Option Kernel
class_enqueue rr_sched p k = rr_enqueue p k
class_enqueue fcfs_sched p k = fcfs_enqueue p k
class_enqueue stride_sched p k = some (stride_enqueue p k)
class_enqueue prior_sched p k = some (prior_enqueue p k)

unfoldable pub class_dequeue : SchedClass → ℕ → Kernel → Option Kernel
class_dequeue rr_sched p k = rr_dequeue p k
class_dequeue fcfs_sched p k = fcfs_dequeue p k
class_dequeue stride_sched p k = some (stride_dequeue p k)
class_dequeue prior_sched p k = some (prior_dequeue p k)

unfoldable pub class_pick_next : SchedClass → Kernel → Option ℕ × Kernel
class_pick_next rr_sched k = (rr_pick_next k.rq, k)
class_pick_next fcfs_sched k = (fcfs_pick_next k.rq, k)
class_pick_next stride_sched k = stride_pick_next k
class_pick_next prior_sched k = prior_pick_next k

unfoldable pub class_proc_tick : SchedClass → ℕ → Kernel → Kernel
class_proc_tick rr_sched p k = rr_proc_tick p k
class_proc_tick fcfs_sched p k = fcfs_proc_tick p k
class_proc_tick stride_sched p k = stride_proc_tick p k
class_proc_tick prior_sched p k = prior_proc_tick p k

-- The idle process is never queued.
unfoldable pub sched_class_enqueue : ℕ → Kernel → Option Kernel
unfolding class_enqueue
sched_class_enqueue p k = if p == k.idleproc then some k else class_enqueue k.sched_class p k

unfoldable pub sched_class_dequeue : ℕ → Kernel → Option Kernel
unfolding class_dequeue
sched_class_dequeue p k = class_dequeue k.sched_class p k

unfoldable pub sched_class_pick_next : Kernel → Option ℕ × Kernel
unfolding class_pick_next
sched_class_pick_next k = class_pick_next k.sched_class k

unfoldable pub sched_class_proc_tick : ℕ → Kernel → Kernel
unfolding class_proc_tick
sched_class_proc_tick p k =
    if p == k.idleproc
    then set_proc p (record (k.procs p) { need_resched = true }) k
    else class_proc_tick k.sched_class p k
