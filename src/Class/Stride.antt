-- ===== src/Class/Stride.antt =====
-- kern/schedule/stride_sched.c: stride scheduling, with the processes in a skew heap
-- (`USE_SKEW_HEAP` is 1).
use li_nos.Base.{ℕ, ◌-◌, ◌/◌, Bool, true, Option, none, some, [], ltb, ◌==◌, if◌then◌else◌, update}
use li_nos.SkewHeap.{Heap, leaf, node, skew_heap_insert, skew_heap_remove}
use li_nos.Kernel.{
  Proc, RunQueue, Kernel, add32, sub32, set_proc, refill, Compared, is_less, compare_int32,
}

abbrev pub big_stride : ℕ
big_stride = 0x7FFFFFFF

-- The sign of the `int32_t` difference of the strides.
unfoldable pub proc_stride_comp_f : (ℕ → Proc) → ℕ → ℕ → Compared
proc_stride_comp_f procs a b = compare_int32 (sub32 (procs a).stride (procs b).stride)

-- `comp(a, b) == -1`
abbrev pub stride_before : (ℕ → Proc) → ℕ → ℕ → Bool
stride_before procs a b = is_less (proc_stride_comp_f procs a b)

unfoldable pub stride_init : RunQueue → RunQueue
stride_init rq = record rq { run_list = []; lab6_run_pool = leaf; proc_num = 0 }

unfoldable pub stride_enqueue : ℕ → Kernel → Kernel
unfolding proc_stride_comp_f
stride_enqueue p k =
    let x = k.procs p in
    let rq = record (k.rq) {
      lab6_run_pool = skew_heap_insert (stride_before k.procs) k.rq.lab6_run_pool p;
      proc_num = add32 k.rq.proc_num 1;
    } in
    record k {
      rq = rq;
      procs =
          update k.procs p
            (record x { time_slice = refill k.rq.max_time_slice x.time_slice; rq = true });
    }

unfoldable pub stride_dequeue : ℕ → Kernel → Kernel
unfolding proc_stride_comp_f
stride_dequeue p k = record k {
  rq = record (k.rq) {
    lab6_run_pool = skew_heap_remove (stride_before k.procs) k.rq.lab6_run_pool p;
    proc_num = sub32 k.rq.proc_num 1;
  };
}

-- The stride that a process has after it was picked.
abbrev pub next_stride : Proc → ℕ
next_stride x =
    if x.priority == 0 then add32 x.stride big_stride else add32 x.stride (big_stride / x.priority)

unfoldable pub stride_pick_root : Heap → Kernel → Option ℕ × Kernel
stride_pick_root leaf k = (none, k)
stride_pick_root (node _ p _) k =
    (some p, set_proc p (record (k.procs p) { stride = next_stride (k.procs p) }) k)

-- The root is the process with the least stride; the message that is printed is left out.
unfoldable pub stride_pick_next : Kernel → Option ℕ × Kernel
unfolding stride_pick_root
stride_pick_next k = stride_pick_root k.rq.lab6_run_pool k

unfoldable pub stride_proc_tick : ℕ → Kernel → Kernel
stride_proc_tick p k =
    let x = k.procs p in
    let slice = if ltb 0 x.time_slice then x.time_slice - 1 else x.time_slice in
    set_proc p
      (record x { time_slice = slice; need_resched = if slice == 0 then true else x.need_resched })
      k
