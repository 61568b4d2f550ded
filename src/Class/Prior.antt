-- ===== src/Class/Prior.antt =====
-- kern/schedule/prior_sched.c: priority scheduling, with the processes in a skew heap
-- (`USE_SKEW_HEAP` is 1).
use li_nos.Base.{ℕ, Bool, true, Option, none, some, [], update}
use li_nos.SkewHeap.{Heap, leaf, node, skew_heap_insert, skew_heap_remove}
use li_nos.Kernel.{
  Proc, RunQueue, Kernel, add32, sub32, set_proc, refill, Compared, is_less, compare_int32,
}

-- The sign of the `int32_t` difference of the priorities.
unfoldable pub proc_prior_comp_f : (ℕ → Proc) → ℕ → ℕ → Compared
proc_prior_comp_f procs a b = compare_int32 (sub32 (procs a).priority (procs b).priority)

-- `comp(a, b) == -1`
abbrev pub prior_before : (ℕ → Proc) → ℕ → ℕ → Bool
prior_before procs a b = is_less (proc_prior_comp_f procs a b)

unfoldable pub prior_init : RunQueue → RunQueue
prior_init rq = record rq { run_list = []; lab6_run_pool = leaf; proc_num = 0 }

unfoldable pub prior_enqueue : ℕ → Kernel → Kernel
unfolding proc_prior_comp_f
prior_enqueue p k =
    let x = k.procs p in
    let rq = record (k.rq) {
      lab6_run_pool = skew_heap_insert (prior_before k.procs) k.rq.lab6_run_pool p;
      proc_num = add32 k.rq.proc_num 1;
    } in
    record k {
      rq = rq;
      procs =
          update k.procs p
            (record x { time_slice = refill k.rq.max_time_slice x.time_slice; rq = true });
    }

unfoldable pub prior_dequeue : ℕ → Kernel → Kernel
unfolding proc_prior_comp_f
prior_dequeue p k = record k {
  rq = record (k.rq) {
    lab6_run_pool = skew_heap_remove (prior_before k.procs) k.rq.lab6_run_pool p;
    proc_num = sub32 k.rq.proc_num 1;
  };
}

unfoldable pub prior_pick_root : Heap → Kernel → Option ℕ × Kernel
prior_pick_root leaf k = (none, k)
prior_pick_root (node _ p _) k =
    (some p, set_proc p (record (k.procs p) { stride = (k.procs p).priority }) k)

-- The root is the process with the least priority; the message that is printed is left out.
unfoldable pub prior_pick_next : Kernel → Option ℕ × Kernel
unfolding prior_pick_root
prior_pick_next k = prior_pick_root k.rq.lab6_run_pool k

-- The body is empty in the source.
unfoldable pub prior_proc_tick : ℕ → Kernel → Kernel
prior_proc_tick p k = k
