-- ===== src/Class/Rr.antt =====
-- kern/schedule/rr_sched.c: round robin.
use li_nos.Base.{
  ℕ, ◌-◌, true, ◌&&◌, not, Option, some, [], ◌∷◌, ◌++◌, ◌>>◌, assert, ltb, ◌==◌, if◌then◌else◌, has,
  erase, update,
}
use li_nos.Kernel.{refill, first_entry, RunQueue, Kernel, add32, sub32, set_proc}

unfoldable pub rr_init : RunQueue → RunQueue
rr_init rq = record rq { run_list = []; proc_num = 0 }

-- The process goes to the end of the list.
unfoldable pub rr_push : ℕ → Kernel → Kernel
rr_push p k =
    let x = k.procs p in
    record k {
      rq = record (k.rq) { run_list = k.rq.run_list ++ p ∷ []; proc_num = add32 k.rq.proc_num 1 };
      procs =
          update k.procs p
            (record x { time_slice = refill k.rq.max_time_slice x.time_slice; rq = true });
    }

unfoldable pub rr_enqueue : ℕ → Kernel → Option Kernel
unfolding rr_push
rr_enqueue p k = assert (not (has p k.rq.run_list)) >> some (rr_push p k)

unfoldable pub rr_unlink : ℕ → Kernel → Kernel
rr_unlink p k = record k {
  rq = record (k.rq) { run_list = erase p k.rq.run_list; proc_num = sub32 k.rq.proc_num 1 };
}

unfoldable pub rr_dequeue : ℕ → Kernel → Option Kernel
unfolding rr_unlink
rr_dequeue p k = assert (has p k.rq.run_list && (k.procs p).rq) >> some (rr_unlink p k)

unfoldable pub rr_pick_next : RunQueue → Option ℕ
rr_pick_next rq = first_entry rq.run_list

unfoldable pub rr_proc_tick : ℕ → Kernel → Kernel
rr_proc_tick p k =
    let x = k.procs p in
    let slice = if ltb 0 x.time_slice then x.time_slice - 1 else x.time_slice in
    set_proc p
      (record x { time_slice = slice; need_resched = if slice == 0 then true else x.need_resched })
      k
