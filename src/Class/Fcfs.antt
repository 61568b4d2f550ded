-- ===== src/Class/Fcfs.antt =====
-- kern/schedule/fcfs_sched.c: first come, first served.
use li_nos.Base.{ℕ, true, ◌&&◌, not, Option, some, [], ◌∷◌, ◌++◌, ◌>>◌, assert, has, erase, update}
use li_nos.Kernel.{refill, first_entry, RunQueue, Kernel, add32, sub32, refill, first_entry}

unfoldable pub fcfs_init : RunQueue → RunQueue
fcfs_init rq = record rq { run_list = []; proc_num = 0 }

-- The process goes to the end of the list.
unfoldable pub fcfs_push : ℕ → Kernel → Kernel
fcfs_push p k =
    let x = k.procs p in
    record k {
      rq = record (k.rq) { run_list = k.rq.run_list ++ p ∷ []; proc_num = add32 k.rq.proc_num 1 };
      procs =
          update k.procs p
            (record x { time_slice = refill k.rq.max_time_slice x.time_slice; rq = true });
    }

unfoldable pub fcfs_enqueue : ℕ → Kernel → Option Kernel
unfolding fcfs_push
fcfs_enqueue p k = assert (not (has p k.rq.run_list)) >> some (fcfs_push p k)

unfoldable pub fcfs_unlink : ℕ → Kernel → Kernel
fcfs_unlink p k = record k {
  rq = record (k.rq) { run_list = erase p k.rq.run_list; proc_num = sub32 k.rq.proc_num 1 };
}

unfoldable pub fcfs_dequeue : ℕ → Kernel → Option Kernel
unfolding fcfs_unlink
fcfs_dequeue p k = assert (has p k.rq.run_list && (k.procs p).rq) >> some (fcfs_unlink p k)

unfoldable pub fcfs_pick_next : RunQueue → Option ℕ
fcfs_pick_next rq = first_entry rq.run_list

-- The body is commented out in the source: a process runs until it gives the CPU up.
unfoldable pub fcfs_proc_tick : ℕ → Kernel → Kernel
fcfs_proc_tick p k = k
