-- ===== src/Lib.antt =====
-- LiNos is a teaching kernel for x86 that grew out of ucore: processes with exchangeable scheduling
-- classes, kernel timers, several page allocators, virtual memory with swapping, semaphores and
-- monitors, and a simple file system below a virtual one. This library models parts of its C code.
--
-- How the parts interact. The timer interrupt calls run_timer_list, which wakes the processes whose
-- timers are due and tells the scheduling class of the tick. The class sets need_resched; the trap
-- handler then calls schedule, which queues the current process, lets the class pick one, dequeues
-- it and switches. wakeup_proc is how every other part makes a process able to run. The classes keep
-- their processes in a linked list (libs/list.h) or in a skew heap (libs/skew_heap.h). The page
-- allocators keep a linked list of free blocks in the page descriptors. Wait queues hold the processes
-- that sleep, and wake them by wakeup_proc; semaphores stand on wait queues, monitors on semaphores,
-- and the keyboard on a wait queue of its own. The table of open files passes each call on to an inode,
-- with a struct iobuf that is filled by memmove.
--
-- Which file models which part:
--   Base         names passed on from the libraries, Boolean tests, lists of addresses, and `assert`:
--                a failed assertion is the result `none`.
--   Links        libs/list.h over the store of all prev and next fields, by address. `Links.Ring` says
--                what it is for a store to hold a circular list with given entries in order. The other
--                modules model a linked list by the list of its entries.
--   SkewHeap     libs/skew_heap.h as an algebraic heap of addresses. `SkewHeap.Pointers` is the same
--                code over the store of parent, left and right fields, NULL being 0. Its merge takes
--                fuel, one more than the number of nodes in the two heaps: each call leaves one node
--                behind. `SkewHeap.Order` and `SkewHeap.Items` are about the algebraic heap.
--   Kernel       the state that kern/schedule works on: the fields of proc_struct
--                (kern/process/proc.h) that it reads or writes, struct run_queue, timer_t, and the
--                static variables of kern/schedule/sched.c. A process is named by the address of its
--                structure, the same address that names its link and its heap entry.
--   Class        the four classes: rr_sched.c, fcfs_sched.c, stride_sched.c and prior_sched.c of
--                kern/schedule, and the choice among them that C makes by function pointers. Their
--                unsigned fields are 32 bits wide: `add32` and `sub32` wrap, and the comparison of
--                strides takes the sign of the wrapped difference.
--   Sched        kern/schedule/sched.c: wakeup_proc, schedule, the timers (`Sched.Timers`) and the
--                choice of the class. These calls run with interrupts off, so each is one step of
--                the state. `Sched.Invariant` says what should hold between the steps, `Sched.Schedule`
--                and `Sched.Wakeup` are about two of them, `Sched.Fairness` is about a process in
--                the round-robin queue over a sequence of steps, `Sched.Window`, `Sched.Turn`
--                and `Sched.Striding` about the stride class, `Sched.Timers.Deadlines` and `Sched.Tick` about the delta
--                list of timers.
--   Pages        struct Page and free_area_t of kern/mm/memlayout.h.
--   FirstFit     kern/mm/firstfit_pmm.c over the page descriptors and the list of free blocks.
--   BestFit      best_alloc_pages of kern/mm/bestfit_pmm.c, on lists of blocks in any order.
--   Vmm          kern/mm/vmm.c: the areas of an address space, with mm_struct and its areas in one
--                state. What kmalloc returns is an argument, any address that is no area of the list.
--                The loop of user_mem_check takes fuel, one more than the number of areas: each round
--                leaves one area behind. Addresses of areas are user addresses, so the sums with the
--                page size do not wrap; those of requests wrap at 2^32 as in the source.
--
--   Process      get_pid, the hash table by process numbers and the links between relatives of
--                kern/process/proc.c. Each hash list and the list of all processes is the list of its
--                entries. The loop of get_pid takes fuel, one unit for each pass over the list:
--                2 * MAX_PID + 1 are enough, since each pass raises the number that is tried.
--   Memory       libs/string.c over a memory of bytes, by address. Loops that end at a null byte take
--                fuel, one unit more than there are bytes before it. The value of strtol wraps at 2^32.
--   Print        printnum of libs/printfmt.c. Its fuel is above the number: each call divides it.
--   Bitmap       kern/fs/sfs/bitmap.c. `Base.Bits` has the laws of the masks of one bit.
--   Wait         kern/sync/wait.c: wait queues over the state of the kernel; waking is wakeup_proc of
--                Sched. `Wait.Waiting` says what should hold of them between the steps. wakeup_queue
--                takes fuel, one unit more than there are waits in the queue.
--   Sem          kern/sync/sem.c over Wait and Sched. down is cut where it switches to another process:
--                `down` is what comes before, and `down_return` what the process does when it runs
--                again.
--   Monitor      kern/sync/monitor.c over Sem, cut in the same way.
--   Vfs          kern/fs/vfs/inode.c and kern/fs/vfs/vfsfile.c: the reference and open counts of
--                inodes, vfs_open and vfs_close. The operations of the file systems, which are called
--                through function pointers, and the walk of a path are a record of functions on the
--                inodes and a state of their own (`Vfs.Vops`).
--   File         kern/fs/file.c and kern/fs/fs.c: the table of open files (`File.Calls` has the calls,
--                `File.Fork` what a fork and an exit do with it), over Vfs.
--   Stdin        kern/fs/devs/dev_stdin.c: the buffer of the keyboard over Wait. The fuel of a write is
--                that of wakeup_queue.
--   Swap         the choice of a page in kern/mm/swap_fifo.c and kern/mm/swap_clock.c, with the flags
--                of the page table entries as a table by the address of the entry, and get_pte as a
--                parameter.
--   Iobuf        kern/fs/iobuf.c over Memory.
--
-- Not modelled: context switches, interrupts, ports and all else that is the machine's; messages that
-- are printed (do_queue and do_stride_queue only print); self tests (basic_check, firstfit_check,
-- check_sync); kern/mm/kmalloc.c, which is the SLOB allocator of Linux. The next-fit and buddy
-- allocators, page tables and faults, swap_out and swap_in, do_fork, do_exit, do_wait and do_kill, the
-- rest of the virtual file system and the simple file system but for its bitmap are left for later modules. The
-- LRU policy is left out since it follows a boolean as a pointer.
pub mod Base
pub mod Links
pub mod SkewHeap
pub mod Kernel
pub mod Class
pub mod Sched
pub mod Pages
pub mod FirstFit
pub mod Vmm
pub mod BestFit
pub mod Process
pub mod Memory
pub mod Print
pub mod Bitmap
pub mod Wait
pub mod Sem
pub mod Monitor
pub mod Vfs
pub mod File
pub mod Stdin
pub mod Swap
pub mod Iobuf
