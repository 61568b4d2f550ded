-- ===== src/Sched/Queue.antt =====
-- The queue operations of the four scheduling classes, as what they do to the processes waiting.
use li_nos.Base.{
  ℕ, ◌+◌, ◌<◌, ◌≡◌, refl, Option, none, some, List, [], ◌∷◌, if◌then◌else◌, ◌==◌, true, arith,
  count, count-append, count-erase, has-count,
}
use li_nos.SkewHeap.{Heap, leaf, node}
use li_nos.SkewHeap.Items
use li_nos.SkewHeap.Items.{count-insert, count-remove}
use li_nos.Kernel.{
  first_entry, Kernel, RunQueue, SchedClass, rr_sched, fcfs_sched, stride_sched, prior_sched,
}
use li_nos.Class.{class_enqueue, class_dequeue, class_pick_next}
use li_nos.Class.Rr.{rr_push, rr_enqueue, rr_unlink, rr_dequeue, rr_pick_next}
use li_nos.Class.Fcfs.{fcfs_push, fcfs_enqueue, fcfs_unlink, fcfs_dequeue, fcfs_pick_next}
use li_nos.Class.Stride.{
  stride_before, stride_enqueue, stride_dequeue, stride_pick_next, stride_pick_root,
}
use li_nos.Class.Prior.{
  prior_before, prior_enqueue, prior_dequeue, prior_pick_next, prior_pick_root,
}

-- How often a process stands in the queue that a class uses.
abbrev pub in_class : SchedClass → RunQueue → ℕ → ℕ
in_class rr_sched rq p = count p rq.run_list
in_class fcfs_sched rq p = count p rq.run_list
in_class stride_sched rq p = Items.count p rq.lab6_run_pool
in_class prior_sched rq p = Items.count p rq.lab6_run_pool

-- What queueing, waking and picking leave alone.
pub record SameGlobals (k k' : Kernel) : Type 0 where
  pub timer_list : k'.timer_list ≡ k.timer_list
  pub current : k'.current ≡ k.current
  pub idleproc : k'.idleproc ≡ k.idleproc
  pub sched_class : k'.sched_class ≡ k.sched_class

-- `p` is in the queue once more, and marked as queued; the states of the processes stay.
pub record Enqueued (c : SchedClass) (p : ℕ) (k k' : Kernel) : Type 0 where
  pub added : (q : ℕ) → in_class c k'.rq q ≡ in_class c k.rq q + (if q == p then 1 else 0)
  pub state : (q : ℕ) → (k'.procs q).state ≡ (k.procs q).state
  pub marked : (q : ℕ) → (k'.procs q).rq ≡ (if q == p then true else (k.procs q).rq)
  pub same : SameGlobals k k'

-- `p` is in the queue once less.
pub record Dequeued (c : SchedClass) (p : ℕ) (k k' : Kernel) : Type 0 where
  pub removed : (q : ℕ) → in_class c k'.rq q + (if q == p then 1 else 0) ≡ in_class c k.rq q
  pub procs : k'.procs ≡ k.procs
  pub same : SameGlobals k k'

-- A process that is in the queue is chosen, and none only if there is none; the queue stays.
pub record Picked (c : SchedClass) (k : Kernel) (o : Option ℕ) (k' : Kernel) : Type 0 where
  pub some_queued : {p : ℕ} → o ≡ some p → 0 < in_class c k.rq p
  pub none_empty : o ≡ none → (q : ℕ) → in_class c k.rq q ≡ 0
  pub queue : k'.rq ≡ k.rq
  pub state : (q : ℕ) → (k'.procs q).state ≡ (k.procs q).state
  pub marked : (q : ℕ) → (k'.procs q).rq ≡ (k.procs q).rq
  pub same : SameGlobals k k'

pub enqueue-Enqueued :
    (c : SchedClass) (p : ℕ) (k : Kernel)
    → in_class c k.rq p ≡ 0
    → (k' : Kernel) × (class_enqueue c p k ≡ some k') × Enqueued c p k k'
unfolding class_enqueue rr_enqueue fcfs_enqueue stride_enqueue prior_enqueue
enqueue-Enqueued rr_sched p k e = (
  rr_push p k,
  ground (arith, has-count p k.rq.run_list),
  record {
    added = λ q. ground (arith, count-append q k.rq.run_list (p ∷ []));
    state = λ q. ground arith;
    marked = λ q. ground arith;
    same = ground arith;
  },
)
enqueue-Enqueued fcfs_sched p k e = (
  fcfs_push p k,
  ground (arith, has-count p k.rq.run_list),
  record {
    added = λ q. ground (arith, count-append q k.rq.run_list (p ∷ []));
    state = λ q. ground arith;
    marked = λ q. ground arith;
    same = ground arith;
  },
)
enqueue-Enqueued stride_sched p k e = (
  stride_enqueue p k,
  refl,
  record {
    added = λ q. count-insert (stride_before k.procs) q p k.rq.lab6_run_pool;
    state = λ q. ground arith;
    marked = λ q. ground arith;
    same = ground arith;
  },
)
enqueue-Enqueued prior_sched p k e = (
  prior_enqueue p k,
  refl,
  record {
    added = λ q. count-insert (prior_before k.procs) q p k.rq.lab6_run_pool;
    state = λ q. ground arith;
    marked = λ q. ground arith;
    same = ground arith;
  },
)

pub dequeue-Dequeued :
    (c : SchedClass) (p : ℕ) (k : Kernel)
    → in_class c k.rq p ≡ 1
    → (k.procs p).rq ≡ true
    → (k' : Kernel) × (class_dequeue c p k ≡ some k') × Dequeued c p k k'
unfolding class_dequeue rr_dequeue fcfs_dequeue stride_dequeue prior_dequeue
dequeue-Dequeued rr_sched p k e m = (
  rr_unlink p k,
  ground (arith, has-count p k.rq.run_list),
  record {
    removed = λ q. ground (arith, count-erase q p k.rq.run_list, has-count p k.rq.run_list);
    procs = refl;
    same = ground arith;
  },
)
dequeue-Dequeued fcfs_sched p k e m = (
  fcfs_unlink p k,
  ground (arith, has-count p k.rq.run_list),
  record {
    removed = λ q. ground (arith, count-erase q p k.rq.run_list, has-count p k.rq.run_list);
    procs = refl;
    same = ground arith;
  },
)
dequeue-Dequeued stride_sched p k e m = (
  stride_dequeue p k,
  refl,
  record {
    removed = λ q. ground (arith, count-remove (stride_before k.procs) q p k.rq.lab6_run_pool);
    procs = refl;
    same = ground arith;
  },
)
dequeue-Dequeued prior_sched p k e m = (
  prior_dequeue p k,
  refl,
  record {
    removed = λ q. ground (arith, count-remove (prior_before k.procs) q p k.rq.lab6_run_pool);
    procs = refl;
    same = ground arith;
  },
)

first-count : (xs : List ℕ) {p : ℕ} → first_entry xs ≡ some p → 0 < count p xs
first-count [] e = cc
first-count (x ∷ xs) e = ground arith

none-count : (xs : List ℕ) (q : ℕ) → first_entry xs ≡ none → count q xs ≡ 0
none-count [] q e = refl
none-count (x ∷ xs) q e = cc

stride_root-Picked :
    (t : Heap) (k : Kernel)
    → k.rq.lab6_run_pool ≡ t
    → Picked stride_sched k (stride_pick_root t k).0 (stride_pick_root t k).1
unfolding stride_pick_root
stride_root-Picked leaf k e = record {
  some_queued = λ h. cc;
  none_empty = λ h q. rw e;
  queue = refl;
  state = λ q. refl;
  marked = λ q. refl;
  same = ground arith;
}
stride_root-Picked (node l x r) k e = record {
  some_queued = λ {p} h. rw e (ground arith);
  none_empty = λ h q. cc;
  queue = refl;
  state = λ q. ground arith;
  marked = λ q. ground arith;
  same = ground arith;
}

prior_root-Picked :
    (t : Heap) (k : Kernel)
    → k.rq.lab6_run_pool ≡ t
    → Picked prior_sched k (prior_pick_root t k).0 (prior_pick_root t k).1
unfolding prior_pick_root
prior_root-Picked leaf k e = record {
  some_queued = λ h. cc;
  none_empty = λ h q. rw e;
  queue = refl;
  state = λ q. refl;
  marked = λ q. refl;
  same = ground arith;
}
prior_root-Picked (node l x r) k e = record {
  some_queued = λ {p} h. rw e (ground arith);
  none_empty = λ h q. cc;
  queue = refl;
  state = λ q. ground arith;
  marked = λ q. ground arith;
  same = ground arith;
}

pub pick-Picked :
    (c : SchedClass) (k : Kernel) → Picked c k (class_pick_next c k).0 (class_pick_next c k).1
unfolding class_pick_next rr_pick_next fcfs_pick_next stride_pick_next prior_pick_next
pick-Picked rr_sched k = record {
  some_queued = λ h. first-count k.rq.run_list h;
  none_empty = λ h q. none-count k.rq.run_list q h;
  queue = refl;
  state = λ q. refl;
  marked = λ q. refl;
  same = ground arith;
}
pick-Picked fcfs_sched k = record {
  some_queued = λ h. first-count k.rq.run_list h;
  none_empty = λ h q. none-count k.rq.run_list q h;
  queue = refl;
  state = λ q. refl;
  marked = λ q. refl;
  same = ground arith;
}
pick-Picked stride_sched k = stride_root-Picked k.rq.lab6_run_pool k refl
pick-Picked prior_sched k = prior_root-Picked k.rq.lab6_run_pool k refl
