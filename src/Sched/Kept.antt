-- ===== src/Sched/Kept.antt =====
-- `schedule` of kern/schedule/sched.c changes no process's state and wait state.
use li_nos.Base.{
  ℕ, ◌≡◌, ◌∙◌, not, ◌&&◌, subst, refl, inl, inr, Option, some, none, ◌==◌, Bool-cases, false, arith,
  assert-eq-some, >>=-eq-some, has,
}
use li_nos.Kernel.{
  is_runnable, Kernel, SchedClass, rr_sched, fcfs_sched, stride_sched, prior_sched, set_proc,
}
use li_nos.SkewHeap.{Heap, leaf, node}
use li_nos.Class.{
  class_enqueue, sched_class_enqueue, class_dequeue, sched_class_dequeue, class_pick_next,
  sched_class_pick_next,
}
use li_nos.Class.Rr.{rr_push, rr_enqueue, rr_unlink, rr_dequeue}
use li_nos.Class.Fcfs.{fcfs_push, fcfs_enqueue, fcfs_unlink, fcfs_dequeue}
use li_nos.Class.Stride.{stride_enqueue, stride_dequeue, stride_pick_next, stride_pick_root}
use li_nos.Class.Prior.{prior_enqueue, prior_dequeue, prior_pick_next, prior_pick_root}
use li_nos.Sched.{requeue_current, run_next, proc_run, dequeue_picked, schedule}

pub record Kept (k k' : Kernel) : Type 0 where
  pub state : (q : ℕ) → (k'.procs q).state ≡ (k.procs q).state
  pub wait_state : (q : ℕ) → (k'.procs q).wait_state ≡ (k.procs q).wait_state

Kept-of : (k k1 k' : Kernel) → some k1 ≡ some k' → Kept k k1 → Kept k k'
Kept-of k k1 k' e o = subst (Kept k) (cc) o

Kept-after : (k k1 k' : Kernel) → Kept k k1 → Kept k1 k' → Kept k k'
Kept-after k k1 k' a b = record {
  state = λ q. b.state q ∙ a.state q;
  wait_state = λ q. b.wait_state q ∙ a.wait_state q;
}

Kept-self : (k : Kernel) → Kept k k
Kept-self k = record { state = λ q. refl; wait_state = λ q. refl }

enqueue-Kept : (c : SchedClass) (p : ℕ) (k k' : Kernel) → class_enqueue c p k ≡ some k' → Kept k k'
unfolding class_enqueue rr_enqueue rr_push fcfs_enqueue fcfs_push stride_enqueue prior_enqueue
enqueue-Kept rr_sched p k k' e =
    Kept-of k (rr_push p k) k' (assert-eq-some (not (has p k.rq.run_list)) (some (rr_push p k)) e).1
      (record { state = λ q. ground arith; wait_state = λ q. ground arith })
enqueue-Kept fcfs_sched p k k' e =
    Kept-of k (fcfs_push p k) k'
      (assert-eq-some (not (has p k.rq.run_list)) (some (fcfs_push p k)) e).1
      (record { state = λ q. ground arith; wait_state = λ q. ground arith })
enqueue-Kept stride_sched p k k' e =
    Kept-of k (stride_enqueue p k) k' e
      (record { state = λ q. ground arith; wait_state = λ q. ground arith })
enqueue-Kept prior_sched p k k' e =
    Kept-of k (prior_enqueue p k) k' e
      (record { state = λ q. ground arith; wait_state = λ q. ground arith })

dequeue-Kept : (c : SchedClass) (p : ℕ) (k k' : Kernel) → class_dequeue c p k ≡ some k' → Kept k k'
unfolding class_dequeue rr_dequeue rr_unlink fcfs_dequeue fcfs_unlink stride_dequeue prior_dequeue
dequeue-Kept rr_sched p k k' e =
    Kept-of k (rr_unlink p k) k'
      (assert-eq-some (has p k.rq.run_list && (k.procs p).rq) (some (rr_unlink p k)) e).1
      (record { state = λ q. refl; wait_state = λ q. refl })
dequeue-Kept fcfs_sched p k k' e =
    Kept-of k (fcfs_unlink p k) k'
      (assert-eq-some (has p k.rq.run_list && (k.procs p).rq) (some (fcfs_unlink p k)) e).1
      (record { state = λ q. refl; wait_state = λ q. refl })
dequeue-Kept stride_sched p k k' e =
    Kept-of k (stride_dequeue p k) k' e (record { state = λ q. refl; wait_state = λ q. refl })
dequeue-Kept prior_sched p k k' e =
    Kept-of k (prior_dequeue p k) k' e (record { state = λ q. refl; wait_state = λ q. refl })

stride_root-Kept : (t : Heap) (k : Kernel) → Kept k (stride_pick_root t k).1
unfolding stride_pick_root
stride_root-Kept leaf k = Kept-self k
stride_root-Kept (node l x r) k = record {
  state = λ q. ground arith;
  wait_state = λ q. ground arith;
}

prior_root-Kept : (t : Heap) (k : Kernel) → Kept k (prior_pick_root t k).1
unfolding prior_pick_root
prior_root-Kept leaf k = Kept-self k
prior_root-Kept (node l x r) k = record {
  state = λ q. ground arith;
  wait_state = λ q. ground arith;
}

pick-Kept : (c : SchedClass) (k : Kernel) → Kept k (class_pick_next c k).1
unfolding class_pick_next stride_pick_next prior_pick_next
pick-Kept rr_sched k = Kept-self k
pick-Kept fcfs_sched k = Kept-self k
pick-Kept stride_sched k = stride_root-Kept k.rq.lab6_run_pool k
pick-Kept prior_sched k = prior_root-Kept k.rq.lab6_run_pool k

sched_pick-Kept : (k : Kernel) → Kept k (sched_class_pick_next k).1
unfolding sched_class_pick_next
sched_pick-Kept k = pick-Kept k.sched_class k

sched_enqueue-Kept : (p : ℕ) (k k' : Kernel) → sched_class_enqueue p k ≡ some k' → Kept k k'
unfolding sched_class_enqueue
sched_enqueue-Kept p k k' e = elim (Bool-cases (p == k.idleproc)) [
  | inl i ↦ Kept-of k k k' (rw i at e) (Kept-self k)
  | inr i ↦ enqueue-Kept k.sched_class p k k' (rw i at e)
]

requeue-Kept : (k k' : Kernel) → requeue_current k ≡ some k' → Kept k k'
unfolding requeue_current
requeue-Kept k k' e =
    let x = k.procs k.current in
    let k1 = set_proc k.current (record x { need_resched = false }) k in
    let a : Kept k k1 = record { state = λ q. ground arith; wait_state = λ q. ground arith } in
    elim (Bool-cases (is_runnable x.state)) [
      | inl r ↦ Kept-after k k1 k' a (sched_enqueue-Kept k.current k1 k' (rw r at e))
      | inr r ↦ Kept-of k k1 k' (rw r at e) a
    ]

run_next-Kept : (p : ℕ) (k : Kernel) → Kept k (run_next p k)
unfolding run_next proc_run
run_next-Kept p k = record { state = λ q. ground arith; wait_state = λ q. ground arith }

dequeue_picked-Kept : (o : Option ℕ) (k k' : Kernel) → dequeue_picked o k ≡ some k' → Kept k k'
unfolding dequeue_picked sched_class_dequeue
dequeue_picked-Kept none k k' e =
    Kept-of k (run_next k.idleproc k) k' e (run_next-Kept k.idleproc k)
dequeue_picked-Kept (some p) k k' e =
    let (k1, r, f) = >>=-eq-some (class_dequeue k.sched_class p k) (λ y. some (run_next p y)) e in
    Kept-of k (run_next p k1) k' f
      (Kept-after k k1 (run_next p k1) (dequeue-Kept k.sched_class p k k1 r) (run_next-Kept p k1))

pub schedule-Kept : (k k' : Kernel) → schedule k ≡ some k' → Kept k k'
unfolding schedule
schedule-Kept k k' e =
    let (k1, r, f) = >>=-eq-some (requeue_current k) _ e in
    let k2 = (sched_class_pick_next k1).1 in
    Kept-after k k1 k' (requeue-Kept k k1 r) (
      Kept-after k1 k2 k' (sched_pick-Kept k1)
        (dequeue_picked-Kept (sched_class_pick_next k1).0 k2 k' f))
