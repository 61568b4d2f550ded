-- ===== src/Sched/Frame.antt =====
-- What `wakeup_proc` of kern/schedule/sched.c leaves alone.
use li_nos.Base.{
  ℕ, ◌≡◌, ◌≢◌, ◌∙◌, not, subst, refl, inl, inr, some, ◌==◌, ==_ne, Bool-cases, arith,
  assert-eq-some, has,
}
use li_nos.Kernel.{
  is_runnable, is_zombie, Kernel, SchedClass, rr_sched, fcfs_sched, stride_sched, prior_sched,
}
use li_nos.Class.{class_enqueue, sched_class_enqueue}
use li_nos.Class.Rr.{rr_push, rr_enqueue}
use li_nos.Class.Fcfs.{fcfs_push, fcfs_enqueue}
use li_nos.Class.Stride.{stride_enqueue}
use li_nos.Class.Prior.{prior_enqueue}
use li_nos.Sched.{woken, wakeup_proc}

-- Another process is as it was, and the same one is current.
pub record Others (p : ℕ) (k k' : Kernel) : Type 0 where
  pub current : k'.current ≡ k.current
  pub idleproc : k'.idleproc ≡ k.idleproc
  pub procs : (q : ℕ) → q ≢ p → k'.procs q ≡ k.procs q

Others-of : (p : ℕ) (k k1 k' : Kernel) → some k1 ≡ some k' → Others p k k1 → Others p k k'
Others-of p k k1 k' e o = subst (Others p k) (cc) o

enqueue-Others :
    (c : SchedClass) (p : ℕ) (k k' : Kernel) → class_enqueue c p k ≡ some k' → Others p k k'
unfolding class_enqueue rr_enqueue rr_push fcfs_enqueue fcfs_push stride_enqueue prior_enqueue
enqueue-Others rr_sched p k k' e =
    Others-of p k (rr_push p k) k'
      (assert-eq-some (not (has p k.rq.run_list)) (some (rr_push p k)) e).1
      (record { current = refl; idleproc = refl; procs = λ q n. ground (arith, ==_ne q p n) })
enqueue-Others fcfs_sched p k k' e =
    Others-of p k (fcfs_push p k) k'
      (assert-eq-some (not (has p k.rq.run_list)) (some (fcfs_push p k)) e).1
      (record { current = refl; idleproc = refl; procs = λ q n. ground (arith, ==_ne q p n) })
enqueue-Others stride_sched p k k' e =
    Others-of p k (stride_enqueue p k) k' e
      (record { current = refl; idleproc = refl; procs = λ q n. ground (arith, ==_ne q p n) })
enqueue-Others prior_sched p k k' e =
    Others-of p k (prior_enqueue p k) k' e
      (record { current = refl; idleproc = refl; procs = λ q n. ground (arith, ==_ne q p n) })

sched_enqueue-Others : (p : ℕ) (k k' : Kernel) → sched_class_enqueue p k ≡ some k' → Others p k k'
unfolding sched_class_enqueue
sched_enqueue-Others p k k' e = elim (Bool-cases (p == k.idleproc)) [
  | inl i ↦
      Others-of p k k k' (rw i at e)
        (record { current = refl; idleproc = refl; procs = λ q n. refl })
  | inr i ↦ enqueue-Others k.sched_class p k k' (rw i at e)
]

woken-Others : (p : ℕ) (k : Kernel) → Others p k (woken p k)
woken-Others p k = record {
  current = refl;
  idleproc = refl;
  procs = λ q n. ground (arith, ==_ne q p n);
}

Others-after : (p : ℕ) (k k1 k' : Kernel) → Others p k k1 → Others p k1 k' → Others p k k'
Others-after p k k1 k' a b = record {
  current = b.current ∙ a.current;
  idleproc = b.idleproc ∙ a.idleproc;
  procs = λ q n. b.procs q n ∙ a.procs q n;
}

pub wakeup-Others : (p : ℕ) (k k' : Kernel) → wakeup_proc p k ≡ some k' → Others p k k'
unfolding wakeup_proc
wakeup-Others p k k' e =
    let f = (assert-eq-some (not (is_zombie (k.procs p).state)) _ e).1 in
    elim (Bool-cases (is_runnable (k.procs p).state)) [
      | inl r ↦
          Others-of p k k k' (rw r at f)
            (record { current = refl; idleproc = refl; procs = λ q n. refl })
      | inr r ↦
          let g = rw r at f in
          elim (Bool-cases (p == k.current)) [
            | inl c ↦ Others-of p k (woken p k) k' (rw c at g) (woken-Others p k)
            | inr c ↦
                Others-after p k (woken p k) k' (woken-Others p k)
                  (sched_enqueue-Others p (woken p k) k' (rw c at g))
          ]
    ]
