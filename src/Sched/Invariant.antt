-- ===== src/Sched/Invariant.antt =====
-- What holds of the scheduler between two calls, for every scheduling class: no process that can run
-- is lost, and none is queued twice.
use li_nos.Base.{
  ℕ, ◌+◌, ◌≤◌, ◌<◌, ◌≡◌, ◌≢◌, ◌∙◌, ◌⊎◌, ap, sym, not, ◌&&◌, refl, inl, inr, some, if◌then◌else◌,
  ◌==◌, ==_iff, Bool-cases, true, arith,
}
use mathlib.Core.Path.{ap₂}
use native.Mathlib.Decide.{ℕ_discrete}
use li_nos.Kernel.{runnable, Kernel}
use li_nos.Class.{sched_class_enqueue}
use li_nos.Sched.Queue.{in_class, SameGlobals, Enqueued, enqueue-Enqueued}

-- How often a process waits in the queue of the scheduling class in use.
abbrev pub queued : Kernel → ℕ → ℕ
queued k p = in_class k.sched_class k.rq p

-- `Exempt` are the processes that may be able to run without being queued, beside the idle one.
pub record IsQueued (k : Kernel) (Exempt : ℕ → Type 0) : Type 0 where
  pub once : (p : ℕ) → queued k p ≤ 1
  pub idle_out : queued k k.idleproc ≡ 0
  pub ready : (p : ℕ) → 0 < queued k p → ((k.procs p).state ≡ runnable) × ((k.procs p).rq ≡ true)
  pub none_lost :
      (p : ℕ) → (k.procs p).state ≡ runnable → ¬ Exempt p → p ≢ k.idleproc → queued k p ≡ 1

-- Between two calls: queued are, once each, exactly the processes that can run, but for the current
-- and the idle one.
pub record IsSched (k : Kernel) : Type 0 where
  pub waiting : IsQueued k (λ p. p ≡ k.current)
  pub current_out : queued k k.current ≡ 0

module _ (p : ℕ) (k k' : Kernel) (E : ℕ → Type 0) (e : Enqueued k.sched_class p k k') where
  queued-enqueue : (q : ℕ) → queued k' q ≡ queued k q + (if q == p then 1 else 0)
  queued-enqueue q = ap (λ c. in_class c k'.rq q) e.same.sched_class ∙ e.added q

  -- Queueing a process that can run and is not queued.
  enqueue-IsQueued :
      IsQueued k (λ q. (q ≡ p) ⊎ E q)
      → queued k p ≡ 0
      → p ≢ k.idleproc
      → (k.procs p).state ≡ runnable
      → IsQueued k' E
  enqueue-IsQueued w out ne run = record {
    once = λ q. ground (arith, queued-enqueue q, w.once q);
    idle_out =
        ap (queued k') e.same.idleproc ∙ queued-enqueue k.idleproc ∙ ground (arith, w.idle_out);
    ready = λ q h. ground (arith, queued-enqueue q, e.state q, e.marked q, w.ready q);
    none_lost = λ q r x i. elim (ℕ_discrete q p) [
      | yes same ↦ ground (arith, queued-enqueue q)
      | no other ↦
          let before =
            w.none_lost q (sym (e.state q) ∙ r) (λ c. elim c [ inl s ↦ other s | inr y ↦ x y ])
              (λ j. i (j ∙ sym e.same.idleproc)) in
          ground (arith, queued-enqueue q)
    ];
  }

-- Queueing through the class in use, which skips the idle process.
pub sched_enqueue-IsQueued :
    (p : ℕ) (k : Kernel) (E : ℕ → Type 0)
    → IsQueued k (λ q. (q ≡ p) ⊎ E q)
    → queued k p ≡ 0
    → (k.procs p).state ≡ runnable
    → (k' : Kernel) × (sched_class_enqueue p k ≡ some k')
      × IsQueued k' E
      × SameGlobals k k'
      × ((q : ℕ) → (k'.procs q).state ≡ (k.procs q).state)
      × ((q : ℕ) → queued k' q ≡ queued k q + (if (q == p) && not (p == k.idleproc) then 1 else 0))
unfolding sched_class_enqueue
sched_enqueue-IsQueued p k E w out run = elim (Bool-cases (p == k.idleproc)) [
  | inl idle ↦ rw idle (
    k,
    refl,
    record {
      once = w.once;
      idle_out = w.idle_out;
      ready = w.ready;
      none_lost = λ q r x i.
          w.none_lost q r
            (λ c. elim c [ inl s ↦ i (s ∙ (==_iff p k.idleproc).0 idle) | inr y ↦ x y ]) i;
    },
    ground arith,
    λ q. refl,
    λ q. ground arith,
  )
  | inr busy ↦
      let (k', ran, e) = enqueue-Enqueued k.sched_class p k out in
      rw busy (
        k',
        ran,
        enqueue-IsQueued p k k' E e w out (ground arith) run,
        e.same,
        e.state,
        λ q. queued-enqueue p k k' E e q ∙ ground arith,
      )
]

-- Nothing that the invariant speaks of has changed.
pub record SameQueue (k k' : Kernel) : Type 0 where
  pub queue : k'.rq ≡ k.rq
  pub state : (q : ℕ) → (k'.procs q).state ≡ (k.procs q).state
  pub marked : (q : ℕ) → (k'.procs q).rq ≡ (k.procs q).rq
  pub same : SameGlobals k k'

pub same-queued :
    (k k' : Kernel)
    → k'.rq ≡ k.rq
    → k'.sched_class ≡ k.sched_class
    → (q : ℕ) → queued k' q ≡ queued k q
same-queued k k' e f q = ap₂ (λ c r. in_class c r q) f e

pub same-IsQueued : (k k' : Kernel) (E : ℕ → Type 0) → SameQueue k k' → IsQueued k E → IsQueued k' E
same-IsQueued k k' E s w =
    let d = same-queued k k' s.queue s.same.sched_class in
    record {
      once = λ q. rw (d q) (w.once q);
      idle_out = ap (queued k') s.same.idleproc ∙ d k.idleproc ∙ w.idle_out;
      ready = λ q h. let r = w.ready q (rw (d q) at h) in (s.state q ∙ r.0, s.marked q ∙ r.1);
      none_lost =
          λ q r x i. d q ∙ w.none_lost q (sym (s.state q) ∙ r) x (λ j. i (j ∙ sym s.same.idleproc));
    }

-- More processes may be exempt if those are not able to run.
pub widen-IsQueued :
    (k : Kernel) (E F : ℕ → Type 0)
    → IsQueued k E
    → ((q : ℕ) → (k.procs q).state ≡ runnable → ¬ F q → ¬ E q)
    → IsQueued k F
widen-IsQueued k E F w f = record {
  once = w.once;
  idle_out = w.idle_out;
  ready = w.ready;
  none_lost = λ q r x i. w.none_lost q r (f q r x) i;
}
