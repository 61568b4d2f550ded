-- ===== src/Wait/Waiting.antt =====
-- What holds of the wait queues of kern/sync/wait.c and of the processes that wait in them.
use li_nos.Base.{
  ℕ, true, false, ◌≡◌, ◌≢◌, inl, inr, refl, sym, subst, arith, List, [], ◌∷◌, ◌==◌, has, erase,
  Distinct, Bool-cases, ==_ne, ==_iff,
}
use li_nos.Kernel.{sleeping}
use li_nos.Sched.Invariant.{IsSched}
use li_nos.Wait.{Sync}

-- A wait_t in a queue: it knows the queue, and its process sleeps in the wait state of the queue.
pub record IsMember (kind : ℕ → ℕ) (s : Sync) (q w : ℕ) : Type 0 where
  pub is_linked : (s.waits w).is_linked ≡ true
  pub wait_queue : (s.waits w).wait_queue ≡ q
  pub asleep : (s.kernel.procs (s.waits w).proc).state ≡ sleeping
  pub wait_state : (s.kernel.procs (s.waits w).proc).wait_state ≡ kind q

-- No process that can run is lost to the scheduler, and those in the queues sleep, each in one place.
-- `kind` is the wait state of each queue.
pub record IsWaiting (kind : ℕ → ℕ) (s : Sync) : Type 0 where
  pub sched : IsSched s.kernel
  pub member : (q w : ℕ) → has w (s.queues q) ≡ true → IsMember kind s q w
  pub queued :
      (w : ℕ) → (s.waits w).is_linked ≡ true → has w (s.queues (s.waits w).wait_queue) ≡ true
  pub once : (q : ℕ) → Distinct (s.queues q)
  pub apart :
      (v w : ℕ)
      → (s.waits v).is_linked ≡ true
      → (s.waits w).is_linked ≡ true
      → (s.waits v).proc ≡ (s.waits w).proc
      → v ≡ w

-- Lists without one of their entries.
pub has-erase_self : (w : ℕ) (xs : List ℕ) → Distinct xs → has w (erase w xs) ≡ false
has-erase_self w [] d = refl
has-erase_self w (x ∷ xs) (a, d) = elim (Bool-cases (w == x)) [
  | inl e ↦ rw e (subst (λ y. has y xs ≡ false) (sym ((==_iff w x).0 e)) a)
  | inr e ↦ rw e (rw e (has-erase_self w xs d))
]

pub has-erase_ne : (v w : ℕ) (xs : List ℕ) → v ≢ w → has v (erase w xs) ≡ has v xs
has-erase_ne v w [] n = refl
has-erase_ne v w (x ∷ xs) n = ground (arith, has-erase_ne v w xs n, ==_ne v w n)

has-erase_less : (v w : ℕ) (xs : List ℕ) → has v xs ≡ false → has v (erase w xs) ≡ false
has-erase_less v w [] e = refl
has-erase_less v w (x ∷ xs) e = ground (arith, has-erase_less v w xs)

pub Distinct-erase : (w : ℕ) (xs : List ℕ) → Distinct xs → Distinct (erase w xs)
Distinct-erase w [] d = tt
Distinct-erase w (x ∷ xs) (a, d) = elim (Bool-cases (w == x)) [
  | inl e ↦ rw e d
  | inr e ↦ rw e (has-erase_less x w xs a, Distinct-erase w xs d)
]
