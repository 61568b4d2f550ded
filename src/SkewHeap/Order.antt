-- ===== src/SkewHeap/Order.antt =====
-- The heap order of libs/skew_heap.h: no entry stands under one that comes later.
use li_nos.Base.{ℕ, ◌≡◌, ◌≤◌, inl, inr, Bool, arith, ◌==◌, ltb, Bool-cases}
use li_nos.SkewHeap.{
  Heap, leaf, node, skew_heap_init, skew_heap_merge, skew_heap_insert, holds, take_out,
  skew_heap_remove,
}

-- A property of every entry.
abbrev pub AllIn : (ℕ → Type 0) → Heap → Type 0
AllIn P leaf = Unit
AllIn P (node l x r) = P x × AllIn P l × AllIn P r

pub AllIn-map : {P Q : ℕ → Type 0} (t : Heap) → ((x : ℕ) → P x → Q x) → AllIn P t → AllIn Q t
AllIn-map leaf f a = tt
AllIn-map (node l x r) f a = (f x a.0, AllIn-map l f a.1, AllIn-map r f a.2)

-- The entries of each subtree have at least the rank of its root.
abbrev pub IsHeap : (ℕ → ℕ) → Heap → Type 0
IsHeap rank leaf = Unit
IsHeap rank (node l x r) =
    AllIn (λ y. rank x ≤ rank y) l × AllIn (λ y. rank x ≤ rank y) r × IsHeap rank l × IsHeap rank r

module _ (before : ℕ → ℕ → Bool) (P : ℕ → Type 0) where
  pub AllIn-merge : (t u : Heap) → AllIn P t → AllIn P u → AllIn P (skew_heap_merge before t u)
  unfolding skew_heap_merge
  AllIn-merge leaf u a b = b
  AllIn-merge (node l x r) leaf a b = a
  AllIn-merge (node l x r) (node l' y r') a b = elim (Bool-cases (before x y)) [
    | inl e ↦ rw e (a.0, AllIn-merge r (node l' y r') a.2 b, a.1)
    | inr e ↦ rw e (b.0, AllIn-merge (node l x r) r' a b.2, b.1)
  ]

  pub AllIn-insert : (t : Heap) (b : ℕ) → AllIn P t → P b → AllIn P (skew_heap_insert before t b)
  unfolding skew_heap_insert skew_heap_init
  AllIn-insert t b a p = AllIn-merge t (node leaf b leaf) a (p, tt, tt)

  AllIn-take_out : (t : Heap) (b : ℕ) → AllIn P t → AllIn P (take_out before t b)
  unfolding take_out
  AllIn-take_out leaf b a = tt
  AllIn-take_out (node l x r) b a = elim (Bool-cases (x == b)) [
    | inl e ↦ rw e (AllIn-merge l r a.1 a.2)
    | inr e ↦ rw e (a.0, AllIn-take_out l b a.1, AllIn-take_out r b a.2)
  ]

-- `P` is where the comparison is the order of the ranks.
module _ (before : ℕ → ℕ → Bool) (rank : ℕ → ℕ) (P : ℕ → Type 0)
    (agrees : (x y : ℕ) → P x → P y → before x y ≡ ltb (rank x) (rank y)) where
  -- Merging two heaps gives a heap, wherever the comparison is that of ranks on their entries.
  pub merge-IsHeap :
      (t u : Heap)
      → AllIn P t
      → AllIn P u
      → IsHeap rank t
      → IsHeap rank u
      → IsHeap rank (skew_heap_merge before t u)
  unfolding skew_heap_merge
  merge-IsHeap leaf u a b s t = t
  merge-IsHeap (node l x r) leaf a b s t = s
  merge-IsHeap (node l x r) (node l' y r') a b s t = elim (Bool-cases (before x y)) [
    | inl e ↦ rw e (
        let le : rank x ≤ rank y = ground (arith, agrees x y a.0 b.0) in
        let above = λ (z : ℕ) (h : rank y ≤ rank z). le_through (rank x) (rank y) (rank z) le h in
        (
          AllIn-merge before _ r (node l' y r') s.1
              (le, AllIn-map l' above t.0, AllIn-map r' above t.1),
          s.0,
          merge-IsHeap r (node l' y r') a.2 b s.3 t,
          s.2,
        ))
    | inr e ↦ rw e (
        let le : rank y ≤ rank x = ground (arith, agrees x y a.0 b.0) in
        let above = λ (z : ℕ) (h : rank x ≤ rank z). le_through (rank y) (rank x) (rank z) le h in
        (
          AllIn-merge before _ (node l x r) r' (le, AllIn-map l above s.0, AllIn-map r above s.1)
              t.1,
          t.0,
          merge-IsHeap (node l x r) r' a b.2 s t.3,
          t.2,
        ))
  ]
    where
      le_through : (i j k : ℕ) → i ≤ j → j ≤ k → i ≤ k
      le_through i j k p q = omega arith

  -- Insertion of an entry keeps the heap order.
  pub insert-IsHeap :
      (t : Heap) (b : ℕ)
      → AllIn P t
      → P b
      → IsHeap rank t
      → IsHeap rank (skew_heap_insert before t b)
  unfolding skew_heap_insert skew_heap_init
  insert-IsHeap t b a p s = merge-IsHeap t (node leaf b leaf) a (p, tt, tt) s (tt, tt, tt, tt)

  take_out-IsHeap :
      (t : Heap) (b : ℕ) → AllIn P t → IsHeap rank t → IsHeap rank (take_out before t b)
  unfolding take_out
  take_out-IsHeap leaf b a s = tt
  take_out-IsHeap (node l x r) b a s = elim (Bool-cases (x == b)) [
    | inl e ↦ rw e (merge-IsHeap l r a.1 a.2 s.2 s.3)
    | inr e ↦ rw e (
      AllIn-take_out before _ l b s.0,
      AllIn-take_out before _ r b s.1,
      take_out-IsHeap l b a.1 s.2,
      take_out-IsHeap r b a.2 s.3,
    )
  ]

  -- Removal of any entry keeps the heap order, wherever the comparison is that of ranks on the heap's
  -- entries.
  pub remove-IsHeap :
      (t : Heap) (b : ℕ) → AllIn P t → IsHeap rank t → IsHeap rank (skew_heap_remove before t b)
  unfolding skew_heap_remove
  remove-IsHeap t b a s = elim (Bool-cases (holds b t)) [
    | inl e ↦ rw e (take_out-IsHeap t b a s)
    | inr e ↦ rw e tt
  ]
