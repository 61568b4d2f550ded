-- ===== src/SkewHeap/Items.antt =====
-- Which entries a skew heap of libs/skew_heap.h holds, and how often.
use li_nos.Base.{
  ℕ, ◌≡◌, ◌≤◌, ◌+◌, refl, inl, inr, Bool, arith, ◌==◌, ==_refl, Bool-cases, if◌then◌else◌, true,
  subst, ◌<◌,
}
use li_nos.SkewHeap.{
  Heap, leaf, node, skew_heap_init, skew_heap_merge, skew_heap_insert, holds, take_out,
  skew_heap_remove,
}

abbrev pub count : ℕ → Heap → ℕ
count c leaf = 0
count c (node l x r) = (if c == x then 1 else 0) + count c l + count c r

pub count-holds : (b : ℕ) (t : Heap) → 0 < count b t → holds b t ≡ true
count-holds b leaf h = absurd (omega arith)
count-holds b (node l x r) h = ground (arith, count-holds b l, count-holds b r)

module _ (before : ℕ → ℕ → Bool) where
  -- A merge holds each entry as often as the two heaps together, whatever the comparison says.
  pub count-merge :
      (c : ℕ) (t u : Heap) → count c (skew_heap_merge before t u) ≡ count c t + count c u
  unfolding skew_heap_merge
  count-merge c leaf u = omega arith
  count-merge c (node l x r) leaf = omega arith
  count-merge c (node l x r) (node l' y r') = elim (Bool-cases (before x y)) [
    | inl e ↦ rw e (omega (arith, count-merge c r (node l' y r')))
    | inr e ↦ rw e (omega (arith, count-merge c (node l x r) r'))
  ]

  pub count-insert :
      (c b : ℕ) (t : Heap)
      → count c (skew_heap_insert before t b) ≡ count c t + (if c == b then 1 else 0)
  unfolding skew_heap_insert skew_heap_init
  count-insert c b t = omega (arith, count-merge c t (node leaf b leaf))

  pub take_out_absent : (t : Heap) (b : ℕ) → count b t ≡ 0 → take_out before t b ≡ t
  unfolding take_out
  take_out_absent leaf b h = refl
  take_out_absent (node l x r) b h = ground (arith, take_out_absent l b, take_out_absent r b)

  count-take_out :
      (c b : ℕ) (t : Heap)
      → count b t ≤ 1
      → count c (take_out before t b) + (if c == b then count b t else 0) ≡ count c t
  unfolding take_out
  count-take_out c b leaf h = ground arith
  count-take_out c b (node l x r) h = elim (Bool-cases (x == b)) [
    | inl e ↦ rw e (ground (arith, count-merge c l r))
    | inr e ↦ rw e (ground (arith, count-take_out c b l, count-take_out c b r))
  ]

  pub remove_present :
      (t : Heap) (b : ℕ) → holds b t ≡ true → skew_heap_remove before t b ≡ take_out before t b
  unfolding skew_heap_remove
  remove_present t b h = rw h refl

  -- Removing an entry that stands in the heap exactly once takes exactly that entry out, and keeps
  -- every other one as often as it was there.
  pub count-remove :
      (c b : ℕ) (t : Heap)
      → count b t ≡ 1
      → count c (skew_heap_remove before t b) + (if c == b then 1 else 0) ≡ count c t
  count-remove c b t h = rw (remove_present t b (count-holds b t (omega arith))) (
      subst (λ n. count c (take_out before t b) + (if c == b then n else 0) ≡ count c t) h
        (count-take_out c b t (omega arith)))

  -- Removing the root leaves the merge of its subtrees.
  pub remove-root :
      (l r : Heap) (x : ℕ) → skew_heap_remove before (node l x r) x ≡ skew_heap_merge before l r
  unfolding skew_heap_remove take_out
  remove-root l r x = rw (==_refl x) refl
