-- ===== src/SkewHeap/Pointers/Shape.antt =====
-- When the nodes of a store hold a tree, and what leaves that so.
use li_nos.Base.{ℕ, ◌≡◌, ◌≢◌, ◌+◌, ◌≤◌, ◌<◌, ◌∙◌, arith}
use li_nos.SkewHeap.{Heap, leaf, node}
use li_nos.SkewHeap.Items.{count}
use li_nos.SkewHeap.Pointers.{Nodes}

abbrev pub root : Heap → ℕ
root leaf = 0
root (node l x r) = x

-- The root of a subtree points back at `p`.
abbrev pub Hangs : Nodes → ℕ → Heap → Type 0
Hangs h p leaf = Unit
Hangs h p (node l x r) = h.parent x ≡ p

-- From its root on, the fields of the nodes spell out the tree.
abbrev pub Shape : Nodes → Heap → Type 0
Shape h leaf = Unit
Shape h (node l x r) =
    (x ≢ 0)
    × (h.left x ≡ root l)
    × (h.right x ≡ root r)
    × Hangs h x l
    × Hangs h x r
    × Shape h l
    × Shape h r

-- No entry stands in the tree twice.
abbrev pub Once : Heap → Type 0
Once t = (c : ℕ) → count c t ≤ 1

abbrev pub SameAt : Nodes → Nodes → ℕ → Type 0
SameAt g h c = (g.parent c ≡ h.parent c) × (g.left c ≡ h.left c) × (g.right c ≡ h.right c)

abbrev pub size : Heap → ℕ
size leaf = 0
size (node l x r) = size l + size r + 1

pub Hangs-frame :
    (g h : Nodes) (p : ℕ) (t : Heap)
    → Hangs h p t
    → (0 < count (root t) t → g.parent (root t) ≡ h.parent (root t))
    → Hangs g p t
Hangs-frame g h p leaf a s = tt
Hangs-frame g h p (node l x r) a s = s (ground arith) ∙ a

module _ (l r : Heap) (x : ℕ) (once : Once (node l x r)) where
  pub left_below : (c : ℕ) → 0 < count c l → (c ≢ x) × (count c r ≡ 0)
  left_below c m = let o = once c in (λ e. ground (arith, o), ground arith)

  pub right_below : (c : ℕ) → 0 < count c r → (c ≢ x) × (count c l ≡ 0)
  right_below c m = let o = once c in (λ e. ground (arith, o), ground arith)

  pub Once-left : Once l
  Once-left c = omega (arith, once c)

  pub Once-right : Once r
  Once-right c = omega (arith, once c)

-- A tree survives what leaves the fields of its nodes alone, but for the parent of its root.
pub Shape-frame :
    (g h : Nodes) (t : Heap)
    → Once t
    → Shape h t
    → ((c : ℕ) → 0 < count c t → (g.left c ≡ h.left c) × (g.right c ≡ h.right c))
    → ((c : ℕ) → 0 < count c t → c ≢ root t → g.parent c ≡ h.parent c)
    → Shape g t
Shape-frame g h leaf once s lr pa = tt
Shape-frame g h (node l x r) once s lr pa =
    let same = lr x (ground arith) in
    (
      s.0,
      same.0 ∙ s.1,
      same.1 ∙ s.2,
      Hangs-frame g h x l s.3 (λ m. pa (root l) (omega arith) (left_below l r x once (root l) m).0),
      Hangs-frame g h x r s.4
          (λ m. pa (root r) (omega arith) (right_below l r x once (root r) m).0),
      Shape-frame g h l (Once-left l r x once) s.5 (λ c m. lr c (omega arith))
          (λ c m ne. pa c (omega arith) (left_below l r x once c m).0),
      Shape-frame g h r (Once-right l r x once) s.6 (λ c m. lr c (omega arith))
          (λ c m ne. pa c (omega arith) (right_below l r x once c m).0),
    )
