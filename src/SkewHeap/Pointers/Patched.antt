-- ===== src/SkewHeap/Pointers/Patched.antt =====
-- A heap of libs/skew_heap.h in the store of nodes, in which a subtree is replaced.
use li_nos.Base.{ℕ, ◌≡◌, ◌≢◌, ◌<◌, ◌∙◌, sym, Bool, arith, ==_refl}
use li_nos.SkewHeap.{Heap, leaf, node}
use li_nos.SkewHeap.Items.{count}
use li_nos.SkewHeap.Pointers.{Nodes, replace}
use li_nos.SkewHeap.Pointers.Shape.{
  root, Hangs, Shape, Once, Hangs-frame, Shape-frame, left_below, right_below, Once-left,
  Once-right,
}

module _ (before : ℕ → ℕ → Bool) (p b : ℕ) (g : Nodes) where
  pub replace-lr :
      (rep c : ℕ)
      → c ≢ p
      → ((replace before p b rep g).left c ≡ g.left c)
        × ((replace before p b rep g).right c ≡ g.right c)
  unfolding replace
  replace-lr rep c n = (ground arith, ground arith)

  pub replace-left :
      (rep : ℕ)
      → p ≢ 0
      → g.left p ≡ b
      → ((replace before p b rep g).left p ≡ rep) × ((replace before p b rep g).right p ≡ g.right p)
  unfolding replace
  replace-left rep n e = (ground arith, ground arith)

  pub replace-right :
      (rep : ℕ)
      → p ≢ 0
      → g.left p ≢ b
      → ((replace before p b rep g).left p ≡ g.left p) × ((replace before p b rep g).right p ≡ rep)
  unfolding replace
  replace-right rep n e = (ground arith, ground arith)

  pub replace-below : (rep c : ℕ) → c ≢ rep → (replace before p b rep g).parent c ≡ g.parent c
  unfolding replace
  replace-below rep c n = ground arith

  pub replace-apart :
      (m : Heap) (c : ℕ) → count c m ≡ 0 → (replace before p b (root m) g).parent c ≡ g.parent c
  unfolding replace
  replace-apart leaf c n = ground arith
  replace-apart (node l x r) c n = ground arith

  pub Hangs-replace : (m : Heap) → Shape g m → Hangs (replace before p b (root m) g) p m
  unfolding replace
  Hangs-replace leaf s = tt
  Hangs-replace (node l x r) s = let n = s.0 in ground arith

-- The tree `t` under `p` has become `t'`: the field of `p` that led to it leads to the new one, and all
-- outside of the tree is as it was.
pub record Patched (p : ℕ) (t t' : Heap) (h g : Nodes) : Type 0 where
  pub shape : Shape g t'
  pub hangs : Hangs g p t'
  pub on_left : p ≢ 0 → h.left p ≡ root t → (g.left p ≡ root t') × (g.right p ≡ h.right p)
  pub on_right :
      p ≢ 0 → h.left p ≢ root t → h.right p ≡ root t → (g.left p ≡ h.left p) × (g.right p ≡ root t')
  pub parent : (c : ℕ) → count c t ≡ 0 → g.parent c ≡ h.parent c
  pub fields : (c : ℕ) → count c t ≡ 0 → c ≢ p → (g.left c ≡ h.left c) × (g.right c ≡ h.right c)

-- A tree from which `p` and the tree `t` are apart is as it was.
Patched-frame :
    (p : ℕ) (t t' u : Heap) (h g : Nodes)
    → Patched p t t' h g
    → Once u
    → ((c : ℕ) → 0 < count c u → (count c t ≡ 0) × (c ≢ p))
    → Shape h u
    → Shape g u
Patched-frame p t t' u h g d once apart s =
    Shape-frame g h u once s (λ c i. d.fields c (apart c i).0 (apart c i).1)
      (λ c i n. d.parent c (apart c i).0)

pub node-Patched-left :
    (p x : ℕ) (l l' r : Heap) (h g : Nodes)
    → Once (node l x r)
    → count p (node l x r) ≡ 0
    → Shape h (node l x r)
    → Hangs h p (node l x r)
    → Patched x l l' h g
    → Patched p (node l x r) (node l' x r) h g
node-Patched-left p x l l' r h g once out s hang d =
    let xl : count x l ≡ 0 = let o = once x in ground (arith, o) in
    let px : p ≢ x = λ e. ground arith in
    let pl : count p l ≡ 0 = ground arith in
    let slot = d.on_left s.0 s.1 in
    let below = right_below l r x once in
    record {
      shape = (
        s.0,
        slot.0,
        slot.1 ∙ s.2,
        d.hangs,
        Hangs-frame g h x r s.4 (λ i. d.parent (root r) (below (root r) i).1),
        d.shape,
        Patched-frame x l l' r h g d (Once-right l r x once) (λ c i. ((below c i).1, (below c i).0))
            s.6,
      );
      hangs = d.parent x xl ∙ hang;
      on_left = λ n e. let f = d.fields p pl px in (f.0 ∙ e, f.1);
      on_right = λ n m e. let f = d.fields p pl px in (f.0, f.1 ∙ e);
      parent = λ c i. d.parent c (ground arith);
      fields = λ c i n. d.fields c (ground arith) (λ e. ground arith);
    }

root_in : (t : Heap) (b : ℕ) → 0 < count b t → 0 < count (root t) t
root_in leaf b h = absurd (omega arith)
root_in (node l x r) b h = ground (arith, ==_refl x)

-- The roots of two subtrees are different, if the right one is there.
roots_apart :
    (x b : ℕ) (l r : Heap) (h : Nodes)
    → Once (node l x r)
    → Shape h r
    → 0 < count b r
    → root l ≢ root r
roots_apart x b l leaf h once s i e = omega (arith, i)
roots_apart x b leaf (node u y w) h once s i e = s.0 (sym e)
roots_apart x b (node u' z w') (node u y w) h once s i e =
    let o = once y in ground (arith, o, ==_refl y, ==_refl z)

pub node-Patched-right :
    (p x b : ℕ) (l r r' : Heap) (h g : Nodes)
    → Once (node l x r)
    → 0 < count b r
    → count p (node l x r) ≡ 0
    → Shape h (node l x r)
    → Hangs h p (node l x r)
    → Patched x r r' h g
    → Patched p (node l x r) (node l x r') h g
node-Patched-right p x b l r r' h g once i out s hang d =
    let xr : count x r ≡ 0 = let o = once x in ground (arith, o) in
    let px : p ≢ x = λ e. ground arith in
    let pr : count p r ≡ 0 = ground arith in
    let slot = d.on_right s.0 (λ e. roots_apart x b l r h once s.6 i (sym s.1 ∙ e)) s.2 in
    let below = left_below l r x once in
    record {
      shape = (
        s.0,
        slot.0 ∙ s.1,
        slot.1,
        Hangs-frame g h x l s.3 (λ i. d.parent (root l) (below (root l) i).1),
        d.hangs,
        Patched-frame x r r' l h g d (Once-left l r x once) (λ c i. ((below c i).1, (below c i).0))
            s.5,
        d.shape,
      );
      hangs = d.parent x xr ∙ hang;
      on_left = λ n e. let f = d.fields p pr px in (f.0 ∙ e, f.1);
      on_right = λ n m e. let f = d.fields p pr px in (f.0, f.1 ∙ e);
      parent = λ c i. d.parent c (ground arith);
      fields = λ c i n. d.fields c (ground arith) (λ e. ground arith);
    }
