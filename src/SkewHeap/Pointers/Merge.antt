-- ===== src/SkewHeap/Pointers/Merge.antt =====
-- skew_heap_merge and skew_heap_insert of libs/skew_heap.h, on the store of nodes, against the merge of trees.
use li_nos.Base.{
  ℕ, zero, suc, ◌≡◌, ◌≢◌, ◌+◌, ◌≤◌, ◌<◌, ◌∙◌, refl, inl, inr, Bool, arith, some, Bool-cases, ==_ne,
}
use li_nos.SkewHeap
use li_nos.SkewHeap.{Heap, leaf, node}
use li_nos.SkewHeap.Items.{count, count-merge}
use li_nos.SkewHeap.Pointers.{Nodes, adopt, skew_heap_init, skew_heap_merge, skew_heap_insert}
use li_nos.SkewHeap.Pointers.Shape.{
  root, Hangs, Shape, Once, SameAt, size, Hangs-frame, Shape-frame, left_below, right_below,
  Once-left, Once-right,
}

-- What a merge has done when it returns: the nodes spell out the merged tree `m`, and it has written
-- neither to other nodes nor to the parent of the root.
abbrev pub Merged : Nodes → Heap → Nodes → Type 0
Merged h m g =
    Shape g m × (g.parent (root m) ≡ h.parent (root m)) × ((c : ℕ) → count c m ≡ 0 → SameAt g h c)

adopt-lr :
    (x l r : ℕ) (g : Nodes) (c : ℕ)
    → c ≢ x
    → ((adopt x l r g).left c ≡ g.left c) × ((adopt x l r g).right c ≡ g.right c)
unfolding adopt
adopt-lr x l r g c n = (ground arith, ground arith)

adopt_self : (x l r : ℕ) (g : Nodes) → ((adopt x l r g).left x ≡ l) × ((adopt x l r g).right x ≡ r)
unfolding adopt
adopt_self x l r g = (ground arith, ground arith)

adopt-parent :
    (x r : ℕ) (g : Nodes) (m : Heap) (c : ℕ)
    → count c m ≡ 0
    → (adopt x (root m) r g).parent c ≡ g.parent c
unfolding adopt
adopt-parent x r g leaf c n = refl
adopt-parent x r g (node a y b) c n = ground arith

Hangs-adopt : (x r : ℕ) (g : Nodes) (m : Heap) → Shape g m → Hangs (adopt x (root m) r g) x m
unfolding adopt
Hangs-adopt x r g leaf s = tt
Hangs-adopt x r g (node a y b) s = let ne = s.0 in ground arith

adopt-below :
    (x r : ℕ) (g : Nodes) (m : Heap) (c : ℕ)
    → c ≢ root m
    → (adopt x (root m) r g).parent c ≡ g.parent c
unfolding adopt
adopt-below x r g m c n = ground arith

-- `adopt` hangs the merged tree `m` and the other subtree `q` under the root `x`.
Merged-adopt :
    (h g : Nodes) (m q : Heap) (x : ℕ)
    → Once (node m x q)
    → x ≢ 0
    → Merged h m g
    → Shape h q
    → Hangs h x q
    → Merged h (node m x q) (adopt x (root m) (root q) g)
Merged-adopt h g m q x once ne done sq hq =
    let g' = adopt x (root m) (root q) g in
    let lr = adopt-lr x (root m) (root q) g in
    let pa = adopt-parent x (root q) g m in
    let same = done.2 in
    let in_q = right_below m q x once in
    let ox = once x in
    let xm : count x m ≡ 0 = ground (arith, ox) in
    let self = adopt_self x (root m) (root q) g in
    (
      (
        ne,
        self.0,
        self.1,
        Hangs-adopt x (root q) g m done.0,
        Hangs-frame g' h x q hq
            (λ i. pa (root q) (in_q (root q) i).1 ∙ (same (root q) (in_q (root q) i).1).0),
        Shape-frame g' g m (Once-left m q x once) done.0 (λ c i. lr c (left_below m q x once c i).0)
            (λ c i n. adopt-below x (root q) g m c n),
        Shape-frame g' h q (Once-right m q x once) sq
            (λ c i.
              let e = lr c (in_q c i).0 in let f = same c (in_q c i).1 in (e.0 ∙ f.1, e.1 ∙ f.2))
            (λ c i n. pa c (in_q c i).1 ∙ (same c (in_q c i).1).0),
      ),
      pa x xm ∙ (same x xm).0,
      λ c out.
          let cm : count c m ≡ 0 = omega arith in
          let cx : c ≢ x = λ e. ground arith in
          let e = lr c cx in let f = same c cm in (pa c cm ∙ f.0, e.0 ∙ f.1, e.1 ∙ f.2),
    )

module _ (before : ℕ → ℕ → Bool) where
  -- Given as much fuel as there are nodes, and one more, `skew_heap_merge` of two trees without a
  -- common node returns. Its result is the root of the merged tree, with every `left`, `right` and
  -- `parent` below the root as that tree demands; other nodes and the root's `parent` keep theirs.
  pub merge_refines :
      (k : ℕ) (t u : Heap) (h : Nodes)
      → Shape h t
      → Shape h u
      → ((c : ℕ) → count c t + count c u ≤ 1)
      → size t + size u < k
      → let m = SkewHeap.skew_heap_merge before t u in
        (g : Nodes) × (skew_heap_merge before k (root t) (root u) h ≡ some (root m, g))
        × Merged h m g
  unfolding skew_heap_merge SkewHeap.skew_heap_merge
  merge_refines zero t u h s s' once fuel = absurd (omega arith)
  merge_refines (suc k) leaf u h s s' once fuel = (h, refl, (s', refl, λ c out. (refl, refl, refl)))
  merge_refines (suc k) (node l x r) leaf h s s' once fuel =
      (h, rw (==_ne x 0 s.0), (s, refl, λ c out. (refl, refl, refl)))
  merge_refines (suc k) (node l x r) (node l' y r') h s s' once fuel =
      rw (==_ne x 0 s.0, ==_ne y 0 s'.0)
        (elim (Bool-cases (before x y)) [
          | inl e ↦
              let u = node l' y r' in
              let (g, run, done) =
                merge_refines k r u h s.6 s' (λ c. omega (arith, once c)) (omega arith) in
              let m = SkewHeap.skew_heap_merge before r u in
              rw e (
                adopt x (root m) (root l) g,
                rw (s.2, run, s.1),
                Merged-adopt h g m l x (λ c. omega (arith, once c, count-merge before c r u)) s.0
                    done s.5 s.3,
              )
          | inr e ↦
              let t = node l x r in
              let (g, run, done) =
                merge_refines k t r' h s s'.6 (λ c. omega (arith, once c)) (omega arith) in
              let m = SkewHeap.skew_heap_merge before t r' in
              rw e (
                adopt y (root m) (root l') g,
                rw (s'.2, run, s'.1),
                Merged-adopt h g m l' y (λ c. omega (arith, once c, count-merge before c t r')) s'.0
                    done s'.5 s'.3,
              )
        ])

  init-Shape : (b : ℕ) (h : Nodes) → b ≢ 0 → Shape (skew_heap_init b h) (node leaf b leaf)
  unfolding skew_heap_init
  init-Shape b h ne = (ne, ground arith, ground arith, tt, tt, tt, tt)

  init-frame : (b : ℕ) (h : Nodes) (c : ℕ) → c ≢ b → SameAt (skew_heap_init b h) h c
  unfolding skew_heap_init
  init-frame b h c ne = (ground arith, ground arith, ground arith)

  init-parent : (b : ℕ) (h : Nodes) → (skew_heap_init b h).parent b ≡ 0
  unfolding skew_heap_init
  init-parent b h = ground arith

  -- The root of a merge is one of the two roots, so it hangs where they hang.
  pub Hangs-merge :
      (g h : Nodes) (p : ℕ) (t u : Heap)
      → Hangs h p t
      → Hangs h p u
      → let m = SkewHeap.skew_heap_merge before t u in
        g.parent (root m) ≡ h.parent (root m) → Hangs g p m
  unfolding SkewHeap.skew_heap_merge
  Hangs-merge g h p leaf leaf a b same = tt
  Hangs-merge g h p leaf (node l' y r') a b same = same ∙ b
  Hangs-merge g h p (node l x r) leaf a b same = same ∙ a
  Hangs-merge g h p (node l x r) (node l' y r') a b same = elim (Bool-cases (before x y)) [
    | inl e ↦ rw e ((rw e at same) ∙ a)
    | inr e ↦ rw e ((rw e at same) ∙ b)
  ]

  Once-insert :
      (t : Heap) (b : ℕ)
      → Once t
      → count b t ≡ 0
      → (c : ℕ) → count c t + count c (node leaf b leaf) ≤ 1
  Once-insert t b once out c = let o = once c in ground arith

  -- `skew_heap_insert` of a node that is not in the heap `t` (whose root has no parent) returns the
  -- root of the heap that the tree model gives, laid out in the store, again without a parent.
  pub insert_refines :
      (k : ℕ) (t : Heap) (b : ℕ) (h : Nodes)
      → Shape h t
      → Hangs h 0 t
      → Once t
      → b ≢ 0
      → count b t ≡ 0
      → size t + 1 < k
      → let m = SkewHeap.skew_heap_insert before t b in
        (g : Nodes) × (skew_heap_insert before k (root t) b h ≡ some (root m, g))
        × Shape g m
        × Hangs g 0 m
  unfolding skew_heap_insert SkewHeap.skew_heap_insert SkewHeap.skew_heap_init
  insert_refines k t b h s orphan once ne out fuel =
      let h' = skew_heap_init b h in
      let u = node leaf b leaf in
      let away = λ (c : ℕ) (i : 0 < count c t). init-frame b h c (absent c i) in
      let s' =
        Shape-frame h' h t once s (λ c i. ((away c i).1, (away c i).2)) (λ c i n. (away c i).0) in
      let (g, run, done) =
        merge_refines k t u h' s' (init-Shape b h ne) (Once-insert t b once out) (omega arith) in
      (
        g,
        run,
        done.0,
        Hangs-merge g h' 0 t u (Hangs-frame h' h 0 t orphan (λ i. (away (root t) i).0))
            (init-parent b h) done.1,
      )
    where
      absent : (c : ℕ) → 0 < count c t → c ≢ b
      absent c i e = ground arith
