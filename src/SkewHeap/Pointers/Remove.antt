-- ===== src/SkewHeap/Pointers/Remove.antt =====
-- skew_heap_remove of libs/skew_heap.h, on the store of nodes, against the removal from trees.
use li_nos.Base.{
  ℕ, ◌≡◌, ◌≢◌, ◌+◌, ◌<◌, ◌∙◌, ◌⊎◌, refl, inl, inr, sym, ap, subst, Bool, arith, some, Bool-cases,
  ==_ne, ==_iff, ◌==◌, ltb, if◌then◌else◌,
}
use li_nos.SkewHeap
use li_nos.SkewHeap.{Heap, leaf, node, take_out}
use li_nos.SkewHeap.Items.{
  count, count-merge, count-holds, take_out_absent, remove_present, count-remove,
}
use li_nos.SkewHeap.Pointers.{Nodes, replace, skew_heap_merge, skew_heap_remove}
use li_nos.SkewHeap.Pointers.Shape.{
  root, Hangs, Shape, Once, SameAt, size, Shape-frame, Once-left, Once-right,
}
use li_nos.SkewHeap.Pointers.Merge.{merge_refines}
use li_nos.SkewHeap.Pointers.Patched.{
  replace-lr, replace-left, replace-right, replace-below, replace-apart, Hangs-replace, Patched,
  node-Patched-left, node-Patched-right,
}

module _ (before : ℕ → ℕ → Bool) where
  -- The run of skew_heap_remove on `b` in a tree under `p`: what the merge of its subtrees returns, and the
  -- store in the end.
  abbrev Taken : (k p b : ℕ) (t t' : Heap) → Nodes → Type 0
  Taken k p b t t' h =
      (rep : ℕ) × (g : Nodes) × (skew_heap_merge before k (h.left b) (h.right b) h ≡ some (rep, g))
      × (((root t ≡ b) × (h.parent b ≡ p) × (root t' ≡ rep))
          ⊎ ((h.parent b ≢ 0) × (root t' ≡ root t)))
      × Patched p t t' h (replace before (h.parent b) b rep g)

  root-Taken :
      (k p x : ℕ) (l r : Heap) (h : Nodes)
      → Shape h (node l x r)
      → Hangs h p (node l x r)
      → Once (node l x r)
      → count p (node l x r) ≡ 0
      → size (node l x r) < k
      → Taken k p x (node l x r) (SkewHeap.skew_heap_merge before l r) h
  root-Taken k p x l r h s hang once out fuel =
      let m = SkewHeap.skew_heap_merge before l r in
      let (g, run, (shape, top, same)) =
        merge_refines before k l r h s.5 s.6 (λ c. omega (arith, once c)) (omega arith) in
      let inside : (c : ℕ) → count c (node l x r) ≡ 0 → count c m ≡ 0 =
        λ c i. omega (arith, i, count-merge before c l r) in
      let om : Once m = λ c. omega (arith, once c, count-merge before c l r) in
      let away : (c : ℕ) → 0 < count c m → c ≢ p = λ c i e.
        let z = inside p out in let y = subst (λ q. 0 < count q m) e i in omega (arith, z, y) in
      let G = replace before p x (root m) g in
      let lr = replace-lr before p x g (root m) in
      (
        root m,
        g,
        rw (s.1, s.2) run,
        inl (refl, hang, refl),
        subst (λ y. Patched p (node l x r) m h (replace before y x (root m) g)) (sym hang)
            (record {
              shape =
                  Shape-frame G g m om shape (λ c i. lr c (away c i))
                    (λ c i n. replace-below before p x g (root m) c n);
              hangs = Hangs-replace before p x g m shape;
              on_left = λ n e.
                  let f = same p (inside p out) in
                  let d = replace-left before p x g (root m) n (f.1 ∙ e) in (d.0, d.1 ∙ f.2);
              on_right = λ n e i.
                  let f = same p (inside p out) in
                  let d = replace-right before p x g (root m) n (λ j. e (sym f.1 ∙ j)) in
                  (d.0 ∙ f.1, d.1);
              parent = λ c i. replace-apart before p x g m c (inside c i) ∙ (same c (inside c i)).0;
              fields = λ c i n. let f = same c (inside c i) in ((lr c n).0 ∙ f.1, (lr c n).1 ∙ f.2);
            }),
      )

  -- The node that is taken out of a subtree has a parent.
  has_parent :
      (b x : ℕ) (h : Nodes) (t t' : Heap) (rep : ℕ)
      → x ≢ 0
      → ((root t ≡ b) × (h.parent b ≡ x) × (root t' ≡ rep))
        ⊎ ((h.parent b ≢ 0) × (root t' ≡ root t))
      → h.parent b ≢ 0
  has_parent b x h t t' rep n (inl (e, f, g)) i = n (sym f ∙ i)
  has_parent b x h t t' rep n (inr (e, f)) i = e i

  take_out-Taken :
      (k p b : ℕ) (t : Heap) (h : Nodes)
      → Shape h t
      → Hangs h p t
      → Once t
      → count b t ≡ 1
      → count p t ≡ 0
      → size t < k
      → Taken k p b t (take_out before t b) h
  unfolding take_out
  take_out-Taken k p b leaf h s hang once i out fuel = absurd (omega (arith, i))
  take_out-Taken k p b (node l x r) h s hang once i out fuel = elim (Bool-cases (x == b)) [
    | inl e ↦ rw e (
        subst (λ y. Taken k p y (node l x r) (SkewHeap.skew_heap_merge before l r) h)
          ((==_iff x b).0 e) (root-Taken k p x l r h s hang once out fuel))
    | inr e ↦ elim (Bool-cases (ltb 0 (count b l))) [
      | inl f ↦
          let o = once b in
          let ox = once x in
          let (rep, g, run, back, d) =
            take_out-Taken k x b l h s.5 s.3 (Once-left l r x once) (ground (arith, o))
              (ground (arith, ox)) (omega arith) in
          let absent : count b r ≡ 0 = ground (arith, o) in
          rw (e, take_out_absent before r b absent)
            (
              rep,
              g,
              run,
              inr (has_parent b x h l (take_out before l b) rep s.0 back, refl),
              node-Patched-left p x l (take_out before l b) r h _ once out s hang d,
            )
      | inr f ↦
          let o = once b in
          let ox = once x in
          let here : count b r ≡ 1 = ground arith in
          let (rep, g, run, back, d) =
            take_out-Taken k x b r h s.6 s.4 (Once-right l r x once) here (ground (arith, ox))
              (omega arith) in
          let absent : count b l ≡ 0 = ground arith in
          rw (e, take_out_absent before l b absent)
            (
              rep,
              g,
              run,
              inr (has_parent b x h r (take_out before r b) rep s.0 back, refl),
              node-Patched-right p x b l r (take_out before r b) h _ once (omega (arith, here)) out
                  s hang d,
            )
    ]
  ]

  no_null : (h : Nodes) (t : Heap) → Shape h t → count 0 t ≡ 0
  no_null h leaf s = refl
  no_null h (node l x r) s = let n = s.0 in ground (arith, no_null h l s.5, no_null h r s.6)

  runs :
      (k a b rep : ℕ) (h g : Nodes)
      → skew_heap_merge before k (h.left b) (h.right b) h ≡ some (rep, g)
      → skew_heap_remove before k a b h
        ≡ some (if h.parent b == 0 then rep else a, replace before (h.parent b) b rep g)
  unfolding skew_heap_remove
  runs k a b rep h g e = rw e refl

  returned :
      (b rep : ℕ) (t t' : Heap) (h : Nodes)
      → ((root t ≡ b) × (h.parent b ≡ 0) × (root t' ≡ rep))
        ⊎ ((h.parent b ≢ 0) × (root t' ≡ root t))
      → (if h.parent b == 0 then rep else root t) ≡ root t'
  returned b rep t t' h (inl (e, f, g)) = rw f (sym g)
  returned b rep t t' h (inr (e, f)) = rw (==_ne (h.parent b) 0 e) (sym f)

  -- With one unit of fuel more than the heap `t` has nodes, `skew_heap_remove` of a node that stands in
  -- it exactly once, in a store that holds `t` with a root without a parent, returns the root of the
  -- heap that the tree model gives, laid out in the store, again without a parent. That heap holds every
  -- other entry as often as `t`, and the removed one no more; the fields of the nodes that are not in
  -- `t` stay.
  pub remove_refines :
      (k b : ℕ) (t : Heap) (h : Nodes)
      → Shape h t
      → Hangs h 0 t
      → Once t
      → count b t ≡ 1
      → size t < k
      → let m = SkewHeap.skew_heap_remove before t b in
        (g : Nodes) × (skew_heap_remove before k (root t) b h ≡ some (root m, g))
        × Shape g m
        × Hangs g 0 m
        × ((c : ℕ) → count c m + (if c == b then 1 else 0) ≡ count c t)
        × ((c : ℕ) → count c t ≡ 0 → c ≢ 0 → SameAt g h c)
  remove_refines k b t h s orphan once i fuel =
      let (rep, g, run, back, d) = take_out-Taken k 0 b t h s orphan once i (no_null h t s) fuel in
      let counts = λ (c : ℕ). count-remove before c b t i in
      let m = remove_present before t b (count-holds b t (omega (arith, i))) in
      rw (remove_present before t b (count-holds b t (omega (arith, i)))) (
        replace before (h.parent b) b rep g,
        runs k (root t) b rep h g run
            ∙ ap (λ y. some (y, replace before (h.parent b) b rep g))
                (returned b rep t (take_out before t b) h back),
        d.shape,
        d.hangs,
        (λ c. rw m at counts c),
        λ c j n. let f = d.fields c j n in (d.parent c j, f.0, f.1),
      )
