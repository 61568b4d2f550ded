-- ===== src/FirstFit/Taken.antt =====
-- Taking pages out of the first block that fits, in kern/mm/firstfit_pmm.c.
use li_nos.Base.{
  ℕ, suc, ◌+◌, ◌-◌, ◌≤◌, ◌<◌, true, false, ◌||◌, List, [], ◌∷◌, ltb, leb, ◌==◌, ◌≡◌, ◌∙◌, arith, ap,
  refl, sym, subst, some, inl, inr, Bool-cases, erase, ==_refl, ==_ne, if◌then◌else◌,
}
use mathlib.Core.Option.{some-injective}
use li_nos.Pages.{Pages, FreeArea, set_block, clear_head}
use li_nos.FirstFit.{find_fit, insert_after, split_block, take_block}
use li_nos.FirstFit.Blocks.{
  Sorted, past, in_range, is_free, sum_free, Agree, Sorted-Agree, is_free-Agree, sum_free-Agree,
  is_free_before, Sorted-from,
}

-- The pages and the list after a block was taken.
abbrev pub left_pages : (p n : ℕ) → Pages → Pages
left_pages p n t =
    clear_head p (if ltb n (t p).property then set_block (p + n) ((t p).property - n) t else t)

abbrev pub left_list : (p n : ℕ) → Pages → List ℕ → List ℕ
left_list p n t ps = erase p (if ltb n (t p).property then insert_after p (p + n) ps else ps)

pub take_block-fields :
    (p n : ℕ) (s : FreeArea)
    → ((take_block p n s).pages ≡ left_pages p n s.pages)
      × ((take_block p n s).free_list ≡ left_list p n s.pages s.free_list)
      × ((take_block p n s).nr_free ≡ s.nr_free - n)
unfolding take_block split_block insert_after
take_block-fields p n s = elim (Bool-cases (ltb n (s.pages p).property)) [
  | inl e ↦ rw e (refl, refl, refl)
  | inr e ↦ rw e (refl, refl, refl)
]

-- A page other than the two whose descriptors are written.
pub left_other :
    (p n q : ℕ) (t : Pages) → (q == p) ≡ false → (q == p + n) ≡ false → left_pages p n t q ≡ t q
left_other p n q t a b = elim (Bool-cases (ltb n (t p).property)) [
  | inl e ↦ rw e (ground arith)
  | inr e ↦ rw e (ground arith)
]

left_list_later :
    (p n x : ℕ) (t : Pages) (ps : List ℕ)
    → (p == x) ≡ false
    → left_list p n t (x ∷ ps) ≡ x ∷ left_list p n t ps
unfolding insert_after
left_list_later p n x t ps a = elim (Bool-cases (ltb n (t p).property)) [
  | inl e ↦ rw e (ground arith)
  | inr e ↦ rw e (ground arith)
]

left_list_here :
    (p n : ℕ) (t : Pages) (ps : List ℕ)
    → left_list p n t (p ∷ ps) ≡ (if ltb n (t p).property then (p + n) ∷ ps else ps)
unfolding insert_after
left_list_here p n t ps = elim (Bool-cases (ltb n (t p).property)) [
  | inl e ↦ rw e (ground (arith, ==_refl p))
  | inr e ↦ rw e (ground (arith, ==_refl p))
]

-- The descriptor of the rest of a block that was split.
pub left_rest :
    (p n : ℕ) (t : Pages)
    → 0 < n
    → n < (t p).property
    → left_pages p n t (p + n) ≡ record (t (p + n)) { property = (t p).property - n; head = true }
left_rest p n t z l =
    rw (ltb-true n (t p).property l) (ground (arith, ==_refl (p + n), ==_ne (p + n) p))
  where
    ltb-true : (a b : ℕ) → a < b → ltb a b ≡ true
    ltb-true a b h = ground arith

left-Agree : (p n : ℕ) (t : Pages) → n ≤ (t p).property → Agree (past t p) t (left_pages p n t)
left-Agree p n t l q h =
    left_other p n q t (ground (arith, ==_ne q p)) (ground (arith, ==_ne q (p + n)))

-- What taking `n` pages at `p` does to the blocks from `lo` on: the pages `t` with the list `ps`
-- become `u` with `us`.
abbrev pub Taken : (lo p n : ℕ) (t : Pages) (ps : List ℕ) (u : Pages) (us : List ℕ) → Type 0
Taken lo p n t ps u us =
    (lo ≤ p)
    × Sorted u lo us
    × (sum_free u us + n ≡ sum_free t ps)
    × ((q : ℕ) → is_free t ps q ≡ (is_free u us q || in_range p n q))
    × ((q : ℕ) → in_range p n q ≡ true → is_free u us q ≡ false)

split-Taken :
    (lo p n : ℕ) (t u : Pages) (ps : List ℕ)
    → Sorted t lo (p ∷ ps)
    → 0 < n
    → n < (t p).property
    → (u (p + n)).head ≡ true
    → (u (p + n)).property + n ≡ (t p).property
    → Agree (past t p) t u
    → Taken lo p n t (p ∷ ps) u ((p + n) ∷ ps)
split-Taken lo p n t u ps (a, m, z, s) zn l h d f =
    let s' = Sorted-Agree t u (past t p) ps f s in
    let e : (p + n) + (u (p + n)).property ≡ p + (t p).property = omega arith in
    (
      a,
      (omega arith, h, omega arith, subst (λ k. Sorted u (suc k) ps) (sym e) s'),
      omega (arith, sum_free-Agree t u (past t p) ps f s),
      (λ q. ground (arith, is_free-Agree t u (past t p) ps f s q)),
      λ q r. ground (arith, is_free_before u (past t p) ps q s'),
    )

whole-Taken :
    (lo p n : ℕ) (t u : Pages) (ps : List ℕ)
    → Sorted t lo (p ∷ ps)
    → n ≡ (t p).property
    → Agree (past t p) t u
    → Taken lo p n t (p ∷ ps) u ps
whole-Taken lo p n t u ps (a, m, z, s) d f =
    let s' = Sorted-Agree t u (past t p) ps f s in
    (
      a,
      Sorted-from u (past t p) lo ps (omega arith) s',
      omega (arith, sum_free-Agree t u (past t p) ps f s),
      (λ q. ground (arith, is_free-Agree t u (past t p) ps f s q)),
      λ q r. ground (arith, is_free_before u (past t p) ps q s'),
    )

later-Taken :
    (lo p n x : ℕ) (t u : Pages) (ps us : List ℕ)
    → Sorted t lo (x ∷ ps)
    → Taken (past t x) p n t ps u us
    → u x ≡ t x
    → Taken lo p n t (x ∷ ps) u (x ∷ us)
later-Taken lo p n x t u ps us (a, m, z, s) (b, s', c, f, g) e =
    let d = ap (λ y. y.property) e in
    let h = ap (λ y. y.head) e in
    (
      omega arith,
      (a, h ∙ m, omega arith, subst (λ k. Sorted u (suc (x + k)) us) (sym d) s'),
      omega arith,
      (λ q. ground (arith, f q)),
      λ q r. ground (arith, g q r),
    )

here-Taken :
    (n p lo : ℕ) (t : Pages) (ps : List ℕ)
    → Sorted t lo (p ∷ ps)
    → 0 < n
    → n ≤ (t p).property
    → Taken lo p n t (p ∷ ps) (left_pages p n t) (left_list p n t (p ∷ ps))
here-Taken n p lo t ps s z l = elim (Bool-cases (ltb n (t p).property)) [
  | inl e ↦
      let q : n < (t p).property = ground arith in
      let r = left_rest p n t z q in
      let w : (if ltb n (t p).property then (p + n) ∷ ps else ps) ≡ (p + n) ∷ ps = cc in
      subst (Taken lo p n t (p ∷ ps) (left_pages p n t)) (sym (left_list_here p n t ps ∙ w)) (
        split-Taken lo p n t (left_pages p n t) ps s z q (ap (λ y. y.head) r)
          (omega (arith, ap (λ y. y.property) r, q)) (left-Agree p n t l))
  | inr e ↦
      let w : (if ltb n (t p).property then (p + n) ∷ ps else ps) ≡ ps = cc in
      subst (Taken lo p n t (p ∷ ps) (left_pages p n t)) (sym (left_list_here p n t ps ∙ w))
        (whole-Taken lo p n t (left_pages p n t) ps s (ground arith) (left-Agree p n t l))
]

-- A first fit exists in the rest of the list when the first block is too small.
pub find_fit_later :
    (n p x : ℕ) (t : Pages) (ps : List ℕ)
    → leb n (t x).property ≡ false
    → find_fit n t (x ∷ ps) ≡ some p
    → find_fit n t ps ≡ some p
unfolding find_fit
find_fit_later n p x t ps l e = cc

pub find_fit_here :
    (n p x : ℕ) (t : Pages) (ps : List ℕ)
    → leb n (t x).property ≡ true
    → find_fit n t (x ∷ ps) ≡ some p
    → x ≡ p
unfolding find_fit
find_fit_here n p x t ps l e = let r : some x ≡ some p = cc in some-injective _ _ r

pub find_fit-Taken :
    (n p lo : ℕ) (t : Pages) (ps : List ℕ)
    → Sorted t lo ps
    → 0 < n
    → find_fit n t ps ≡ some p
    → Taken lo p n t ps (left_pages p n t) (left_list p n t ps)
unfolding find_fit
find_fit-Taken n p lo t [] s z e = cc
find_fit-Taken n p lo t (x ∷ ps) s z e = elim (Bool-cases (leb n (t x).property)) [
  | inl l ↦
      subst (λ y. Taken lo y n t (x ∷ ps) (left_pages y n t) (left_list y n t (x ∷ ps)))
        (find_fit_here n p x t ps l e) (here-Taken n x lo t ps s z (ground arith))
  | inr l ↦
      let r = find_fit-Taken n p (past t x) t ps s.3 z (find_fit_later n p x t ps l e) in
      subst (Taken lo p n t (x ∷ ps) (left_pages p n t))
        (sym (left_list_later p n x t ps (ground (arith, r.0))))
        (later-Taken lo p n x t (left_pages p n t) ps (left_list p n t ps) s r
          (left_other p n x t (ground (arith, r.0)) (ground (arith, r.0))))
]
