-- ===== src/BestFit/Alloc.antt =====
-- best_alloc_pages of kern/mm/bestfit_pmm.c takes the smallest block that is large enough.
use li_nos.Base.{
  ℕ, ◌≤◌, ◌<◌, true, false, ◌&&◌, List, [], ◌∷◌, ltb, leb, ◌==◌, ◌≡◌, arith, ap, refl, sym, subst,
  inl, inr, ◌⊎◌, Bool-cases, Option-cases, Option, some, none, has, ==_iff,
}
use mathlib.Core.Option.{some-injective}
use li_nos.Pages.{Pages, FreeArea}
use li_nos.BestFit.{is_better, find_best, take_best, allocate_best, best_alloc_pages}
use li_nos.FirstFit.Alloc.{has-sum_free}
use li_nos.BestFit.Takes.{IsApart, Takes, take_best-Takes}

-- The block found so far is large enough.
abbrev Suits : ℕ → Pages → Option ℕ → Type 0
Suits n t none = Unit
Suits n t (some b) = n ≤ (t b).property

abbrev AtMost : Pages → ℕ → Option ℕ → Type 0
AtMost t p none = Unit
AtMost t p (some b) = (t p).property ≤ (t b).property

abbrev Best : ℕ → Pages → Option ℕ → List ℕ → ℕ → Type 0
Best n t b ps p =
    (n ≤ (t p).property)
    × ((b ≡ some p) ⊎ (has p ps ≡ true))
    × ((q : ℕ) → has q ps ≡ true → n ≤ (t q).property → (t p).property ≤ (t q).property)
    × AtMost t p b

AtMost-self : (t : Pages) (b : Option ℕ) (p : ℕ) → b ≡ some p → AtMost t p b
AtMost-self t none p e = tt
AtMost-self t (some b) p e =
    subst (λ y. (t p).property ≤ (t y).property) (sym (some-injective _ _ e)) (omega arith)

Suits-self :
    (n : ℕ) (t : Pages) (b : Option ℕ) (p : ℕ) → b ≡ some p → Suits n t b → n ≤ (t p).property
Suits-self n t none p e s = cc
Suits-self n t (some b) p e s = subst (λ y. n ≤ (t y).property) (some-injective _ _ e) s

better-AtMost :
    (t : Pages) (p x : ℕ) (b : Option ℕ)
    → is_better t x b ≡ true
    → (t p).property ≤ (t x).property
    → AtMost t p b
unfolding is_better
better-AtMost t p x none e l = tt
better-AtMost t p x (some b) e l = ground arith

worse-AtMost :
    (n : ℕ) (t : Pages) (p x : ℕ) (b : Option ℕ)
    → (leb n (t x).property && is_better t x b) ≡ false
    → n ≤ (t x).property
    → AtMost t p b
    → (t p).property ≤ (t x).property
unfolding is_better
worse-AtMost n t p x none e l a = ground arith
worse-AtMost n t p x (some b) e l a = ground arith

-- The first block of a list is the one, or it stands in the rest.
first_or_rest :
    (n : ℕ) (t : Pages) (p x q : ℕ) (ps : List ℕ)
    → (t p).property ≤ (t x).property
    → ((y : ℕ) → has y ps ≡ true → n ≤ (t y).property → (t p).property ≤ (t y).property)
    → has q (x ∷ ps) ≡ true
    → n ≤ (t q).property
    → (t p).property ≤ (t q).property
first_or_rest n t p x q ps l f h k = elim (Bool-cases (q == x)) [
  | inl e ↦ subst (λ y. (t p).property ≤ (t y).property) (sym ((==_iff q x).0 e)) l
  | inr e ↦ f q (ground arith) k
]

find_best-Best :
    (n p : ℕ) (t : Pages) (b : Option ℕ) (ps : List ℕ)
    → Suits n t b
    → find_best n t b ps ≡ some p
    → Best n t b ps p
unfolding find_best
find_best-Best n p t b [] s e = (Suits-self n t b p e s, inl e, (λ q h l. cc), AtMost-self t b p e)
find_best-Best n p t b (x ∷ ps) s e = elim (Bool-cases (leb n (t x).property && is_better t x b)) [
  | inl c ↦
      let large : n ≤ (t x).property = ground arith in
      let next : find_best n t (some x) ps ≡ some p = cc in
      let (l, w, f, a) = find_best-Best n p t (some x) ps large next in
      (
        l,
        inr (found_in w),
        (λ q h k. first_or_rest n t p x q ps a f h k),
        better-AtMost t p x b (ground arith) a,
      )
  | inr c ↦
      let next : find_best n t b ps ≡ some p = cc in
      let (l, w, f, a) = find_best-Best n p t b ps s next in
      (
        l,
        elim w [ inl i ↦ inl i | inr i ↦ inr (ground arith) ],
        (λ q h k. elim (Bool-cases (q == x)) [
          | inl i ↦
              let j = (==_iff q x).0 i in
              subst (λ y. (t p).property ≤ (t y).property) (sym j)
                (worse-AtMost n t p x b c (subst (λ y. n ≤ (t y).property) j k) a)
          | inr i ↦ f q (ground arith) k
        ]),
        a,
      )
]
  where
    found_in : (some x ≡ some p) ⊎ (has p ps ≡ true) → has p (x ∷ ps) ≡ true
    found_in (inl i) = let j = (==_iff p x).1 (sym (some-injective _ _ i)) in ground arith
    found_in (inr i) = ground arith

none_too_small :
    (n : ℕ) (t : Pages) (x : ℕ) (b : Option ℕ)
    → (leb n (t x).property && is_better t x b) ≡ false
    → b ≡ none
    → (t x).property < n
unfolding is_better
none_too_small n t x none c e = ground arith
none_too_small n t x (some b) c e = cc

find_best-none :
    (n : ℕ) (t : Pages) (b : Option ℕ) (ps : List ℕ)
    → find_best n t b ps ≡ none
    → (b ≡ none) × ((q : ℕ) → has q ps ≡ true → (t q).property < n)
unfolding find_best
find_best-none n t b [] e = (e, λ q h. cc)
find_best-none n t b (x ∷ ps) e = elim (Bool-cases (leb n (t x).property && is_better t x b)) [
  | inl c ↦
      let next : find_best n t (some x) ps ≡ none = cc in
      let (bad, f) = find_best-none n t (some x) ps next in cc
  | inr c ↦
      let next : find_best n t b ps ≡ none = cc in
      let (i, f) = find_best-none n t b ps next in
      (
        i,
        λ q h. elim (Bool-cases (q == x)) [
          | inl j ↦
              subst (λ y. (t y).property < n) (sym ((==_iff q x).0 j)) (none_too_small n t x b c i)
          | inr j ↦ f q (ground arith)
        ],
      )
]

-- The result of `best_alloc_pages n`: either no block has `n` pages and nothing changes, or the
-- smallest of those that have gives its first `n` pages.
abbrev pub BestAllocated : ℕ → FreeArea → Option ℕ → FreeArea → Type 0
BestAllocated n s none s' =
    (s' ≡ s) × ((q : ℕ) → has q s.free_list ≡ true → (s.pages q).property < n)
BestAllocated n s (some p) s' =
    ((has p s.free_list ≡ true) × (n ≤ (s.pages p).property))
    × ((q : ℕ)
        → has q s.free_list ≡ true
        → n ≤ (s.pages q).property
        → (s.pages p).property ≤ (s.pages q).property)
    × Takes n p s s'

-- From a free area whose blocks are apart, in any order, and for n > 0, best_alloc_pages returns. If
-- it returns no page, nothing changed and every block is shorter than n. If it returns a page, this
-- is the start of a smallest block of at least n pages; the blocks stay apart, nr_free goes down by
-- n, the n pages from there were free and are not any more, and all other pages are as free as before.
pub best_alloc_pages-BestAllocated :
    (n : ℕ) (s : FreeArea)
    → 0 < n
    → IsApart s
    → (r : Option ℕ) × (s' : FreeArea) × (best_alloc_pages n s ≡ some (r, s'))
      × BestAllocated n s r s'
unfolding best_alloc_pages allocate_best
best_alloc_pages-BestAllocated n s z v = elim (Bool-cases (ltb s.nr_free n)) [
  | inl l ↦ (
    none,
    s,
    ground arith,
    (refl, λ q h. let r = has-sum_free s.pages s.free_list q h in ground arith),
  )
  | inr l ↦ elim (Option-cases (find_best n s.pages none s.free_list)) [
    | inl e ↦ (
      none,
      s,
      ground (arith, ap (λ o. allocate_best o n s) e),
      (refl, (find_best-none n s.pages none s.free_list e).1),
    )
    | inr (p, e) ↦
        let (k, w, f, a) = find_best-Best n p s.pages none s.free_list tt e in
        let h = listed p w in
        (
          some p,
          take_best p n s,
          ground (arith, ap (λ o. allocate_best o n s) e),
          ((h, k), f, take_best-Takes n p s z v h k),
        )
  ]
]
  where
    listed : (p : ℕ) → (none ≡ some p) ⊎ (has p s.free_list ≡ true) → has p s.free_list ≡ true
    listed p (inl i) = cc
    listed p (inr i) = i
