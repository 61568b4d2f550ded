-- ===== src/FirstFit/Alloc.antt =====
-- firstfit_alloc_pages of kern/mm/firstfit_pmm.c.
use li_nos.Base.{
  ℕ, ◌+◌, ◌≤◌, ◌<◌, true, false, ◌||◌, List, [], ◌∷◌, ltb, leb, ◌==◌, ◌≡◌, arith, ap, refl, sym,
  subst, Option, some, none, inl, inr, Bool-cases, Option-cases, has, ==_iff,
}
use mathlib.Core.Path.{subst₂}
use li_nos.Pages.{Pages, FreeArea}
use li_nos.FirstFit.{find_fit, take_block, allocate, firstfit_alloc_pages}
use li_nos.FirstFit.Blocks.{Sorted, past, in_range, is_free, sum_free}
use li_nos.FirstFit.Taken.{find_fit_here, find_fit_later, Taken, take_block-fields, find_fit-Taken}

-- The blocks of the list are in order, and `nr_free` counts their pages.
abbrev pub IsValid : FreeArea → Type 0
IsValid s = Sorted s.pages 0 s.free_list × (s.nr_free ≡ sum_free s.pages s.free_list)

-- The result of `firstfit_alloc_pages n`: either no block has `n` pages and nothing changes, or the
-- first of those that have gives its first `n` pages, and all other free pages stay free.
abbrev pub Allocated : ℕ → FreeArea → Option ℕ → FreeArea → Type 0
Allocated n s none s' = (s' ≡ s) × ((q : ℕ) → has q s.free_list ≡ true → (s.pages q).property < n)
Allocated n s (some p) s' =
    ((has p s.free_list ≡ true) × (n ≤ (s.pages p).property))
    × ((q : ℕ) → has q s.free_list ≡ true → n ≤ (s.pages q).property → p ≤ q)
    × IsValid s'
    × (s'.nr_free + n ≡ s.nr_free)
    × ((q : ℕ)
        → is_free s.pages s.free_list q ≡ (is_free s'.pages s'.free_list q || in_range p n q))
    × ((q : ℕ) → in_range p n q ≡ true → is_free s'.pages s'.free_list q ≡ false)

find_fit-none :
    (n : ℕ) (t : Pages) (ps : List ℕ)
    → find_fit n t ps ≡ none
    → (q : ℕ) → has q ps ≡ true
    → (t q).property < n
unfolding find_fit
find_fit-none n t [] e q h = cc
find_fit-none n t (x ∷ ps) e q h = elim (Bool-cases (q == x)) [
  | inl i ↦ subst (λ y. (t y).property < n) (sym ((==_iff q x).0 i)) (ground arith)
  | inr i ↦ find_fit-none n t ps (ground arith) q (ground arith)
]

pub has-sum_free :
    (t : Pages) (ps : List ℕ) (q : ℕ) → has q ps ≡ true → (t q).property ≤ sum_free t ps
has-sum_free t [] q h = cc
has-sum_free t (x ∷ ps) q h = elim (Bool-cases (q == x)) [
  | inl i ↦
      subst (λ y. (t y).property ≤ (t x).property + sum_free t ps) (sym ((==_iff q x).0 i))
        (omega arith)
  | inr i ↦ let r = has-sum_free t ps q (ground arith) in omega arith
]

has-Sorted : (t : Pages) (lo : ℕ) (ps : List ℕ) (q : ℕ) → Sorted t lo ps → has q ps ≡ true → lo ≤ q
has-Sorted t lo [] q s h = cc
has-Sorted t lo (x ∷ ps) q (a, m, z, s) h = elim (Bool-cases (q == x)) [
  | inl i ↦ ground arith
  | inr i ↦ let r = has-Sorted t (past t x) ps q s (ground arith) in omega arith
]

later-has :
    (n q x : ℕ) (t : Pages) (ps : List ℕ)
    → leb n (t x).property ≡ false
    → has q (x ∷ ps) ≡ true
    → n ≤ (t q).property
    → has q ps ≡ true
later-has n q x t ps l h k = elim (Bool-cases (q == x)) [
  | inl i ↦ let b = subst (λ y. n ≤ (t y).property) ((==_iff q x).0 i) k in ground arith
  | inr i ↦ ground arith
]

find_fit_first :
    (n p lo : ℕ) (t : Pages) (ps : List ℕ)
    → Sorted t lo ps
    → find_fit n t ps ≡ some p
    → ((has p ps ≡ true) × (n ≤ (t p).property))
      × ((q : ℕ) → has q ps ≡ true → n ≤ (t q).property → p ≤ q)
unfolding find_fit
find_fit_first n p lo t [] s e = cc
find_fit_first n p lo t (x ∷ ps) s e = elim (Bool-cases (leb n (t x).property)) [
  | inl l ↦
      let first = find_fit_here n p x t ps l e in
      (
        (ground (arith, first), subst (λ y. n ≤ (t y).property) first (ground arith)),
        λ q h k.
            subst (λ y. y ≤ q) first (has-Sorted t x (x ∷ ps) q (omega arith, s.1, s.2, s.3) h),
      )
  | inr l ↦
      let r = find_fit_first n p (past t x) t ps s.3 (find_fit_later n p x t ps l e) in
      ((ground (arith, r.0.0), r.0.1), λ q h k. r.1 q (later-has n q x t ps l h k) k)
]

take_block-Allocated :
    (n p : ℕ) (s : FreeArea)
    → 0 < n
    → IsValid s
    → find_fit n s.pages s.free_list ≡ some p
    → Allocated n s (some p) (take_block p n s)
take_block-Allocated n p s z v e =
    let (first, later) = find_fit_first n p 0 s.pages s.free_list v.0 e in
    let (eu, el, en) = take_block-fields p n s in
    let (_, so, su, fr, ta) =
      subst₂ (Taken 0 p n s.pages s.free_list) (sym eu) (sym el)
        (find_fit-Taken n p 0 s.pages s.free_list v.0 z e) in
    let enough = has-sum_free s.pages s.free_list p first.0 in
    (first, later, (so, omega arith), omega arith, fr, ta)

-- From a valid free area and for n > 0, firstfit_alloc_pages returns. If it returns no page, nothing
-- changed and every block is shorter than n. If it returns a page, this is the start of the block
-- with the lowest address among those of at least n pages; the free area stays valid, nr_free goes
-- down by n, the n pages from there were free and are not any more, and all other pages are as free
-- as before.
pub alloc_pages-Allocated :
    (n : ℕ) (s : FreeArea)
    → 0 < n
    → IsValid s
    → (r : Option ℕ) × (s' : FreeArea) × (firstfit_alloc_pages n s ≡ some (r, s'))
      × Allocated n s r s'
unfolding firstfit_alloc_pages allocate
alloc_pages-Allocated n s z v = elim (Bool-cases (ltb s.nr_free n)) [
  | inl l ↦ (
    none,
    s,
    ground arith,
    (refl, λ q h. let r = has-sum_free s.pages s.free_list q h in ground arith),
  )
  | inr l ↦ elim (Option-cases (find_fit n s.pages s.free_list)) [
    | inl e ↦ (
      none,
      s,
      ground (arith, ap (λ o. allocate o n s) e),
      (refl, find_fit-none n s.pages s.free_list e),
    )
    | inr (p, e) ↦ (
      some p,
      take_block p n s,
      ground (arith, ap (λ o. allocate o n s) e),
      take_block-Allocated n p s z v e,
    )
  ]
]
