-- ===== src/BestFit/Takes.antt =====
-- Taking pages out of a block of a list in any order, in kern/mm/bestfit_pmm.c.
use li_nos.Base.{
  ℕ, ◌+◌, ◌-◌, ◌≤◌, ◌<◌, true, false, ◌||◌, List, [], ◌∷◌, ltb, ◌≡◌, ◌∙◌, arith, ap, refl, sym,
  subst, inl, inr, Bool-cases, has, All, erase, ==_ne,
}
use li_nos.Pages.{Pages, FreeArea}
use li_nos.FirstFit.Blocks.{past, in_range, is_free, sum_free, is_free-All, sum_free-All}
use li_nos.FirstFit.Taken.{left_pages, left_other, left_rest}
use li_nos.BestFit.{split_best, take_best}
use li_nos.BestFit.Apart.{
  Clear, Separate, Separate-erase, is_free-erase, sum_free-erase, is_free-Clear,
}

left_same :
    (p n : ℕ) (t : Pages) (ps : List ℕ)
    → 0 < n
    → n ≤ (t p).property
    → Clear t p (past t p) ps
    → All (λ q. left_pages p n t q ≡ t q) ps
left_same p n t [] z l c = tt
left_same p n t (q ∷ ps) z l (inl d, c) = (
  left_other p n q t (==_ne q p (ground arith)) (==_ne q (p + n) (ground arith)),
  left_same p n t ps z l c,
)
left_same p n t (q ∷ ps) z l (inr d, c) = (
  left_other p n q t (==_ne q p (ground arith)) (==_ne q (p + n) (ground arith)),
  left_same p n t ps z l c,
)

Clear-All :
    (t u : Pages) (a b c d : ℕ) (ps : List ℕ)
    → All (λ q. u q ≡ t q) ps
    → Clear t a b ps
    → a ≤ c
    → d ≤ b
    → Clear u c d ps
Clear-All t u a b c d [] e h l k = tt
Clear-All t u a b c d (q ∷ ps) (e, f) (inl g, h) l k =
    (inl (omega arith), Clear-All t u a b c d ps f h l k)
Clear-All t u a b c d (q ∷ ps) (e, f) (inr g, h) l k =
    let s = ap (λ x. x.property) e in (inr (omega arith), Clear-All t u a b c d ps f h l k)

Separate-All : (t u : Pages) (ps : List ℕ) → All (λ q. u q ≡ t q) ps → Separate t ps → Separate u ps
Separate-All t u [] e s = tt
Separate-All t u (p ∷ ps) (e, f) (m, z, c, s) =
    let d = ap (λ x. x.property) e in
    (
      ap (λ x. x.head) e ∙ m,
      omega arith,
      Clear-All t u p (past t p) p (past u p) ps f c (omega arith) (omega arith),
      Separate-All t u ps f s,
    )

-- The blocks are separate, and `nr_free` counts their pages.
abbrev pub IsApart : FreeArea → Type 0
IsApart s = Separate s.pages s.free_list × (s.nr_free ≡ sum_free s.pages s.free_list)

-- What taking `n` pages at `p` means for the free area.
abbrev pub Takes : ℕ → ℕ → FreeArea → FreeArea → Type 0
Takes n p s s' =
    IsApart s'
    × (s'.nr_free + n ≡ s.nr_free)
    × ((q : ℕ)
        → is_free s.pages s.free_list q ≡ (in_range p n q || is_free s'.pages s'.free_list q))
    × ((q : ℕ) → in_range p n q ≡ true → is_free s'.pages s'.free_list q ≡ false)

take_best-whole :
    (p n : ℕ) (s : FreeArea)
    → ltb n (s.pages p).property ≡ false
    → take_best p n s ≡ record {
      pages = left_pages p n s.pages;
      free_list = erase p s.free_list;
      nr_free = s.nr_free - n;
    }
unfolding take_best split_best
take_best-whole p n s e = rw e refl

take_best-split :
    (p n : ℕ) (s : FreeArea)
    → 0 < n
    → ltb n (s.pages p).property ≡ true
    → take_best p n s ≡ record {
      pages = left_pages p n s.pages;
      free_list = (p + n) ∷ erase p s.free_list;
      nr_free = s.nr_free - n;
    }
unfolding take_best split_best
take_best-split p n s z e = rw e (rw (==_ne p (p + n) (ground arith)) refl)

pub take_best-Takes :
    (n p : ℕ) (s : FreeArea)
    → 0 < n
    → IsApart s
    → has p s.free_list ≡ true
    → n ≤ (s.pages p).property
    → Takes n p s (take_best p n s)
take_best-Takes n p s z (sep, c) h l =
    let (rest, clear) = Separate-erase s.pages p s.free_list sep h in
    let us = erase p s.free_list in
    let u = left_pages p n s.pages in
    let same = left_same p n s.pages us z l clear in
    let sum = sum_free-erase s.pages p s.free_list h in
    let sum' = sum_free-All s.pages u us same in
    let clear' =
      Clear-All s.pages u p (past s.pages p) p (past s.pages p) us same clear (omega arith)
        (omega arith) in
    elim (Bool-cases (ltb n (s.pages p).property)) [
      | inr e ↦ subst (Takes n p s) (sym (take_best-whole p n s e)) (
        (Separate-All s.pages u us same rest, ground arith),
        ground arith,
        (λ q.
            ground
              (arith, is_free-erase s.pages p s.free_list q h, is_free-All s.pages u us same q)),
        λ q k. is_free-Clear u p (past s.pages p) us q clear' (ground arith) (ground arith),
      )
      | inl e ↦
          let k : n < (s.pages p).property = ground arith in
          let r = left_rest p n s.pages z k in
          let size = ap (λ x. x.property) r in
          subst (Takes n p s) (sym (take_best-split p n s z e)) (
            (
              (
                ap (λ x. x.head) r,
                omega arith,
                Clear-All s.pages u p (past s.pages p) (p + n) (past u (p + n)) us same clear
                    (omega arith) (omega arith),
                Separate-All s.pages u us same rest,
              ),
              ground arith,
            ),
            ground arith,
            (λ q.
                ground (
                  arith,
                  is_free-erase s.pages p s.free_list q h,
                  is_free-All s.pages u us same q,
                )),
            λ q j. ground (arith, is_free-Clear u p (past s.pages p) us q clear'),
          )
    ]
