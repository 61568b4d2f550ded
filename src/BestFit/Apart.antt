-- ===== src/BestFit/Apart.antt =====
-- Blocks in any order, as kern/mm/bestfit_pmm.c keeps them, with a page between any two.
use li_nos.Base.{
  ℕ, ◌+◌, ◌≤◌, ◌<◌, true, false, ◌||◌, List, [], ◌∷◌, ◌==◌, ◌≡◌, arith, refl, sym, subst, inl, inr,
  ◌⊎◌, Bool-cases, has, All, erase, ==_iff,
}
use li_nos.Pages.{Pages}
use li_nos.FirstFit.Blocks.{past, in_range, is_free, sum_free}

-- No block of the list touches the pages from `p` up to `past t p`.
abbrev pub Clear : Pages → (from to : ℕ) → List ℕ → Type 0
Clear t a b ps = All (λ q. (b ≤ q) ⊎ (past t q ≤ a)) ps

abbrev pub Separate : Pages → List ℕ → Type 0
Separate t [] = Unit
Separate t (p ∷ ps) =
    ((t p).head ≡ true) × (0 < (t p).property) × Clear t p (past t p) ps × Separate t ps

pub Clear-erase : (t : Pages) (a b p : ℕ) (ps : List ℕ) → Clear t a b ps → Clear t a b (erase p ps)
Clear-erase t a b p [] h = tt
Clear-erase t a b p (x ∷ ps) (c, h) = elim (Bool-cases (p == x)) [
  | inl e ↦ rw e h
  | inr e ↦ rw e (c, Clear-erase t a b p ps h)
]

Clear-has :
    (t : Pages) (a b p : ℕ) (ps : List ℕ)
    → Clear t a b ps
    → has p ps ≡ true
    → (b ≤ p) ⊎ (past t p ≤ a)
Clear-has t a b p [] c h = cc
Clear-has t a b p (x ∷ ps) (c, d) h = elim (Bool-cases (p == x)) [
  | inl e ↦ subst (λ y. (b ≤ y) ⊎ (past t y ≤ a)) (sym ((==_iff p x).0 e)) c
  | inr e ↦ Clear-has t a b p ps d (ground arith)
]

-- Without one of its blocks, the list is clear of that block.
pub Separate-erase :
    (t : Pages) (p : ℕ) (ps : List ℕ)
    → Separate t ps
    → has p ps ≡ true
    → Separate t (erase p ps) × Clear t p (past t p) (erase p ps)
Separate-erase t p [] s h = cc
Separate-erase t p (x ∷ ps) (m, z, c, s) h = elim (Bool-cases (p == x)) [
  | inl e ↦ let i = (==_iff p x).0 e in rw e (s, subst (λ y. Clear t y (past t y) ps) (sym i) c)
  | inr e ↦
      let k : has p ps ≡ true = ground arith in
      let (r, d) = Separate-erase t p ps s k in
      rw e (
        (m, z, Clear-erase t x (past t x) p ps c, r),
        (swap (Clear-has t x (past t x) p ps c k), d),
      )
]
  where
    swap : ((past t x ≤ p) ⊎ (past t p ≤ x)) → ((past t p ≤ x) ⊎ (past t x ≤ p))
    swap (inl a) = inr a
    swap (inr a) = inl a

pub is_free-erase :
    (t : Pages) (p : ℕ) (ps : List ℕ) (q : ℕ)
    → has p ps ≡ true
    → is_free t ps q ≡ (in_range p (t p).property q || is_free t (erase p ps) q)
is_free-erase t p [] q h = cc
is_free-erase t p (x ∷ ps) q h = elim (Bool-cases (p == x)) [
  | inl e ↦ rw e (
      subst (λ y. is_free t (x ∷ ps) q ≡ (in_range y (t y).property q || is_free t ps q))
        (sym ((==_iff p x).0 e)) refl)
  | inr e ↦ rw e (ground (arith, is_free-erase t p ps q (ground arith)))
]

pub sum_free-erase :
    (t : Pages) (p : ℕ) (ps : List ℕ)
    → has p ps ≡ true
    → sum_free t ps ≡ (t p).property + sum_free t (erase p ps)
sum_free-erase t p [] h = cc
sum_free-erase t p (x ∷ ps) h = elim (Bool-cases (p == x)) [
  | inl e ↦ rw e (
      subst (λ y. sum_free t (x ∷ ps) ≡ (t y).property + sum_free t ps) (sym ((==_iff p x).0 e))
        refl)
  | inr e ↦ rw e (let r = sum_free-erase t p ps (ground arith) in omega arith)
]

pub is_free-Clear :
    (t : Pages) (a b : ℕ) (ps : List ℕ) (q : ℕ)
    → Clear t a b ps
    → a ≤ q
    → q < b
    → is_free t ps q ≡ false
is_free-Clear t a b [] q c l k = refl
is_free-Clear t a b (p ∷ ps) q (inl d, c) l k = ground (arith, is_free-Clear t a b ps q c l k)
is_free-Clear t a b (p ∷ ps) q (inr d, c) l k = ground (arith, is_free-Clear t a b ps q c l k)
