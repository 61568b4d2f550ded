-- ===== src/FirstFit/Blocks.antt =====
-- The blocks of a free list of kern/mm/firstfit_pmm.c, as the code means them: in the order of their
-- addresses, with a page between any two, since neighbours are joined.
use li_nos.Base.{
  All, ℕ, suc, ◌+◌, ◌≤◌, ◌<◌, Bool, true, false, ◌&&◌, ◌||◌, List, [], ◌∷◌, ltb, leb, ◌≡◌, ◌∙◌,
  arith, ap, ap₂, refl, sym, subst,
}
use li_nos.Pages.{Pages}

-- The first page that the next block may start at.
abbrev pub past : Pages → ℕ → ℕ
past t p = suc (p + (t p).property)

-- Blocks from `lo` on.
abbrev pub Sorted : Pages → ℕ → List ℕ → Type 0
Sorted t lo [] = Unit
Sorted t lo (p ∷ ps) =
    (lo ≤ p) × ((t p).head ≡ true) × (0 < (t p).property) × Sorted t (past t p) ps

abbrev pub in_range : (base n q : ℕ) → Bool
in_range b n q = leb b q && ltb q (b + n)

-- Whether a page lies in one of the blocks.
abbrev pub is_free : Pages → List ℕ → ℕ → Bool
is_free t [] q = false
is_free t (p ∷ ps) q = in_range p (t p).property q || is_free t ps q

abbrev pub sum_free : Pages → List ℕ → ℕ
sum_free t [] = 0
sum_free t (p ∷ ps) = (t p).property + sum_free t ps

-- Two tables of pages that agree from `lo` on.
abbrev pub Agree : ℕ → Pages → Pages → Type 0
Agree lo t u = (q : ℕ) → lo ≤ q → u q ≡ t q

pub Agree-All :
    (t u : Pages) (lo : ℕ) (ps : List ℕ) → Agree lo t u → Sorted t lo ps → All (λ p. u p ≡ t p) ps
Agree-All t u lo [] f h = tt
Agree-All t u lo (p ∷ ps) f (l, m, z, s) =
    (f p l, Agree-All t u (past t p) ps (λ q k. f q (omega arith)) s)

pub Sorted-All :
    (t u : Pages) (lo : ℕ) (ps : List ℕ) → All (λ p. u p ≡ t p) ps → Sorted t lo ps → Sorted u lo ps
Sorted-All t u lo [] f h = tt
Sorted-All t u lo (p ∷ ps) (e, f) (l, m, z, s) =
    let d = ap (λ x. x.property) e in
    (
      l,
      ap (λ x. x.head) e ∙ m,
      omega arith,
      subst (λ k. Sorted u (suc (p + k)) ps) (sym d) (Sorted-All t u (past t p) ps f s),
    )

pub is_free-All :
    (t u : Pages) (ps : List ℕ)
    → All (λ p. u p ≡ t p) ps
    → (q : ℕ) → is_free u ps q ≡ is_free t ps q
is_free-All t u [] f q = refl
is_free-All t u (p ∷ ps) (e, f) q =
    ap₂ (λ k b. in_range p k q || b) (ap (λ x. x.property) e) (is_free-All t u ps f q)

pub sum_free-All :
    (t u : Pages) (ps : List ℕ) → All (λ p. u p ≡ t p) ps → sum_free u ps ≡ sum_free t ps
sum_free-All t u [] f = refl
sum_free-All t u (p ∷ ps) (e, f) =
    ap₂ (λ k b. k + b) (ap (λ x. x.property) e) (sum_free-All t u ps f)

pub Sorted-Agree :
    (t u : Pages) (lo : ℕ) (ps : List ℕ) → Agree lo t u → Sorted t lo ps → Sorted u lo ps
Sorted-Agree t u lo ps f h = Sorted-All t u lo ps (Agree-All t u lo ps f h) h

pub is_free-Agree :
    (t u : Pages) (lo : ℕ) (ps : List ℕ)
    → Agree lo t u
    → Sorted t lo ps
    → (q : ℕ) → is_free u ps q ≡ is_free t ps q
is_free-Agree t u lo ps f h = is_free-All t u ps (Agree-All t u lo ps f h)

pub sum_free-Agree :
    (t u : Pages) (lo : ℕ) (ps : List ℕ)
    → Agree lo t u
    → Sorted t lo ps
    → sum_free u ps ≡ sum_free t ps
sum_free-Agree t u lo ps f h = sum_free-All t u ps (Agree-All t u lo ps f h)

-- No page before the first block is free.
pub is_free_before :
    (t : Pages) (lo : ℕ) (ps : List ℕ) (q : ℕ) → Sorted t lo ps → q < lo → is_free t ps q ≡ false
is_free_before t lo [] q h l = refl
is_free_before t lo (p ∷ ps) q (a, m, z, s) l =
    ground (arith, is_free_before t (past t p) ps q s (omega arith))

pub Sorted-from : (t : Pages) (lo hi : ℕ) (ps : List ℕ) → hi ≤ lo → Sorted t lo ps → Sorted t hi ps
Sorted-from t lo hi [] l h = tt
Sorted-from t lo hi (p ∷ ps) l (a, m, z, s) = (omega arith, m, z, s)
