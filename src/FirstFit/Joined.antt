-- ===== src/FirstFit/Joined.antt =====
-- The loops of firstfit_free_pages of kern/mm/firstfit_pmm.c over the list of blocks.
use li_nos.Base.{
  ℕ, suc, ◌+◌, ◌≤◌, ◌<◌, true, false, ◌||◌, List, [], ◌∷◌, ◌==◌, ◌≡◌, ◌∙◌, arith, ap, refl, sym,
  subst, some, ◌⊎◌, has, All, ◌≢◌, ==_refl, ==_ne,
}
use li_nos.Pages.{Pages}
use li_nos.FirstFit.{absorb, keep, coalesce, place}
use li_nos.FirstFit.Blocks.{
  Sorted, past, in_range, is_free, sum_free, Agree, is_free-Agree, sum_free-Agree,
}

-- What joining the block `b` with the list `ps` gives: a new block `b'` and a list into which the
-- third loop can put it, such that the free pages are those of `b` and of `ps`.
abbrev pub Joined : (lo b : ℕ) (t : Pages) (ps : List ℕ) → ℕ × Pages × List ℕ → Type 0
Joined lo b t ps (b', u, kept) =
    (lo ≤ b')
    × (rs : List ℕ) × (place b' (u b').property kept ≡ some rs)
    × Sorted u lo rs
    × (sum_free u rs ≡ (t b).property + sum_free t ps)
    × ((q : ℕ) → is_free u rs q ≡ (in_range b (t b).property q || is_free t ps q))
    × ((q : ℕ) → (q == b) ≡ false → has q ps ≡ false → u q ≡ t q)

-- The block `b` overlaps no block of the list.
abbrev pub Apart : (b : ℕ) → Pages → List ℕ → Type 0
Apart b t ps = All (λ p. (p + (t p).property ≤ b) ⊎ (b + (t b).property ≤ p)) ps

pub absorb-head : (a b : ℕ) (t : Pages) → a ≢ b → (absorb a b t a).head ≡ (t a).head
unfolding absorb
absorb-head a b t n = ground (arith, ==_refl a, ==_ne a b n)

pub absorb-property :
    (a b : ℕ) (t : Pages) → a ≢ b → (absorb a b t a).property ≡ (t a).property + (t b).property
unfolding absorb
absorb-property a b t n = ground (arith, ==_refl a, ==_ne a b n)

absorb_other : (a b q : ℕ) (t : Pages) → (q == a) ≡ false → (q == b) ≡ false → absorb a b t q ≡ t q
unfolding absorb
absorb_other a b q t n k = ground arith

pub coalesce_later :
    (b lo : ℕ) (t : Pages) (ps : List ℕ)
    → Sorted t lo ps
    → b + (t b).property < lo
    → coalesce ps b t ≡ (b, t, ps)
unfolding coalesce
coalesce_later b lo t [] s l = refl
coalesce_later b lo t (p ∷ ps) (a, m, z, s) l = rw (==_ne (b + (t b).property) p (ground arith)) (
    rw (==_ne (p + (t p).property) b (ground arith))
      (ap (keep p) (coalesce_later b (past t p) t ps s (omega arith))))

place_first :
    (b n lo : ℕ) (t : Pages) (ps : List ℕ)
    → Sorted t lo ps
    → b + n < lo
    → place b n ps ≡ some (b ∷ ps)
unfolding place
place_first b n lo t [] s l = refl
place_first b n lo t (p ∷ ps) (a, m, z, s) l = ground (arith, ==_ne (b + n) p (ground arith))

place_later :
    (b n p : ℕ) (ps rs : List ℕ)
    → p < b + n
    → place b n ps ≡ some rs
    → place b n (p ∷ ps) ≡ some (p ∷ rs)
unfolding place
place_later b n p ps rs l e = ground (arith, e)

has-past : (t : Pages) (x : ℕ) (ps : List ℕ) → Sorted t (past t x) ps → has x ps ≡ false
has-past t x ps s = has-before t x (past t x) ps (omega arith) s
  where
    has-before : (t : Pages) (x lo : ℕ) (ps : List ℕ) → x < lo → Sorted t lo ps → has x ps ≡ false
    has-before t x lo [] l s = refl
    has-before t x lo (p ∷ ps) l (a, m, z, s) =
        let r = has-before t x (past t p) ps (omega arith) s in ground arith

-- A join of a block with a neighbour writes to no page behind both.
pub absorb-Agree : (a b : ℕ) (t : Pages) (hi : ℕ) → a < hi → b < hi → Agree hi t (absorb a b t)
absorb-Agree a b t hi la lb q l =
    absorb_other a b q t (==_ne q a (ground arith)) (==_ne q b (ground arith))

-- All blocks of the list lie behind `b`.
pub Joined-last :
    (lo b : ℕ) (t : Pages) (ps : List ℕ)
    → Sorted t (past t b) ps
    → lo ≤ b
    → (t b).head ≡ true
    → 0 < (t b).property
    → Joined lo b t ps (b, t, ps)
Joined-last lo b t ps s l h z = (
  l,
  b ∷ ps,
  place_first b (t b).property (past t b) t ps s (omega arith),
  (l, h, z, s),
  refl,
  (λ q. refl),
  λ q n k. refl,
)

-- The first block ends before `b` and is kept.
pub Joined-apart :
    (lo b x : ℕ) (t : Pages) (ps : List ℕ) (r : ℕ × Pages × List ℕ)
    → Sorted t lo (x ∷ ps)
    → x + (t x).property < b
    → Joined (past t x) b t ps r
    → Joined lo b t (x ∷ ps) (keep x r)
Joined-apart lo b x t ps (b', u, kept) (a, m, z, s) l (lb, rs, e, sr, c, f, fr) =
    let same : u x ≡ t x = fr x (==_ne x b (ground arith)) (has-past t x ps s) in
    let d = ap (λ y. y.property) same in
    let h = ap (λ y. y.head) same in
    (
      omega arith,
      x ∷ rs,
      place_later b' (u b').property x kept rs (omega arith) e,
      (a, h ∙ m, omega arith, subst (λ k. Sorted u (suc (x + k)) rs) (sym d) sr),
      omega arith,
      (λ q. ground (arith, f q)),
      λ q n k. fr q n (ground arith),
    )

-- The first block starts where `b` ends.
pub Joined-after :
    (lo b x : ℕ) (t : Pages) (ps : List ℕ) (r : ℕ × Pages × List ℕ)
    → Sorted t lo (x ∷ ps)
    → 0 < (t b).property
    → b + (t b).property ≡ x
    → Joined lo b (absorb b x t) ps r
    → Joined lo b t (x ∷ ps) r
Joined-after lo b x t ps (b', u, kept) (a, m, z, s) zb l (lb, rs, e, sr, c, f, fr) =
    let p = absorb-property b x t (ground arith) in
    let g = absorb-Agree b x t (past t x) (omega arith) (omega arith) in
    (
      lb,
      rs,
      e,
      sr,
      omega (arith, sum_free-Agree t (absorb b x t) (past t x) ps g s),
      (λ q. ground (arith, f q, is_free-Agree t (absorb b x t) (past t x) ps g s q)),
      λ q n k. fr q n (ground arith) ∙ absorb_other b x q t n (ground arith),
    )

-- The first block ends where `b` starts, and becomes the block.
pub Joined-before :
    (lo b x : ℕ) (t : Pages) (ps : List ℕ) (r : ℕ × Pages × List ℕ)
    → Sorted t lo (x ∷ ps)
    → x + (t x).property ≡ b
    → Joined lo x (absorb x b t) ps r
    → Joined lo b t (x ∷ ps) r
Joined-before lo b x t ps (b', u, kept) (a, m, z, s) l (lb, rs, e, sr, c, f, fr) =
    let p = absorb-property x b t (ground arith) in
    let g = absorb-Agree x b t (past t x) (omega arith) (omega arith) in
    (
      lb,
      rs,
      e,
      sr,
      omega (arith, sum_free-Agree t (absorb x b t) (past t x) ps g s),
      (λ q. ground (arith, f q, is_free-Agree t (absorb x b t) (past t x) ps g s q)),
      λ q n k. fr q (ground arith) (ground arith) ∙ absorb_other x b q t (ground arith) n,
    )
