-- ===== src/FirstFit/Zone.antt =====
-- firstfit_init_memmap of kern/mm/firstfit_pmm.c gives a zone of pages to the allocator.
use li_nos.Base.{
  ℕ, zero, suc, ◌+◌, ◌≤◌, ◌<◌, true, false, ◌||◌, List, [], ◌∷◌, ◌++◌, ltb, ◌≡◌, ◌∙◌, arith, ap,
  refl, some, All, ==_refl, ==_ne, update,
}
use li_nos.Pages.{Pages, FreeArea, set_block}
use li_nos.FirstFit.{release_reserved, firstfit_init_memmap}
use li_nos.FirstFit.Blocks.{
  Sorted, past, in_range, is_free, sum_free, Sorted-All, is_free-All, sum_free-All,
}
use li_nos.FirstFit.Alloc.{IsValid}

release_reserved_runs :
    (n p : ℕ) (t : Pages)
    → ((q : ℕ) → in_range p n q ≡ true → (t q).reserved ≡ true)
    → (u : Pages) × (release_reserved n p t ≡ some u)
      × ((q : ℕ) → in_range p n q ≡ false → u q ≡ t q)
unfolding release_reserved
release_reserved_runs zero p t h = (t, refl, λ q k. refl)
release_reserved_runs (suc n) p t h =
    let t' = update t p (record { ref = 0; reserved = false; head = false; property = 0 }) in
    let (u, e, f) =
      release_reserved_runs n (p + 1) t'
        (λ q k. ground (arith, h q (ground arith), ==_ne q p (ground arith))) in
    let a = h p (ground arith) in
    (u, rw a e, λ q k. f q (ground arith) ∙ ground (arith, ==_ne q p (ground arith)))

-- The blocks of the list end before the page, with a page between.
abbrev pub Below : Pages → ℕ → List ℕ → Type 0
Below t b ps = All (λ p. p + (t p).property < b) ps

kept_pages :
    (b n : ℕ) (t u : Pages) (ps : List ℕ)
    → Below t b ps
    → ((q : ℕ) → in_range b n q ≡ false → u q ≡ t q)
    → All (λ p. u p ≡ t p) ps
kept_pages b n t u [] h f = tt
kept_pages b n t u (p ∷ ps) (l, h) f = (f p (ground arith), kept_pages b n t u ps h f)

Below-All :
    (t u : Pages) (b : ℕ) (ps : List ℕ) → All (λ p. u p ≡ t p) ps → Below t b ps → Below u b ps
Below-All t u b [] e h = tt
Below-All t u b (p ∷ ps) (e, f) (l, h) =
    let d = ap (λ x. x.property) e in (omega arith, Below-All t u b ps f h)

module _ (t : Pages) (b : ℕ) where
  Sorted-append :
      (lo : ℕ) (ps : List ℕ)
      → Sorted t lo ps
      → Below t b ps
      → lo ≤ b
      → (t b).head ≡ true
      → 0 < (t b).property
      → Sorted t lo (ps ++ b ∷ [])
  Sorted-append lo [] s h l m z = (l, m, z, tt)
  Sorted-append lo (p ∷ ps) (a, c, d, s) (e, h) l m z =
      (a, c, d, Sorted-append (past t p) ps s h (omega arith) m z)

  is_free-append :
      (ps : List ℕ) (q : ℕ)
      → is_free t (ps ++ b ∷ []) q ≡ (is_free t ps q || in_range b (t b).property q)
  is_free-append [] q = ground arith
  is_free-append (p ∷ ps) q = ground (arith, is_free-append ps q)

  sum_free-append : (ps : List ℕ) → sum_free t (ps ++ b ∷ []) ≡ sum_free t ps + (t b).property
  sum_free-append [] = omega arith
  sum_free-append (p ∷ ps) = omega (arith, sum_free-append ps)

-- From a valid free area whose blocks end before base, with a page between, firstfit_init_memmap of
-- n > 0 reserved pages from base on never fails an assertion. The free area stays valid, nr_free
-- goes up by n, and the free pages are those of before and the n pages.
pub init_memmap-IsValid :
    (base n : ℕ) (s : FreeArea)
    → 0 < n
    → IsValid s
    → Below s.pages base s.free_list
    → ((q : ℕ) → in_range base n q ≡ true → (s.pages q).reserved ≡ true)
    → (s' : FreeArea) × (firstfit_init_memmap base n s ≡ some s')
      × IsValid s'
      × (s'.nr_free ≡ s.nr_free + n)
      × ((q : ℕ)
          → is_free s'.pages s'.free_list q ≡ (is_free s.pages s.free_list q || in_range base n q))
unfolding firstfit_init_memmap
init_memmap-IsValid base n s z (so, c) below h =
    let (v, ev, fv) = release_reserved_runs n base s.pages h in
    let u = set_block base n v in
    let fu : (q : ℕ) → in_range base n q ≡ false → u q ≡ s.pages q =
      λ q k. ground (arith, fv q k, ==_ne q base (ground arith)) in
    let same = kept_pages base n s.pages u s.free_list below fu in
    let size : (u base).property ≡ n = ground (arith, ==_refl base) in
    let positive : ltb 0 n ≡ true = ground arith in
    (
      record { pages = u; free_list = s.free_list ++ base ∷ []; nr_free = s.nr_free + n },
      rw positive (rw ev refl),
      (
        Sorted-append u base 0 s.free_list (Sorted-All s.pages u 0 s.free_list same so)
            (Below-All s.pages u base s.free_list same below) (omega arith)
            (ground (arith, ==_refl base)) (omega arith),
        omega (arith, sum_free-append u base s.free_list, sum_free-All s.pages u s.free_list same),
      ),
      refl,
      λ q.
          ground
            (arith, is_free-append u base s.free_list q, is_free-All s.pages u s.free_list same q),
    )
