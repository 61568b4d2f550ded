-- ===== src/FirstFit/Free.antt =====
-- firstfit_free_pages of kern/mm/firstfit_pmm.c.
use li_nos.Base.{
  ℕ, zero, suc, ◌+◌, ◌≤◌, ◌<◌, true, false, ◌||◌, List, [], ◌∷◌, ltb, leb, ◌≡◌, ◌∙◌, arith, ap,
  refl, some, inl, inr, ◌⊎◌, Bool-cases, All, ==_refl, ==_ne, update,
}
use li_nos.Pages.{Pages, FreeArea, set_block}
use li_nos.FirstFit.{release_used, put_block, coalesce, firstfit_free_pages}
use li_nos.FirstFit.Blocks.{Sorted, past, in_range, is_free, Sorted-All, is_free-All, sum_free-All}
use li_nos.FirstFit.Alloc.{IsValid}
use li_nos.FirstFit.Joined.{Apart}
use li_nos.FirstFit.Coalesce.{coalesce-Joined}

-- The `n` pages from `base` on are in use: neither reserved, nor the start of a free block, nor in one.
abbrev pub InUse : (base n : ℕ) → FreeArea → Type 0
InUse base n s =
    (q : ℕ)
    → in_range base n q ≡ true
    → ((s.pages q).reserved ≡ false)
      × ((s.pages q).head ≡ false)
      × (is_free s.pages s.free_list q ≡ false)

-- The first loop does not panic on pages in use, and writes to no other page.
release_used_runs :
    (n p : ℕ) (t : Pages)
    → ((q : ℕ) → in_range p n q ≡ true → ((t q).reserved ≡ false) × ((t q).head ≡ false))
    → (u : Pages) × (release_used n p t ≡ some u) × ((q : ℕ) → in_range p n q ≡ false → u q ≡ t q)
unfolding release_used
release_used_runs zero p t h = (t, refl, λ q k. refl)
release_used_runs (suc n) p t h =
    let t' = update t p (record (t p) { ref = 0; reserved = false; head = false }) in
    let (u, e, f) =
      release_used_runs n (p + 1) t'
        (λ q k. ground (arith, h q (ground arith), ==_ne q p (ground arith))) in
    let (a, b) = h p (ground arith) in
    (u, rw a (rw b e), λ q k. f q (ground arith) ∙ ground (arith, ==_ne q p (ground arith)))

used_Apart :
    (b n lo : ℕ) (t : Pages) (ps : List ℕ)
    → 0 < n
    → Sorted t lo ps
    → ((q : ℕ) → in_range b n q ≡ true → is_free t ps q ≡ false)
    → All (λ p. ((p + (t p).property ≤ b) ⊎ (b + n ≤ p)) × (in_range b n p ≡ false)) ps
used_Apart b n lo t [] z s f = tt
used_Apart b n lo t (p ∷ ps) z (a, m, zp, s) f = (
  elim (Bool-cases (in_range b n p)) [
    | inl k ↦ let r = f p k in ground arith
    | inr k ↦ elim (Bool-cases (leb (b + n) p)) [
      | inl l ↦ (inr (ground arith), k)
      | inr l ↦ let r = f b (ground arith) in (inl (ground arith), k)
    ]
  ],
  used_Apart b n (past t p) t ps z s (λ q k. ground (arith, f q k)),
)

fields_Apart :
    (b n lo : ℕ) (t u : Pages) (ps : List ℕ)
    → Sorted t lo ps
    → All (λ p. ((p + (t p).property ≤ b) ⊎ (b + n ≤ p)) × (in_range b n p ≡ false)) ps
    → ((q : ℕ) → in_range b n q ≡ false → u q ≡ t q)
    → (u b).property ≡ n
    → Apart b u ps × All (λ p. u p ≡ t p) ps
fields_Apart b n lo t u [] s h f e = (tt, tt)
fields_Apart b n lo t u (p ∷ ps) (a, m, z, s) ((d, k), h) f e =
    let (r1, r2) = fields_Apart b n (past t p) t u ps s h f e in
    let y = ap (λ x. x.property) (f p k) in
    ((elim d [ inl i ↦ inl (omega arith) | inr i ↦ inr (omega arith) ], r1), (f p k, r2))

ltb-true : (n : ℕ) → 0 < n → ltb 0 n ≡ true
ltb-true n z = ground arith

-- From a valid free area, firstfit_free_pages of n > 0 pages in use never fails an assertion, the one
-- in the search for the place included. The free area stays valid, with neighbours joined, nr_free
-- goes up by n, and the free pages are those of before and the n pages.
pub free_pages-IsValid :
    (base n : ℕ) (s : FreeArea)
    → 0 < n
    → IsValid s
    → InUse base n s
    → (s' : FreeArea) × (firstfit_free_pages base n s ≡ some s')
      × IsValid s'
      × (s'.nr_free ≡ s.nr_free + n)
      × ((q : ℕ)
          → is_free s'.pages s'.free_list q ≡ (in_range base n q || is_free s.pages s.free_list q))
unfolding firstfit_free_pages put_block
free_pages-IsValid base n s z (so, c) h =
    let (v, ev, fv) = release_used_runs n base s.pages (λ q k. ((h q k).0, (h q k).1)) in
    let u = set_block base n v in
    let fu : (q : ℕ) → in_range base n q ≡ false → u q ≡ s.pages q =
      λ q k. ground (arith, fv q k, ==_ne q base (ground arith)) in
    let used = used_Apart base n 0 s.pages s.free_list z so (λ q k. (h q k).2) in
    let size : (u base).property ≡ n = ground (arith, ==_refl base) in
    let (ap_, same) = fields_Apart base n 0 s.pages u s.free_list so used fu size in
    let su = Sorted-All s.pages u 0 s.free_list same so in
    let (lb, rs, e, sr, cr, fr, un) =
      coalesce-Joined base 0 u s.free_list su (omega arith) (ground (arith, ==_refl base))
        (omega arith) ap_ in
    let joined = coalesce s.free_list base u in
    (
      record { pages = joined.1; free_list = rs; nr_free = s.nr_free + n },
      rw (ltb-true n z) (rw ev (rw e refl)),
      (sr, omega (arith, sum_free-All s.pages u s.free_list same)),
      refl,
      λ q. ground (arith, fr q, is_free-All s.pages u s.free_list same q),
    )
