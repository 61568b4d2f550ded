-- ===== src/Vmm/Find.antt =====
-- find_vma of kern/mm/vmm.c, with its cache of the area last found.
use li_nos.Base.{
  ℕ, true, false, List, [], ◌∷◌, Option, none, some, ◌==◌, ◌≡◌, arith, has, All, refl, sym, subst,
  inl, inr, ==_iff, Bool-cases,
}
use mathlib.Core.Option.{some-injective}
use li_nos.Vmm.{Vma, Mm, contains, search_vma, cached_vma, touch_vma, find_vma}
use li_nos.Vmm.Areas.{
  Ordered, Cached, IsValid, is_mapped, SameAreas, Ordered-SameAreas, has-Ordered,
}

search_vma-none :
    (t : ℕ → Vma) (a : ℕ) (ps : List ℕ) → search_vma t a ps ≡ none → is_mapped t ps a ≡ false
unfolding search_vma
search_vma-none t a [] e = refl
search_vma-none t a (p ∷ ps) e = elim (Bool-cases (contains (t p) a)) [
  | inl c ↦ ground arith
  | inr c ↦ let r = search_vma-none t a ps (ground arith) in ground arith
]

-- The search finds the only area that holds the address.
search_vma-has :
    (t : ℕ → Vma) (a lo p : ℕ) (ps : List ℕ)
    → Ordered t lo ps
    → has p ps ≡ true
    → contains (t p) a ≡ true
    → search_vma t a ps ≡ some p
unfolding search_vma
search_vma-has t a lo p [] o h c = cc
search_vma-has t a lo p (x ∷ ps) (b, z, o) h c = elim (Bool-cases (p == x)) [
  | inl e ↦
      let i = (==_iff p x).0 e in
      subst (λ y. search_vma t a (x ∷ ps) ≡ some y) (sym i)
        (let d = subst (λ y. contains (t y) a ≡ true) i c in rw d refl)
  | inr e ↦
      let r = search_vma-has t a (t x).vm_end p ps o (ground arith) c in
      let q = has-Ordered t (t x).vm_end ps p o (ground arith) in ground arith
]

search_vma-some :
    (t : ℕ → Vma) (a p : ℕ) (ps : List ℕ)
    → search_vma t a ps ≡ some p
    → (has p ps ≡ true) × (contains (t p) a ≡ true) × (is_mapped t ps a ≡ true)
unfolding search_vma
search_vma-some t a p [] e = cc
search_vma-some t a p (x ∷ ps) e = elim (Bool-cases (contains (t x) a)) [
  | inl c ↦
      let same : some x ≡ some p = cc in
      subst
        (λ y. (has y (x ∷ ps) ≡ true) × (contains (t y) a ≡ true) × (is_mapped t (x ∷ ps) a ≡ true))
        (some-injective _ _ same) (ground arith, c, ground arith)
  | inr c ↦
      let r = search_vma-some t a p ps (ground arith) in
      (ground (arith, r.0), r.1, ground (arith, r.2))
]

-- The cache changes no result.
pub cached_vma-search_vma :
    (a : ℕ) (m : Mm) → IsValid m → cached_vma m.mmap_cache a m ≡ search_vma m.vmas a m.mmap_list
unfolding cached_vma
cached_vma-search_vma a m (o, c, k) = by_cache m.mmap_cache c
  where
    by_cache :
        (r : Option ℕ) → Cached r m.mmap_list → cached_vma r a m ≡ search_vma m.vmas a m.mmap_list
    by_cache none h = refl
    by_cache (some p) h = elim (Bool-cases (contains (m.vmas p) a)) [
      | inl e ↦ rw e (sym (search_vma-has m.vmas a 0 p m.mmap_list o h e))
      | inr e ↦ rw e refl
    ]

-- What `find_vma a` from `m` to `m'` means, by its result.
abbrev pub Found : ℕ → Mm → Option ℕ → Mm → Type 0
Found a m none m' = (is_mapped m.vmas m.mmap_list a ≡ false) × (m' ≡ m)
Found a m (some p) m' =
    ((has p m.mmap_list ≡ true) × (contains (m.vmas p) a ≡ true))
    × (is_mapped m.vmas m.mmap_list a ≡ true)
    × IsValid m'
    × (m'.mmap_list ≡ m.mmap_list)
    × ((q : ℕ) → SameAreas m.vmas m'.vmas q)

touch_SameAreas : (p q : ℕ) (m : Mm) → SameAreas m.vmas (touch_vma (some p) m).vmas q
unfolding touch_vma
touch_SameAreas p q m = elim (Bool-cases (q == p)) [
  | inl e ↦ let i = (==_iff q p).0 e in ground arith
  | inr e ↦ ground arith
]

pub All-SameAreas :
    (t u : ℕ → Vma) (ps : List ℕ) → ((q : ℕ) → SameAreas t u q) → All (SameAreas t u) ps
All-SameAreas t u [] f = tt
All-SameAreas t u (p ∷ ps) f = (f p, All-SameAreas t u ps f)

-- From a valid address space, find_vma returns no area only when no area holds the address, and then
-- nothing changes. Otherwise it returns an area of the list that holds the address, the address space
-- stays valid, and its areas keep their order, bounds and flags.
pub find_vma-Found : (a : ℕ) (m : Mm) → IsValid m → Found a m (find_vma a m).0 (find_vma a m).1
unfolding find_vma touch_vma
find_vma-Found a m v = by_result (cached_vma m.mmap_cache a m) (sym (cached_vma-search_vma a m v))
  where
    by_result : (r : Option ℕ) → search_vma m.vmas a m.mmap_list ≡ r → Found a m r (touch_vma r m)
    by_result none e = (search_vma-none m.vmas a m.mmap_list e, refl)
    by_result (some p) e =
        let (h, c, i) = search_vma-some m.vmas a p m.mmap_list e in
        (
          (h, c),
          i,
          (
            Ordered-SameAreas m.vmas (touch_vma (some p) m).vmas 0 m.mmap_list
                (All-SameAreas m.vmas (touch_vma (some p) m).vmas m.mmap_list
                  (λ q. touch_SameAreas p q m))
                v.0,
            h,
            v.2,
          ),
          refl,
          λ q. touch_SameAreas p q m,
        )
