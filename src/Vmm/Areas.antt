-- ===== src/Vmm/Areas.antt =====
-- The list of areas that kern/mm/vmm.c keeps: in the order of their addresses, and disjoint.
use li_nos.Base.{
  ℕ, ◌≤◌, ◌<◌, Bool, true, false, ◌||◌, List, [], ◌∷◌, Option, none, some, ◌==◌, ◌≡◌, arith, has,
  length, All, refl, sym, subst, inl, inr, ==_iff, Bool-cases,
}
use li_nos.Vmm.{Vma, Mm, contains}

-- Areas from `lo` on.
abbrev pub Ordered : (ℕ → Vma) → ℕ → List ℕ → Type 0
Ordered t lo [] = Unit
Ordered t lo (p ∷ ps) =
    (lo ≤ (t p).vm_start) × ((t p).vm_start < (t p).vm_end) × Ordered t (t p).vm_end ps

abbrev pub Cached : Option ℕ → List ℕ → Type 0
Cached none ps = Unit
Cached (some p) ps = has p ps ≡ true

abbrev pub IsValid : Mm → Type 0
IsValid m =
    Ordered m.vmas 0 m.mmap_list
    × Cached m.mmap_cache m.mmap_list
    × (m.map_count ≡ length m.mmap_list)

-- Whether an address lies in an area.
abbrev pub is_mapped : (ℕ → Vma) → List ℕ → ℕ → Bool
is_mapped t [] a = false
is_mapped t (p ∷ ps) a = contains (t p) a || is_mapped t ps a

-- Two tables of areas with the same areas, whatever else they hold.
abbrev pub SameAreas : (t u : ℕ → Vma) → ℕ → Type 0
SameAreas t u p =
    ((u p).vm_start ≡ (t p).vm_start)
    × ((u p).vm_end ≡ (t p).vm_end)
    × ((u p).vm_flags ≡ (t p).vm_flags)

pub Ordered-SameAreas :
    (t u : ℕ → Vma) (lo : ℕ) (ps : List ℕ)
    → All (SameAreas t u) ps
    → Ordered t lo ps
    → Ordered u lo ps
Ordered-SameAreas t u lo [] f o = tt
Ordered-SameAreas t u lo (p ∷ ps) ((b, e, g), f) (l, z, o) = (
  omega arith,
  omega arith,
  subst (λ k. Ordered u k ps) (sym e) (Ordered-SameAreas t u (t p).vm_end ps f o),
)

pub is_mapped-SameAreas :
    (t u : ℕ → Vma) (ps : List ℕ)
    → All (SameAreas t u) ps
    → (a : ℕ) → is_mapped u ps a ≡ is_mapped t ps a
is_mapped-SameAreas t u [] f a = refl
is_mapped-SameAreas t u (p ∷ ps) ((b, e, g), f) a = ground (arith, is_mapped-SameAreas t u ps f a)

-- No address before the first area is mapped.
pub is_mapped_before :
    (t : ℕ → Vma) (lo : ℕ) (ps : List ℕ) (a : ℕ)
    → Ordered t lo ps
    → a < lo
    → is_mapped t ps a ≡ false
is_mapped_before t lo [] a o l = refl
is_mapped_before t lo (p ∷ ps) a (b, z, o) l =
    ground (arith, is_mapped_before t (t p).vm_end ps a o (omega arith))

-- An area that stands in the list starts at `lo` or behind, and maps its addresses.
pub has-Ordered :
    (t : ℕ → Vma) (lo : ℕ) (ps : List ℕ) (p : ℕ)
    → Ordered t lo ps
    → has p ps ≡ true
    → (lo ≤ (t p).vm_start) × ((t p).vm_start < (t p).vm_end)
has-Ordered t lo [] p o h = cc
has-Ordered t lo (x ∷ ps) p (b, z, o) h = elim (Bool-cases (p == x)) [
  | inl e ↦
      subst (λ y. (lo ≤ (t y).vm_start) × ((t y).vm_start < (t y).vm_end)) (sym ((==_iff p x).0 e))
        (b, z)
  | inr e ↦ let r = has-Ordered t (t x).vm_end ps p o (ground arith) in (omega arith, r.1)
]
