-- ===== src/Vmm/Map.antt =====
-- mm_map of kern/mm/vmm.c.
use li_nos.Base.{
  ℕ, ◌+◌, ◌-◌, ◌≤◌, ◌<◌, true, false, ◌&&◌, ◌||◌, List, [], ◌∷◌, Option, none, some, ltb, leb, ◌==◌,
  ◌≡◌, arith, has, All, refl, sym, subst, inl, inr, ==_ne, ==_refl, ◌∙◌, ◌⊎◌,
}
use li_nos.Kernel.{add32}
use li_nos.Vmm.{
  Vma, Mm, find_vma, insert_vma_struct, vma_create, link_vma, add_vma, map_found, mm_map, done,
  user_access, round_down, pgsize,
}
use li_nos.Vmm.Areas.{Cached, IsValid, is_mapped, SameAreas, Ordered-SameAreas, is_mapped-SameAreas}
use li_nos.Vmm.Find.{Found, find_vma-Found}
use li_nos.Vmm.Insert.{Unmapped, link_vma-Linked}

-- No area of the list meets the addresses from `start` to `end`.
abbrev pub IsClear : (start end : ℕ) → Mm → Type 0
IsClear start end m =
    All (λ p. ((m.vmas p).vm_end ≤ start) ⊎ (end ≤ (m.vmas p).vm_start)) m.mmap_list

-- `time_now++`
abbrev pub tick : Mm → Mm
tick m = record m { time_now = add32 m.time_now 1 }

-- The rounded bounds of a request, at page boundaries, in 32 bits.
abbrev pub end_of : (addr len : ℕ) → ℕ
end_of addr len = round_down (add32 (add32 addr len) (pgsize - 1))

pub created_SameAreas :
    (v start end flags : ℕ) (m : Mm) (ps : List ℕ)
    → has v ps ≡ false
    → All (SameAreas m.vmas (vma_create v start end flags m).vmas) ps
unfolding vma_create
created_SameAreas v start end flags m [] h = tt
created_SameAreas v start end flags m (p ∷ ps) h = (
  ground (arith, ==_ne p v (ground arith)),
  created_SameAreas v start end flags m ps (ground arith),
)

pub created_bounds :
    (v start end flags : ℕ) (m : Mm)
    → (((vma_create v start end flags m).vmas v).vm_start ≡ start)
      × (((vma_create v start end flags m).vmas v).vm_end ≡ end)
unfolding vma_create
created_bounds v start end flags m = (ground (arith, ==_refl v), ground (arith, ==_refl v))

pub created_Unmapped :
    (t u : ℕ → Vma) (w : Vma) (start end : ℕ) (ps : List ℕ)
    → All (SameAreas t u) ps
    → w.vm_start ≡ start
    → w.vm_end ≡ end
    → All (λ p. ((t p).vm_end ≤ start) ⊎ (end ≤ (t p).vm_start)) ps
    → Unmapped w u ps
created_Unmapped t u w start end [] f a b h = tt
created_Unmapped t u w start end (p ∷ ps) ((c, d, e), f) a b (g, h) = (
  elim g [ inl i ↦ inl (omega arith) | inr i ↦ inr (omega arith) ],
  created_Unmapped t u w start end ps f a b h,
)

Cached-more :
    (r : Option ℕ) (ps l : List ℕ) (v : ℕ)
    → ((p : ℕ) → has p l ≡ ((p == v) || has p ps))
    → Cached r ps
    → Cached r l
Cached-more none ps l v f c = tt
Cached-more (some p) ps l v f c = ground (arith, f p)

add_vma_runs :
    (v start end flags : ℕ) (m : Mm) (l : List ℕ)
    → start < end
    → link_vma (vma_create v start end flags m).vmas v none m.mmap_list ≡ some l
    → add_vma (some v) start end flags m
      ≡ some (
        done,
        record (vma_create v start end flags m) { mmap_list = l; map_count = m.map_count + 1 },
      )
unfolding add_vma vma_create insert_vma_struct
add_vma_runs v start end flags m l z e =
    let t = (vma_create v start end flags m).vmas in
    let ok : ltb (t v).vm_start (t v).vm_end ≡ true = ground (arith, ==_refl v) in rw ok (rw e refl)

-- A new area with the wanted bounds in a list that is clear there.
pub add_vma-IsValid :
    (v start end flags : ℕ) (m : Mm)
    → IsValid m
    → has v m.mmap_list ≡ false
    → start < end
    → IsClear start end m
    → (m' : Mm) × (add_vma (some v) start end flags m ≡ some (done, m'))
      × IsValid m'
      × ((a : ℕ)
          → is_mapped m'.vmas m'.mmap_list a
            ≡ ((leb start a && ltb a end) || is_mapped m.vmas m.mmap_list a))
unfolding vma_create
add_vma-IsValid v start end flags m (o, c, k) new z clear =
    let t = (vma_create v start end flags m).vmas in
    let (ts, te) = created_bounds v start end flags m in
    let zt : (t v).vm_start < (t v).vm_end = omega arith in
    let same = created_SameAreas v start end flags m m.mmap_list new in
    let (l, e, (ol, g, n, h)) =
      link_vma-Linked t v 0 none m.mmap_list zt (omega arith) tt
        (Ordered-SameAreas m.vmas t 0 m.mmap_list same o)
        (created_Unmapped m.vmas t (t v) start end m.mmap_list same ts te clear) in
    (
      record (vma_create v start end flags m) { mmap_list = l; map_count = m.map_count + 1 },
      add_vma_runs v start end flags m l z e,
      (ol, Cached-more m.mmap_cache m.mmap_list l v h c, omega arith),
      λ a. ground (arith, g a, is_mapped-SameAreas m.vmas t m.mmap_list same a),
    )

-- Past the test of its bounds, mm_map looks for an area at its start.
pub mm_map_in_range :
    (mem : Option ℕ) (addr len flags : ℕ) (m : Mm)
    → user_access (round_down addr) (end_of addr len) ≡ true
    → mm_map mem addr len flags m
      ≡ map_found
          (find_vma (round_down addr) (tick m)).0
          mem
          (round_down addr)
          (end_of addr len)
          flags
          (find_vma (round_down addr) (tick m)).1
unfolding mm_map
mm_map_in_range mem addr len flags m ua = rw ua refl

pub clear-is_mapped :
    (t : ℕ → Vma) (start end : ℕ) (ps : List ℕ)
    → start < end
    → All (λ p. ((t p).vm_end ≤ start) ⊎ (end ≤ (t p).vm_start)) ps
    → is_mapped t ps start ≡ false
clear-is_mapped t start end [] z h = refl
clear-is_mapped t start end (p ∷ ps) z (inl d, h) =
    ground (arith, clear-is_mapped t start end ps z h)
clear-is_mapped t start end (p ∷ ps) z (inr d, h) =
    ground (arith, clear-is_mapped t start end ps z h)

map_clear :
    (v start end flags : ℕ) (m : Mm)
    → IsValid m
    → has v m.mmap_list ≡ false
    → start < end
    → IsClear start end m
    → (r : Option ℕ) (m2 : Mm) → Found start m r m2
    → (m' : Mm) × (map_found r (some v) start end flags m2 ≡ some (done, m'))
      × IsValid m'
      × ((a : ℕ)
          → is_mapped m'.vmas m'.mmap_list a
            ≡ ((leb start a && ltb a end) || is_mapped m.vmas m.mmap_list a))
unfolding map_found
map_clear v start end flags m valid new z clear none m2 (f, e) =
    subst
      (λ y.
        (m' : Mm) × (add_vma (some v) start end flags y ≡ some (done, m'))
        × IsValid m'
        × ((a : ℕ)
            → is_mapped m'.vmas m'.mmap_list a
              ≡ ((leb start a && ltb a end) || is_mapped m.vmas m.mmap_list a)))
      (sym e) (add_vma-IsValid v start end flags m valid new z clear)
map_clear v start end flags m valid new z clear (some p) m2 (h, i, w, x, y) =
    let bad : true ≡ false = sym i ∙ clear-is_mapped m.vmas start end m.mmap_list z clear in cc

-- mm_map of a range of user addresses that meets no area, with memory for the new area, returns 0: the
-- address space stays valid, and the mapped addresses are those of before and the range between the
-- page boundaries.
pub mm_map-IsValid :
    (v addr len flags : ℕ) (m : Mm)
    → IsValid m
    → has v m.mmap_list ≡ false
    → user_access (round_down addr) (end_of addr len) ≡ true
    → IsClear (round_down addr) (end_of addr len) m
    → (m' : Mm) × (mm_map (some v) addr len flags m ≡ some (done, m'))
      × IsValid m'
      × ((a : ℕ)
          → is_mapped m'.vmas m'.mmap_list a ≡ (
              (leb (round_down addr) a && ltb a (end_of addr len))
              || is_mapped m.vmas m.mmap_list a))
unfolding map_found
mm_map-IsValid v addr len flags m valid new ua clear =
    let start = round_down addr in
    let end = end_of addr len in
    let z : start < end = ground arith in
    let m1 = tick m in
    let (m', e, w, g) =
      map_clear v start end flags m1 valid new z clear (find_vma start m1).0 (find_vma start m1).1
        (find_vma-Found start m1 valid) in
    (m', mm_map_in_range (some v) addr len flags m ua ∙ e, w, g)
