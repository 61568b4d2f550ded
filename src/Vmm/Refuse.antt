-- ===== src/Vmm/Refuse.antt =====
-- The requests that mm_map of kern/mm/vmm.c refuses, and those at which it panics.
use li_nos.Base.{
  ℕ, ◌≤◌, ◌<◌, true, false, List, [], ◌∷◌, Option, none, some, ltb, ◌≡◌, arith, has, All, refl, sym,
  subst, inl, inr, Option-cases, ◌∙◌, ◌⊎◌, assert-eq-some, >>=-eq-some,
}
use li_nos.Vmm.{
  Vma, Mm, find_vma, insert_vma_struct, vma_create, link_vma, add_vma, map_found, mm_map, MapResult,
  e_inval, user_access, round_down,
}
use li_nos.Vmm.Areas.{Ordered, IsValid, is_mapped, SameAreas, Ordered-SameAreas}
use li_nos.Vmm.Find.{Found, find_vma-Found}
use li_nos.Vmm.Insert.{Unmapped, link_vma-Unmapped}
use li_nos.Vmm.Map.{IsClear, end_of, tick, mm_map_in_range, created_SameAreas, created_bounds}

clear_created :
    (t u : ℕ → Vma) (w : Vma) (start end : ℕ) (ps : List ℕ)
    → All (SameAreas t u) ps
    → w.vm_start ≡ start
    → w.vm_end ≡ end
    → Unmapped w u ps
    → All (λ p. ((t p).vm_end ≤ start) ⊎ (end ≤ (t p).vm_start)) ps
clear_created t u w start end [] f a b h = tt
clear_created t u w start end (p ∷ ps) ((c, d, e), f) a b (g, h) = (
  elim g [ inl i ↦ inl (omega arith) | inr i ↦ inr (omega arith) ],
  clear_created t u w start end ps f a b h,
)

add_vma-IsClear :
    (v start end flags : ℕ) (m : Mm) (r : MapResult × Mm)
    → Ordered m.vmas 0 m.mmap_list
    → has v m.mmap_list ≡ false
    → add_vma (some v) start end flags m ≡ some r
    → IsClear start end m
unfolding add_vma insert_vma_struct vma_create
add_vma-IsClear v start end flags m r o new e =
    let t = (vma_create v start end flags m).vmas in
    let (m', e1, e2) = >>=-eq-some (insert_vma_struct v (vma_create v start end flags m)) _ e in
    let (a, e3) = assert-eq-some _ _ e1 in
    let (l, e4, e5) = >>=-eq-some (link_vma t v none m.mmap_list) _ e3 in
    let (ts, te) = created_bounds v start end flags m in
    let same = created_SameAreas v start end flags m m.mmap_list new in
    clear_created m.vmas t (t v) start end m.mmap_list same ts te
      (link_vma-Unmapped t v 0 none m.mmap_list l tt
        (Ordered-SameAreas m.vmas t 0 m.mmap_list same o) e4).1

-- A range of user addresses whose start lies in no area, but that meets an area, makes mm_map panic
-- in the overlap check of the insertion, when there is memory for the new area.
pub mm_map_panics :
    (v addr len flags : ℕ) (m : Mm)
    → IsValid m
    → has v m.mmap_list ≡ false
    → user_access (round_down addr) (end_of addr len) ≡ true
    → is_mapped m.vmas m.mmap_list (round_down addr) ≡ false
    → ¬ IsClear (round_down addr) (end_of addr len) m
    → mm_map (some v) addr len flags m ≡ none
unfolding map_found
mm_map_panics v addr len flags m valid new ua out meets =
    mm_map_in_range (some v) addr len flags m ua
    ∙ by_found (find_vma start (tick m)).0 (find_vma start (tick m)).1
        (find_vma-Found start (tick m) valid)
  where
    start : ℕ
    start = round_down addr

    by_found :
        (r : Option ℕ) (m2 : Mm)
        → Found start (tick m) r m2
        → map_found r (some v) start (end_of addr len) flags m2 ≡ none
    by_found none m2 (f, e) =
        subst (λ y. add_vma (some v) start (end_of addr len) flags y ≡ none) (sym e)
          (elim (Option-cases (add_vma (some v) start (end_of addr len) flags (tick m))) [
            | inl n ↦ n
            | inr (r, s) ↦
                elim (meets
                  (add_vma-IsClear v start (end_of addr len) flags (tick m) r valid.0 new s)) [ ]
          ])
    by_found (some p) m2 (h, i, w, x, y) = let bad : true ≡ false = sym i ∙ out in cc

refuse-Found :
    (mem : Option ℕ) (start end flags : ℕ) (m : Mm) (r : Option ℕ) (m2 : Mm)
    → start < end
    → is_mapped m.vmas m.mmap_list start ≡ true
    → Found start m r m2
    → (m' : Mm) × (map_found r mem start end flags m2 ≡ some (e_inval, m'))
      × IsValid m'
      × (m'.mmap_list ≡ m.mmap_list)
      × ((q : ℕ) → SameAreas m.vmas m'.vmas q)
unfolding map_found
refuse-Found mem start end flags m none m2 z i (f, e) = let bad : true ≡ false = sym i ∙ f in cc
refuse-Found mem start end flags m (some p) m2 z i ((h, c), k, w, x, y) =
    let (b, d, g) = y p in
    let early : ltb (m2.vmas p).vm_start end ≡ true = ground arith in (m2, rw early refl, w, x, y)

-- mm_map of a range of user addresses whose start lies in an area returns -E_INVAL, and the address
-- space stays valid with the areas that it had, whether there is memory or not.
pub mm_map_refuses :
    (mem : Option ℕ) (addr len flags : ℕ) (m : Mm)
    → IsValid m
    → user_access (round_down addr) (end_of addr len) ≡ true
    → is_mapped m.vmas m.mmap_list (round_down addr) ≡ true
    → (m' : Mm) × (mm_map mem addr len flags m ≡ some (e_inval, m'))
      × IsValid m'
      × (m'.mmap_list ≡ m.mmap_list)
      × ((q : ℕ) → SameAreas m.vmas m'.vmas q)
mm_map_refuses mem addr len flags m valid ua inside =
    let (m', e, w, x, y) =
      refuse-Found mem (round_down addr) (end_of addr len) flags (tick m)
        (find_vma (round_down addr) (tick m)).0 (find_vma (round_down addr) (tick m)).1
        (ground arith) inside (find_vma-Found (round_down addr) (tick m) valid) in
    (m', mm_map_in_range mem addr len flags m ua ∙ e, w, x, y)
