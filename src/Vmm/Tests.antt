-- ===== src/Vmm/Tests.antt =====
-- Runs on an address space with a page of data and a stack of two pages.
use li_nos.Base.{
  ℕ, ◌≡◌, ◌||◌, ◌&&◌, ltb, leb, Bool, true, [], ◌∷◌, some, none, refl, arith, ◌==◌, if◌then◌else◌,
  inl, inr, ◌↔◌,
}
use li_nos.Kernel.{add32}
use li_nos.Vmm.{Mm, find_vma, mm_map, done, user_access, user_mem_check, round_down}
use li_nos.Vmm.Areas.{IsValid, is_mapped}
use li_nos.Vmm.Find.{Found, find_vma-Found}
use li_nos.Vmm.Map.{IsClear, end_of, mm_map-IsValid}
use li_nos.Vmm.Refuse.{mm_map_panics}
use li_nos.Vmm.Access.{AllAccess, user_mem_check-AllAccess}

abbrev space : Mm
space = record {
  mmap_list = 100 ∷ 200 ∷ [];
  mmap_cache = some 200;
  map_count = 2;
  vmas = λ q.
      if q == 100
      then record { vm_start = 0x800000; vm_end = 0x801000; vm_flags = 3; last_used_time = 0 }
      else record { vm_start = 0x900000; vm_end = 0x902000; vm_flags = 11; last_used_time = 0 };
  time_now = 7;
}

space-IsValid : IsValid space
space-IsValid = ((omega arith, omega arith, (omega arith, omega arith, tt)), refl, refl)

find_vma-Found_example :
    Found 0x800010 space (find_vma 0x800010 space).0 (find_vma 0x800010 space).1
find_vma-Found_example = find_vma-Found 0x800010 space space-IsValid

mm_map-IsValid_example :
    (m' : Mm) × (mm_map (some 300) 0x810000 4096 3 space ≡ some (done, m'))
    × IsValid m'
    × ((a : ℕ)
        → is_mapped m'.vmas m'.mmap_list a ≡ (
            (leb (round_down 0x810000) a && ltb a (end_of 0x810000 4096))
            || is_mapped space.vmas space.mmap_list a))
mm_map-IsValid_example =
    mm_map-IsValid 300 0x810000 4096 3 space space-IsValid refl refl
      (inl (omega arith), (inr (omega arith), tt))

overlapping : ¬ IsClear (round_down 0x7FF000) (end_of 0x7FF000 0x2000) space
overlapping (inl i, r) = omega arith
overlapping (inr i, r) = omega arith

mm_map_panics_example : mm_map (some 300) 0x7FF000 0x2000 3 space ≡ none
mm_map_panics_example =
    mm_map_panics 300 0x7FF000 0x2000 3 space space-IsValid refl refl refl overlapping

user_mem_check-AllAccess_example :
    (b : Bool) × (m' : Mm) × (user_mem_check 3 0x901000 100 true space ≡ some (b, m'))
    × IsValid m'
    × ((b ≡ true) ↔ (
        (user_access 0x901000 (add32 0x901000 100) ≡ true)
        × AllAccess true 0x901000 (add32 0x901000 100) space))
user_mem_check-AllAccess_example = user_mem_check-AllAccess 0x901000 100 true space space-IsValid
