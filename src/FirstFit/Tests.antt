-- ===== src/FirstFit/Tests.antt =====
-- Runs of the first-fit allocator: free blocks at 2 and 8, reserved pages from 12 on.
use li_nos.Base.{
  true, leb, ℕ, ◌+◌, ◌≡◌, ◌||◌, [], ◌∷◌, Option, some, refl, arith, ◌==◌, if◌then◌else◌,
}
use li_nos.Pages.{FreeArea}
use li_nos.FirstFit.{firstfit_alloc_pages, firstfit_free_pages, firstfit_init_memmap}
use li_nos.FirstFit.Blocks.{in_range, is_free}
use li_nos.FirstFit.Alloc.{IsValid, Allocated, alloc_pages-Allocated}
use li_nos.FirstFit.Zone.{init_memmap-IsValid}
use li_nos.FirstFit.Free.{InUse, free_pages-IsValid}

abbrev area : FreeArea
area = record {
  pages = λ q. record {
    ref = 0;
    reserved = (q == 0) || leb 12 q;
    head = (q == 2) || (q == 8);
    property = if q == 2 then 3 else if q == 8 then 2 else 0;
  };
  free_list = 2 ∷ 8 ∷ [];
  nr_free = 5;
}

area-IsValid : IsValid area
area-IsValid = ((omega arith, refl, omega arith, (omega arith, refl, omega arith, tt)), refl)

alloc_pages-Allocated_example :
    (r : Option ℕ) × (s' : FreeArea) × (firstfit_alloc_pages 2 area ≡ some (r, s'))
    × Allocated 2 area r s'
alloc_pages-Allocated_example = alloc_pages-Allocated 2 area (omega arith) area-IsValid

area-InUse : InUse 5 3 area
area-InUse q k = ground arith

free_pages-IsValid_example :
    (s' : FreeArea) × (firstfit_free_pages 5 3 area ≡ some s')
    × IsValid s'
    × (s'.nr_free ≡ area.nr_free + 3)
    × ((q : ℕ)
        → is_free s'.pages s'.free_list q ≡ (in_range 5 3 q || is_free area.pages area.free_list q))
free_pages-IsValid_example = free_pages-IsValid 5 3 area (omega arith) area-IsValid area-InUse

area-reserved : (q : ℕ) → in_range 12 4 q ≡ true → (area.pages q).reserved ≡ true
area-reserved q k = ground arith

init_memmap-IsValid_example :
    (s' : FreeArea) × (firstfit_init_memmap 12 4 area ≡ some s')
    × IsValid s'
    × (s'.nr_free ≡ area.nr_free + 4)
    × ((q : ℕ)
        → is_free s'.pages s'.free_list q
          ≡ (is_free area.pages area.free_list q || in_range 12 4 q))
init_memmap-IsValid_example =
    init_memmap-IsValid 12 4 area (omega arith) area-IsValid (omega arith, (omega arith, tt))
      area-reserved
