-- ===== src/BestFit/Tests.antt =====
-- A run of the best-fit allocator: free blocks at 2, 10 and 6, in this order.
use li_nos.Base.{
  false, ℕ, ◌≡◌, ◌||◌, [], ◌∷◌, Option, some, inl, inr, refl, arith, ◌==◌, if◌then◌else◌,
}
use li_nos.Pages.{FreeArea}
use li_nos.BestFit.{best_alloc_pages}
use li_nos.BestFit.Takes.{IsApart}
use li_nos.BestFit.Alloc.{BestAllocated, best_alloc_pages-BestAllocated}

abbrev blocks : FreeArea
blocks = record {
  pages = λ q. record {
    ref = 0;
    reserved = false;
    head = (q == 2) || ((q == 6) || (q == 10));
    property = if q == 2 then 3 else if q == 6 then 2 else 4;
  };
  free_list = 2 ∷ 10 ∷ 6 ∷ [];
  nr_free = 9;
}

blocks-IsApart : IsApart blocks
blocks-IsApart = (
  (
    refl,
    omega arith,
    (inl (omega arith), (inl (omega arith), tt)),
    (refl, omega arith, (inr (omega arith), tt), (refl, omega arith, tt, tt)),
  ),
  refl,
)

best_alloc_pages-BestAllocated_example :
    (r : Option ℕ) × (s' : FreeArea) × (best_alloc_pages 1 blocks ≡ some (r, s'))
    × BestAllocated 1 blocks r s'
best_alloc_pages-BestAllocated_example =
    best_alloc_pages-BestAllocated 1 blocks (omega arith) blocks-IsApart
