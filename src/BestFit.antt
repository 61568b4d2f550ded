-- ===== src/BestFit.antt =====
-- best_alloc_pages of kern/mm/bestfit_pmm.c. Its other operations repeat those of the first fit.
mod Apart
mod Takes
pub mod Alloc
mod Tests
use li_nos.Base.{
  ℕ, ◌+◌, ◌-◌, Bool, true, false, ◌&&◌, Option, none, some, List, [], ◌∷◌, if◌then◌else◌, ltb, leb,
  assert, ◌>>◌, erase,
}
use li_nos.Pages.{Page, Pages, FreeArea, set_block, clear_head}

-- `best_property == -1 || p->property < best_property`; the size kept is that of the best block.
pub is_better : Pages → ℕ → Option ℕ → Bool
is_better t p none = true
is_better t p (some b) = ltb (t p).property (t b).property

-- The loop over all blocks.
pub find_best : ℕ → Pages → (best : Option ℕ) → List ℕ → Option ℕ
unfolding is_better
find_best n t b [] = b
find_best n t b (p ∷ ps) =
    let better = find_best n t (some p) ps in
    let worse = find_best n t b ps in
    if leb n (t p).property && is_better t p b then better else worse

-- The rest of the block goes to the front of the list, whatever its address.
pub split_best : (page n : ℕ) → FreeArea → FreeArea
split_best p n s =
    if ltb n (s.pages p).property
    then record s {
      pages = set_block (p + n) ((s.pages p).property - n) s.pages;
      free_list = (p + n) ∷ s.free_list;
    }
    else s

pub take_best : (page n : ℕ) → FreeArea → FreeArea
unfolding split_best
take_best p n s =
    let s1 = split_best p n s in
    record {
      pages = clear_head p s1.pages;
      free_list = erase p s1.free_list;
      nr_free = s1.nr_free - n;
    }

pub allocate_best : Option ℕ → ℕ → FreeArea → Option ℕ × FreeArea
unfolding take_best
allocate_best none n s = (none, s)
allocate_best (some p) n s = (some p, take_best p n s)

pub best_alloc_pages : ℕ → FreeArea → Option (Option ℕ × FreeArea)
unfolding find_best allocate_best
best_alloc_pages n s =
    assert (ltb 0 n)
    >> (if ltb s.nr_free n
        then some (none, s)
        else some (allocate_best (find_best n s.pages none s.free_list) n s))
