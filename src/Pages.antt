-- ===== src/Pages.antt =====
-- The page descriptors of kern/mm/memlayout.h and the free area that the page allocators keep. A page
-- is named by its index in the array of descriptors. Page counts stay below the number of page
-- frames, at most 2^20 on the machine, so their sums do not wrap.
use li_nos.Base.{ℕ, Bool, true, false, List, update}

-- `flags` has two bits: `reserved` is `PG_reserved`, `head` is `PG_property`, set on the first page of
-- a free block, whose `property` is the length of the block.
pub record Page : Type 0 where
  pub ref : ℕ
  pub reserved : Bool
  pub head : Bool
  pub property : ℕ

-- `struct Page *pages` and `free_area_t`
pub record FreeArea : Type 0 where
  pub pages : ℕ → Page
  pub free_list : List ℕ
  pub nr_free : ℕ

abbrev pub Pages : Type 0
Pages = ℕ → Page

-- `SetPageProperty` after `p->property = n`, and `ClearPageProperty`.
abbrev pub set_block : ℕ → ℕ → Pages → Pages
set_block p n t = update t p (record (t p) { property = n; head = true })

abbrev pub clear_head : ℕ → Pages → Pages
clear_head p t = update t p (record (t p) { head = false })
