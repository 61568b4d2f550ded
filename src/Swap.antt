-- ===== src/Swap.antt =====
-- The choice of the page that is swapped out: kern/mm/swap_fifo.c and kern/mm/swap_clock.c. The list
-- holds the pages from the head on, each new page at the front. `none` is a failed `assert`, the pointer
-- to the head is no null pointer, and `in_tick` is 0, as all calls have it.
pub mod Pass
pub mod Clock
mod Tests
use li_nos.Base.{
  ℕ, zero, suc, ◌+◌, Bool, true, false, not, ◌&&◌, Option, none, some, List, [], ◌∷◌, ◌++◌,
  if◌then◌else◌, ◌==◌, update, erase, assert, ◌>>=◌, ◌>>◌,
}

-- PTE_A and PTE_D of a page table entry. The table is by the address of the entry.
pub record Pte : Type 0 where
  pub accessed : Bool
  pub dirty : Bool

abbrev pub is_empty : List ℕ → Bool
is_empty [] = true
is_empty (_ ∷ _) = false

-- The entries as `prev` walks them from the head.
abbrev pub reversed : List ℕ → List ℕ
reversed [] = []
reversed (p ∷ ps) = reversed ps ++ p ∷ []

pub fifo_init_mm : List ℕ
fifo_init_mm = []

pub fifo_map_swappable : (page : ℕ) → List ℕ → List ℕ
fifo_map_swappable page l = page ∷ l

abbrev pub first_of : List ℕ → Option ℕ
first_of [] = none
first_of (p ∷ _) = some p

-- `le = head->prev`, which must not be the head.
pub fifo_swap_out_victim : List ℕ → Option (ℕ × List ℕ)
fifo_swap_out_victim l = first_of (reversed l) >>= λ p. some (p, erase p l)

pub clock_map_swappable : (page : ℕ) → List ℕ → List ℕ
clock_map_swappable page l = page ∷ l

-- The flag that round `i` clears.
abbrev pub clear_flag : (i : ℕ) → Pte → Pte
clear_flag i x =
    if i == 0
    then record x { accessed = false }
    else if i == 1
    then record x { dirty = false }
    else x

-- `!(*ptep & PTE_A) && !(*ptep & PTE_D)`
abbrev pub is_clean : Pte → Bool
is_clean x = not x.accessed && not x.dirty

-- `get_pte(mm->pgdir, p->pra_vaddr, 0)` of the page tables, which are a parameter: the address of the
-- page table entry for a page of the list, 0 for `NULL`.
module _ (get_pte : ℕ → ℕ) where
  -- One round over the list: the page that is found, and the entries. `none` is a null pointer followed.
  pub clock_pass : (i : ℕ) → List ℕ → (ℕ → Pte) → Option (Option ℕ × (ℕ → Pte))
  clock_pass i [] t = some (none, t)
  clock_pass i (p ∷ ps) t =
      let ptep = get_pte p in
      let rest = clock_pass i ps (update t ptep (clear_flag i (t ptep))) in
      assert (not (ptep == 0)) >> (if is_clean (t ptep) then some (some p, t) else rest)

  -- The rounds from `i` on, where `left` are left; the inner `none` is -1.
  pub clock_search : (left i : ℕ) → List ℕ → (ℕ → Pte) → Option (Option ℕ × (ℕ → Pte))
  clock_search zero i l t = some (none, t)
  clock_search (suc n) i l t =
      assert (not (is_empty l))
      >> (clock_pass i (reversed l) t >>= λ (r, t'). elim r [
        | some p ↦ some (some p, t')
        | none ↦ clock_search n (i + 1) l t'
      ])

  -- The page, if there is one, and the list without it.
  pub clock_swap_out_victim : List ℕ → (ℕ → Pte) → Option (Option ℕ × List ℕ × (ℕ → Pte))
  clock_swap_out_victim l t =
      clock_search 3 0 l t >>= λ (r, t'). some (r, elim r [ some p ↦ erase p l | none ↦ l ], t')
