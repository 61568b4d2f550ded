-- ===== src/FirstFit.antt =====
-- kern/mm/firstfit_pmm.c: the first-fit page allocator.
pub mod Blocks
pub mod Taken
mod Joined
mod Coalesce
pub mod Alloc
pub mod Free
pub mod Zone
mod Tests
use li_nos.Base.{
  ℕ, zero, suc, ◌+◌, ◌-◌, Bool, true, false, ◌&&◌, ◌||◌, not, Option, none, some, List, [], ◌∷◌,
  ◌++◌, if◌then◌else◌, ◌==◌, ltb, leb, update, assert, ◌>>◌, ◌>>=◌, erase,
}
use li_nos.Pages.{Page, Pages, FreeArea, set_block, clear_head}

pub firstfit_init : FreeArea → FreeArea
firstfit_init s = record s { free_list = []; nr_free = 0 }

-- The loop of `firstfit_init_memmap`: the pages must be reserved, and lose all flags.
pub release_reserved : (count p : ℕ) → Pages → Option Pages
release_reserved zero p t = some t
release_reserved (suc n) p t =
    assert (t p).reserved
    >> release_reserved n (p + 1)
        (update t p (record { ref = 0; reserved = false; head = false; property = 0 }))

pub firstfit_init_memmap : (base n : ℕ) → FreeArea → Option FreeArea
unfolding release_reserved
firstfit_init_memmap base n s = do
  assert (ltb 0 n)
  t ← release_reserved n base s.pages
  some (record {
    pages = set_block base n t;
    free_list = s.free_list ++ base ∷ [];
    nr_free = s.nr_free + n;
  })

-- The first block in the list that is large enough.
pub find_fit : ℕ → Pages → List ℕ → Option ℕ
find_fit n t [] = none
find_fit n t (p ∷ ps) = let rest = find_fit n t ps in if leb n (t p).property then some p else rest

-- `list_add_after`
pub insert_after : (entry new : ℕ) → List ℕ → List ℕ
insert_after e x [] = []
insert_after e x (p ∷ ps) = if e == p then p ∷ x ∷ ps else p ∷ insert_after e x ps

-- The rest of a block of which the first `n` pages are taken becomes a block of its own.
pub split_block : (page n : ℕ) → FreeArea → FreeArea
unfolding insert_after
split_block p n s =
    if ltb n (s.pages p).property
    then record s {
      pages = set_block (p + n) ((s.pages p).property - n) s.pages;
      free_list = insert_after p (p + n) s.free_list;
    }
    else s

pub take_block : (page n : ℕ) → FreeArea → FreeArea
unfolding split_block
take_block p n s =
    let s1 = split_block p n s in
    record {
      pages = clear_head p s1.pages;
      free_list = erase p s1.free_list;
      nr_free = s1.nr_free - n;
    }

pub allocate : Option ℕ → ℕ → FreeArea → Option ℕ × FreeArea
unfolding take_block
allocate none n s = (none, s)
allocate (some p) n s = (some p, take_block p n s)

-- `none` inside is the null pointer, outside a failed `assert`.
pub firstfit_alloc_pages : ℕ → FreeArea → Option (Option ℕ × FreeArea)
unfolding find_fit allocate
firstfit_alloc_pages n s =
    assert (ltb 0 n)
    >> (if ltb s.nr_free n
        then some (none, s)
        else some (allocate (find_fit n s.pages s.free_list) n s))

-- The first loop of `firstfit_free_pages`: the pages must be in use.
pub release_used : (count p : ℕ) → Pages → Option Pages
release_used zero p t = some t
release_used (suc n) p t =
    assert (not (t p).reserved && not (t p).head)
    >> release_used n (p + 1)
        (update t p (record (t p) { ref = 0; reserved = false; head = false }))

-- Block `b` is appended to block `a`.
pub absorb : (a b : ℕ) → Pages → Pages
absorb a b t =
    clear_head b (update t a (record (t a) { property = (t a).property + (t b).property }))

abbrev pub keep : ℕ → ℕ × Pages × List ℕ → ℕ × Pages × List ℕ
keep p (b, t, kept) = (b, t, p ∷ kept)

-- The second loop: it joins `base` with its neighbours and takes them out of the list. The result is
-- the new `base`, the pages and the list that is left.
pub coalesce : List ℕ → (base : ℕ) → Pages → ℕ × Pages × List ℕ
unfolding absorb
coalesce [] b t = (b, t, [])
coalesce (p ∷ ps) b t =
    let after = coalesce ps b (absorb b p t) in
    let before = coalesce ps p (absorb p b t) in
    let apart = keep p (coalesce ps b t) in
    if b + (t b).property == p then after else if p + (t p).property == b then before else apart

-- The third loop, and the insertion that follows it.
pub place : (base size : ℕ) → List ℕ → Option (List ℕ)
place b n [] = some (b ∷ [])
place b n (p ∷ ps) =
    let found = assert (not (b + n == p)) >> some (b ∷ p ∷ ps) in
    let later = place b n ps >>= λ l. some (p ∷ l) in if leb (b + n) p then found else later

pub put_block : (base n : ℕ) → Pages → FreeArea → Option FreeArea
unfolding coalesce place
put_block base n t s =
    let (b, t', kept) = coalesce s.free_list base (set_block base n t) in
    place b (t' b).property kept >>= λ l.
    some (record { pages = t'; free_list = l; nr_free = s.nr_free + n })

pub firstfit_free_pages : (base n : ℕ) → FreeArea → Option FreeArea
unfolding release_used put_block
firstfit_free_pages base n s =
    assert (ltb 0 n) >> (release_used n base s.pages >>= λ t. put_block base n t s)

pub firstfit_nr_free_pages : FreeArea → ℕ
firstfit_nr_free_pages s = s.nr_free
