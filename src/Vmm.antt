-- ===== src/Vmm.antt =====
-- kern/mm/vmm.c: the areas of an address space. An area is named by the address of its `vma_struct`.
-- The address spaces are those of processes, so `mm` is no null pointer. What `kmalloc` returns is an
-- argument. `none` is a failed `assert`.
pub mod Areas
pub mod Find
pub mod Insert
pub mod Map
pub mod Refuse
pub mod Allows
pub mod Access
mod Tests
use li_nos.Base.{
  ℕ, zero, suc, ◌+◌, ◌-◌, ◌/◌, ◌%◌, ◌^◌, Bool, true, false, ◌&&◌, not, Option, none, some, List, [],
  ◌∷◌, if◌then◌else◌, ◌==◌, ltb, leb, update, assert, ◌>>◌, ◌>>=◌,
}
use li_nos.Kernel.{add32}

pub record Vma : Type 0 where
  pub vm_start : ℕ
  pub vm_end : ℕ
  pub vm_flags : ℕ
  pub last_used_time : ℕ

-- `mm_struct` with the areas it points at, and `time_now`.
pub record Mm : Type 0 where
  pub mmap_list : List ℕ
  pub mmap_cache : Option ℕ
  pub map_count : ℕ
  pub vmas : ℕ → Vma
  pub time_now : ℕ

abbrev pub contains : Vma → ℕ → Bool
contains v a = leb v.vm_start a && ltb a v.vm_end

pub search_vma : (ℕ → Vma) → ℕ → List ℕ → Option ℕ
search_vma t a [] = none
search_vma t a (p ∷ ps) = let rest = search_vma t a ps in if contains (t p) a then some p else rest

-- `mmap_cache` when it holds the address, otherwise the search.
pub cached_vma : Option ℕ → ℕ → Mm → Option ℕ
unfolding search_vma
cached_vma none a m = search_vma m.vmas a m.mmap_list
cached_vma (some p) a m = if contains (m.vmas p) a then some p else search_vma m.vmas a m.mmap_list

pub touch_vma : Option ℕ → Mm → Mm
touch_vma none m = m
touch_vma (some p) m = record m {
  mmap_cache = some p;
  vmas = update m.vmas p (record (m.vmas p) { last_used_time = m.time_now });
}

pub find_vma : ℕ → Mm → Option ℕ × Mm
unfolding cached_vma touch_vma
find_vma a m = let r = cached_vma m.mmap_cache a m in (r, touch_vma r m)

pub check_vma_overlap : (prev next : Vma) → Option (Unit {0})
check_vma_overlap p n =
    assert (ltb p.vm_start p.vm_end)
    >> (assert (leb p.vm_end n.vm_start) >> assert (ltb n.vm_start n.vm_end))

pub check_prev : (ℕ → Vma) → Option ℕ → ℕ → Option (Unit {0})
unfolding check_vma_overlap
check_prev t none v = some tt
check_prev t (some p) v = check_vma_overlap (t p) (t v)

-- The loop that looks for the place, the checks of both neighbours, and `list_add_after`.
pub link_vma : (ℕ → Vma) → ℕ → (prev : Option ℕ) → List ℕ → Option (List ℕ)
unfolding check_prev
link_vma t v prev [] = check_prev t prev v >> some (v ∷ [])
link_vma t v prev (p ∷ ps) =
    let here = check_prev t prev v >> (check_vma_overlap (t v) (t p) >> some (v ∷ p ∷ ps)) in
    let later = link_vma t v (some p) ps >>= λ l. some (p ∷ l) in
    if ltb (t v).vm_start (t p).vm_start then here else later

pub insert_vma_struct : ℕ → Mm → Option Mm
unfolding link_vma
insert_vma_struct v m =
    assert (ltb (m.vmas v).vm_start (m.vmas v).vm_end)
    >> (link_vma m.vmas v none m.mmap_list >>= λ l.
        some (record m { mmap_list = l; map_count = m.map_count + 1 }))

-- `0`, `-E_INVAL` and `-E_NO_MEM`
pub data MapResult : Type 0 where
  done : MapResult
  e_inval : MapResult
  e_no_mem : MapResult

abbrev pub pgsize : ℕ
pgsize = 4096

abbrev pub round_down : ℕ → ℕ
round_down a = a - a % pgsize

abbrev pub user_access : (start end : ℕ) → Bool
user_access start end = leb 0x00200000 start && (ltb start end && leb end 0xB0000000)

-- `vma_create` on the memory that `kmalloc` gives.
pub vma_create : ℕ → (start end flags : ℕ) → Mm → Mm
vma_create v start end flags m = record m {
  vmas =
      update m.vmas v
        (record { vm_start = start; vm_end = end; vm_flags = flags; last_used_time = 0 });
}

pub add_vma : Option ℕ → (start end flags : ℕ) → Mm → Option (MapResult × Mm)
unfolding vma_create insert_vma_struct
add_vma none start end flags m = some (e_no_mem, m)
add_vma (some v) start end flags m =
    insert_vma_struct v (vma_create v start end flags m) >>= λ m'. some (done, m')

-- The part of `mm_map` behind `find_vma`.
pub map_found : Option ℕ → Option ℕ → (start end flags : ℕ) → Mm → Option (MapResult × Mm)
unfolding add_vma
map_found none mem start end flags m = add_vma mem start end flags m
map_found (some p) mem start end flags m =
    if ltb (m.vmas p).vm_start end then some (e_inval, m) else add_vma mem start end flags m

pub mm_map : Option ℕ → (addr len flags : ℕ) → Mm → Option (MapResult × Mm)
unfolding find_vma map_found
mm_map mem addr len flags m =
    let m1 = record m { time_now = add32 m.time_now 1 } in
    let start = round_down addr in
    let end = round_down (add32 (add32 addr len) (pgsize - 1)) in
    let (r, m2) = find_vma start m1 in
    if user_access start end then map_found r mem start end flags m2 else some (e_inval, m1)

-- `vm_flags & (1 << bit)`
abbrev pub has_flag : (bit : ℕ) → Vma → Bool
has_flag bit v = (v.vm_flags / 2 ^ bit) % 2 == 1

-- The tests of `user_mem_check` on an area, for an access from `start` on.
pub permits : (write : Bool) → ℕ → Vma → Bool
permits write start v =
    has_flag (if write then 1 else 0) v
    && not (write && (has_flag 3 v && ltb start (v.vm_start + pgsize)))

-- The loop of `user_mem_check`; without fuel it would go on.
pub check_range : (fuel : ℕ) → (write : Bool) → (start end : ℕ) → Mm → Option (Bool × Mm)
unfolding find_vma permits
check_range zero write start end m = none
check_range (suc k) write start end m =
    let (r, m1) = find_vma start m in
    let go_on : Option (Bool × Mm) = elim r [
      | none ↦ some (false, m1)
      | some p ↦
          let rest = check_range k write (m1.vmas p).vm_end end m1 in
          if permits write start (m1.vmas p) && leb (m1.vmas p).vm_start start
          then rest
          else some (false, m1)
    ] in
    if ltb start end then go_on else some (true, m)

pub user_mem_check : (fuel : ℕ) → (addr len : ℕ) → (write : Bool) → Mm → Option (Bool × Mm)
unfolding check_range
user_mem_check k addr len write m =
    if user_access addr (add32 addr len)
    then check_range k write addr (add32 addr len) m
    else some (false, m)
