-- ===== src/Vmm/Access.antt =====
-- user_mem_check of kern/mm/vmm.c.
use li_nos.Base.{
  ℕ, zero, suc, ◌≤◌, ◌<◌, Bool, true, false, ◌&&◌, Option, none, some, ltb, leb, ◌≡◌, arith, has,
  length, refl, sym, subst, inl, inr, Bool-cases, ap, if◌then◌else◌, ◌∙◌, ◌↔◌,
}
use li_nos.Kernel.{add32}
use li_nos.Vmm.{Mm, find_vma, user_access, permits, check_range, user_mem_check}
use li_nos.Vmm.Areas.{IsValid, SameAreas}
use li_nos.Vmm.Find.{Found, find_vma-Found}
use li_nos.Vmm.Allows.{
  may_access, may_access-is_mapped, may_access-permits, permits_later, remaining, remaining_step,
  remaining-length, permits-SameAreas, may_access-SameAreas, remaining-SameAreas,
}

-- One round of the loop, by what `find_vma` returns.
abbrev round : (k : ℕ) (w : Bool) (start end : ℕ) → Option ℕ × Mm → Option (Bool × Mm)
round k w start end (r, m1) = elim r [
  | none ↦ some (false, m1)
  | some p ↦
      if permits w start (m1.vmas p) && leb (m1.vmas p).vm_start start
      then check_range k w (m1.vmas p).vm_end end m1
      else some (false, m1)
]

check_range-round :
    (k : ℕ) (w : Bool) (start end : ℕ) (m : Mm)
    → ltb start end ≡ true
    → check_range (suc k) w start end m ≡ round k w start end (find_vma start m)
unfolding check_range
check_range-round k w start end m e = rw e refl

-- Every address of the range may be accessed.
abbrev pub AllAccess : Bool → (start end : ℕ) → Mm → Type 0
AllAccess w start end m = (a : ℕ) → start ≤ a → a < end → may_access w m.vmas m.mmap_list a ≡ true

abbrev pub Checked : Bool → (start end : ℕ) → Mm → Option (Bool × Mm) → Type 0
Checked w start end m r =
    (b : Bool) × (m' : Mm) × (r ≡ some (b, m'))
    × IsValid m'
    × ((b ≡ true) ↔ AllAccess w start end m)

check_range_end :
    (k : ℕ) (w : Bool) (start end : ℕ) (m : Mm)
    → ltb start end ≡ false
    → check_range (suc k) w start end m ≡ some (true, m)
unfolding check_range
check_range_end k w start end m e = rw e refl

access-Found :
    (w : Bool) (m m1 : Mm)
    → m1.mmap_list ≡ m.mmap_list
    → ((q : ℕ) → SameAreas m.vmas m1.vmas q)
    → (a : ℕ) → may_access w m1.vmas m1.mmap_list a ≡ may_access w m.vmas m.mmap_list a
access-Found w m m1 x y a =
    ap (λ ps. may_access w m1.vmas ps a) x ∙ may_access-SameAreas w m.vmas m1.vmas y m.mmap_list a

fewer_ahead :
    (k start p : ℕ) (m m1 : Mm)
    → has p m.mmap_list ≡ true
    → start < (m.vmas p).vm_end
    → remaining m.vmas m.mmap_list start < suc k
    → m1.mmap_list ≡ m.mmap_list
    → ((q : ℕ) → SameAreas m.vmas m1.vmas q)
    → remaining m1.vmas m1.mmap_list (m1.vmas p).vm_end < k
fewer_ahead k start p m m1 h l r x y =
    let (yb, ye, yf) = y p in
    let same =
      ap (λ ps. remaining m1.vmas ps (m1.vmas p).vm_end) x
      ∙ (remaining-SameAreas m.vmas m1.vmas y m.mmap_list (m1.vmas p).vm_end
          ∙ ap (λ a. remaining m.vmas m.mmap_list a) ye) in
    let step = remaining_step m.vmas p start m.mmap_list h l in omega arith

-- A round of the loop, when the rounds that follow are right.
round-Checked :
    (k : ℕ) (w : Bool) (start end : ℕ) (m : Mm) (r : Option ℕ) (m1 : Mm)
    → IsValid m
    → start < end
    → remaining m.vmas m.mmap_list start < suc k
    → Found start m r m1
    → ((s : ℕ)
        → remaining m1.vmas m1.mmap_list s < k
        → IsValid m1
        → Checked w s end m1 (check_range k w s end m1))
    → Checked w start end m (round k w start end (r, m1))
round-Checked k w start end m none m1 v z l (f, e) ih = (
  false,
  m1,
  refl,
  subst IsValid (sym e) v,
  (
    (λ b. cc),
    λ all. sym (may_access-is_mapped w m.vmas m.mmap_list start f) ∙ all start (omega arith) z,
  ),
)
round-Checked k w start end m (some p) m1 v z l ((h, c), i, v1, x, y) ih =
    elim (Bool-cases (permits w start (m.vmas p))) [
      | inl g ↦
          let s = (m1.vmas p).vm_end in
          let (yb, ye, yf) = y p in
          let fewer : remaining m1.vmas m1.mmap_list s < k =
            fewer_ahead k start p m m1 h (ground arith) l x y in
          let (b, m', eb, vb, (to, from)) = ih s fewer v1 in
          let begun : leb (m1.vmas p).vm_start start ≡ true = ground arith in
          (
            b,
            m',
            rw (permits-SameAreas w m.vmas m1.vmas y start p ∙ g) (rw begun eb),
            vb,
            (
              (λ bt a la lb. elim (Bool-cases (ltb a s)) [
                | inl here ↦
                    may_access-permits w m.vmas 0 p a m.mmap_list v.0 h (ground arith)
                    ∙ permits_later w start a (m.vmas p) la g
                | inr later ↦ sym (access-Found w m m1 x y a) ∙ to bt a (ground arith) lb
              ]),
              λ all. from (λ a la lb. access-Found w m m1 x y a ∙ all a (ground arith) lb),
            ),
          )
      | inr g ↦ (
        false,
        m1,
        rw (permits-SameAreas w m.vmas m1.vmas y start p ∙ g) refl,
        v1,
        (
          (λ b. cc),
          λ all.
              sym (may_access-permits w m.vmas 0 p start m.mmap_list v.0 h c ∙ g)
              ∙ all start (omega arith) z,
        ),
      )
    ]

-- The loop returns when its fuel exceeds the number of areas ahead.
check_range-Checked :
    (k : ℕ) (w : Bool) (start end : ℕ) (m : Mm)
    → IsValid m
    → remaining m.vmas m.mmap_list start < k
    → Checked w start end m (check_range k w start end m)
check_range-Checked zero w start end m v l = ground arith
check_range-Checked (suc k) w start end m v l = elim (Bool-cases (ltb start end)) [
  | inr e ↦
      (true, m, check_range_end k w start end m e, v, ((λ b a la lb. ground arith), λ all. refl))
  | inl e ↦ subst (Checked w start end m) (sym (check_range-round k w start end m e)) (
      round-Checked k w start end m (find_vma start m).0 (find_vma start m).1 v (ground arith) l
        (find_vma-Found start m v)
        (λ s r v1. check_range-Checked k w s end (find_vma start m).1 v1 r))
]

-- From a valid address space, with one unit of fuel more than there are areas, user_mem_check returns,
-- and the address space stays valid. Its result is true exactly when the range is one of user
-- addresses and every address of it lies in an area with the flag for the access, and for writing not
-- in the first page of a stack.
pub user_mem_check-AllAccess :
    (addr len : ℕ) (w : Bool) (m : Mm)
    → IsValid m
    → (b : Bool) × (m' : Mm) × (user_mem_check (suc (length m.mmap_list)) addr len w m
        ≡ some (b, m'))
      × IsValid m'
      × ((b ≡ true)
          ↔ ((user_access addr (add32 addr len) ≡ true) × AllAccess w addr (add32 addr len) m))
unfolding user_mem_check
user_mem_check-AllAccess addr len w m v = elim (Bool-cases (user_access addr (add32 addr len))) [
  | inl u ↦
      let (b, m', e, v', (to, from)) =
        check_range-Checked (suc (length m.mmap_list)) w addr (add32 addr len) m v
          (omega (arith, remaining-length m.vmas m.mmap_list addr)) in
      (b, m', rw u e, v', ((λ bt. (u, to bt)), λ r. from r.1))
  | inr u ↦ (false, m, rw u refl, v, ((λ b. cc), λ r. sym u ∙ r.0))
]
