-- ===== src/Vmm/Allows.antt =====
-- Which addresses the areas of kern/mm/vmm.c allow an access to, and how many areas lie ahead.
use li_nos.Base.{
  ℕ, ◌+◌, ◌≤◌, ◌<◌, Bool, true, false, not, ◌&&◌, ◌||◌, List, [], ◌∷◌, ltb, leb, ◌==◌, ◌≡◌, arith,
  has, length, refl, sym, subst, inl, inr, ==_iff, Bool-cases, if◌then◌else◌,
}
use li_nos.Vmm.{Vma, contains, pgsize, has_flag, permits}
use li_nos.Vmm.Areas.{Ordered, is_mapped, SameAreas, is_mapped_before, has-Ordered}

-- An area allows reading by its first flag. It allows writing by its second, but not in the first page
-- of a stack.
abbrev pub allows : (write : Bool) → ℕ → Vma → Bool
allows true a v = has_flag 1 v && (not (has_flag 3 v) || leb (v.vm_start + pgsize) a)
allows false a v = has_flag 0 v

permits-allows : (w : Bool) (a : ℕ) (v : Vma) → permits w a v ≡ allows w a v
unfolding permits
permits-allows true a v = ground arith
permits-allows false a v = ground arith

-- Whether an area that allows the access holds the address.
abbrev pub may_access : (write : Bool) → (ℕ → Vma) → List ℕ → ℕ → Bool
may_access w t [] a = false
may_access w t (p ∷ ps) a = (contains (t p) a && allows w a (t p)) || may_access w t ps a

pub may_access-is_mapped :
    (w : Bool) (t : ℕ → Vma) (ps : List ℕ) (a : ℕ)
    → is_mapped t ps a ≡ false
    → may_access w t ps a ≡ false
may_access-is_mapped w t [] a h = refl
may_access-is_mapped w t (p ∷ ps) a h = ground (arith, may_access-is_mapped w t ps a (ground arith))

-- The one area that holds an address decides.
pub may_access-permits :
    (w : Bool) (t : ℕ → Vma) (lo p a : ℕ) (ps : List ℕ)
    → Ordered t lo ps
    → has p ps ≡ true
    → contains (t p) a ≡ true
    → may_access w t ps a ≡ permits w a (t p)
may_access-permits w t lo p a [] o h c = cc
may_access-permits w t lo p a (x ∷ ps) (b, z, o) h c = elim (Bool-cases (p == x)) [
  | inl e ↦
      let i = (==_iff p x).0 e in
      let d = subst (λ y. contains (t y) a ≡ true) i c in
      let n =
        may_access-is_mapped w t ps a (is_mapped_before t (t x).vm_end ps a o (ground arith)) in
      subst (λ y. may_access w t (x ∷ ps) a ≡ permits w a (t y)) (sym i)
        (ground (arith, n, permits-allows w a (t x)))
  | inr e ↦
      let r = may_access-permits w t (t x).vm_end p a ps o (ground arith) c in
      let q = has-Ordered t (t x).vm_end ps p o (ground arith) in ground (arith, r)
]

pub permits_later :
    (w : Bool) (a b : ℕ) (v : Vma) → a ≤ b → permits w a v ≡ true → permits w b v ≡ true
unfolding permits
permits_later w a b v l h = ground arith

-- How many areas end behind an address: the loop steps into each at most once.
abbrev pub remaining : (ℕ → Vma) → List ℕ → ℕ → ℕ
remaining t [] a = 0
remaining t (p ∷ ps) a = (if ltb a (t p).vm_end then 1 else 0) + remaining t ps a

remaining_later :
    (t : ℕ → Vma) (ps : List ℕ) (a b : ℕ) → a ≤ b → remaining t ps b ≤ remaining t ps a
remaining_later t [] a b l = omega arith
remaining_later t (p ∷ ps) a b l = ground (arith, remaining_later t ps a b l)

pub remaining_step :
    (t : ℕ → Vma) (p a : ℕ) (ps : List ℕ)
    → has p ps ≡ true
    → a < (t p).vm_end
    → remaining t ps (t p).vm_end < remaining t ps a
remaining_step t p a [] h l = cc
remaining_step t p a (x ∷ ps) h l = elim (Bool-cases (p == x)) [
  | inl e ↦
      let i = (==_iff p x).0 e in
      let r = remaining_later t ps a (t p).vm_end (omega arith) in ground (arith, i)
  | inr e ↦ let r = remaining_step t p a ps (ground arith) l in ground arith
]

pub remaining-length : (t : ℕ → Vma) (ps : List ℕ) (a : ℕ) → remaining t ps a ≤ length ps
remaining-length t [] a = omega arith
remaining-length t (p ∷ ps) a = ground (arith, remaining-length t ps a)

module _ (w : Bool) (t u : ℕ → Vma) (f : (q : ℕ) → SameAreas t u q) where
  pub permits-SameAreas : (a q : ℕ) → permits w a (u q) ≡ permits w a (t q)
  unfolding permits
  permits-SameAreas a q = let (b, e, g) = f q in rw b (rw g refl)

  pub may_access-SameAreas : (ps : List ℕ) (a : ℕ) → may_access w u ps a ≡ may_access w t ps a
  may_access-SameAreas [] a = refl
  may_access-SameAreas (p ∷ ps) a = ground (
    arith,
    f p,
    permits-SameAreas a p,
    permits-allows w a (t p),
    permits-allows w a (u p),
    may_access-SameAreas ps a,
  )

pub remaining-SameAreas :
    (t u : ℕ → Vma)
    → ((q : ℕ) → SameAreas t u q)
    → (ps : List ℕ) (a : ℕ) → remaining u ps a ≡ remaining t ps a
remaining-SameAreas t u f [] a = refl
remaining-SameAreas t u f (p ∷ ps) a = ground (arith, f p, remaining-SameAreas t u f ps a)
