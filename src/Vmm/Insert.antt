-- ===== src/Vmm/Insert.antt =====
-- insert_vma_struct and mm_map of kern/mm/vmm.c.
use li_nos.Base.{
  ℕ, suc, ◌≤◌, ◌<◌, true, false, ◌||◌, List, [], ◌∷◌, Option, none, some, ltb, leb, ◌==◌, ◌≡◌,
  arith, has, length, All, refl, inl, inr, Bool-cases, ◌⊎◌, assert, assert-eq-some, >>=-eq-some,
  ◌>>◌, ◌>>=◌,
}
use li_nos.Vmm.{Vma, contains, check_vma_overlap, check_prev, link_vma}
use li_nos.Vmm.Areas.{Ordered, is_mapped}

-- The area shares no address with the list.
abbrev pub Unmapped : Vma → (ℕ → Vma) → List ℕ → Type 0
Unmapped v t ps = All (λ p. ((t p).vm_end ≤ v.vm_start) ⊎ (v.vm_end ≤ (t p).vm_start)) ps

-- The areas before the place end where the loop stands.
abbrev pub Behind : (ℕ → Vma) → ℕ → ℕ → Option ℕ → Type 0
Behind t v lo none = Unit
Behind t v lo (some p) = ((t p).vm_start < (t p).vm_end) × ((t p).vm_end ≡ lo)

-- `v` starts where the area before the place ends, or later.
abbrev pub After : (ℕ → Vma) → ℕ → Option ℕ → Type 0
After t v none = Unit
After t v (some p) = (t p).vm_end ≤ (t v).vm_start

abbrev pub Linked : (ℕ → Vma) → ℕ → ℕ → List ℕ → List ℕ → Type 0
Linked t v lo ps l =
    Ordered t lo l
    × ((a : ℕ) → is_mapped t l a ≡ (contains (t v) a || is_mapped t ps a))
    × (length l ≡ suc (length ps))
    × ((p : ℕ) → has p l ≡ ((p == v) || has p ps))

check_prev_passes :
    (t : ℕ → Vma) (v lo : ℕ) (prev : Option ℕ)
    → (t v).vm_start < (t v).vm_end
    → lo ≤ (t v).vm_start
    → Behind t v lo prev
    → check_prev t prev v ≡ some tt
unfolding check_prev check_vma_overlap
check_prev_passes t v lo none z l b = refl
check_prev_passes t v lo (some p) z l (c, e) = ground arith

overlap_passes :
    (x y : Vma) (l : List ℕ)
    → x.vm_start < x.vm_end
    → x.vm_end ≤ y.vm_start
    → y.vm_start < y.vm_end
    → (check_vma_overlap x y >> some l) ≡ some l
unfolding check_vma_overlap
overlap_passes x y l a b c = ground arith

pub link_vma-Linked :
    (t : ℕ → Vma) (v lo : ℕ) (prev : Option ℕ) (ps : List ℕ)
    → (t v).vm_start < (t v).vm_end
    → lo ≤ (t v).vm_start
    → Behind t v lo prev
    → Ordered t lo ps
    → Unmapped (t v) t ps
    → (l : List ℕ) × (link_vma t v prev ps ≡ some l) × Linked t v lo ps l
unfolding link_vma check_vma_overlap
link_vma-Linked t v lo prev [] z l b o u = (
  v ∷ [],
  rw (check_prev_passes t v lo prev z l b) refl,
  ((l, z, tt), (λ a. refl), refl, λ p. refl),
)
link_vma-Linked t v lo prev (p ∷ ps) z l b (c, d, o) (up, u) =
    elim (Bool-cases (ltb (t v).vm_start (t p).vm_start)) [
      | inl e ↦
          let gap : (t v).vm_end ≤ (t p).vm_start = ground arith in
          (
            v ∷ p ∷ ps,
            rw e (
                rw (check_prev_passes t v lo prev z l b)
                  (overlap_passes (t v) (t p) (v ∷ p ∷ ps) z gap d)),
            ((l, z, (gap, d, o)), (λ a. refl), refl, λ q. refl),
          )
      | inr e ↦
          let gap : (t p).vm_end ≤ (t v).vm_start = ground arith in
          let (rs, f, (r, g, n, h)) =
            link_vma-Linked t v (t p).vm_end (some p) ps z gap (d, refl) o u in
          (
            p ∷ rs,
            rw e (rw f refl),
            ((c, d, r), (λ a. ground (arith, g a)), omega arith, λ q. ground (arith, h q)),
          )
    ]

overlap_passed :
    (x y : Vma) (m : Option (List ℕ)) (l : List ℕ)
    → (check_vma_overlap x y >> m) ≡ some l
    → (m ≡ some l) × (x.vm_end ≤ y.vm_start)
unfolding check_vma_overlap
overlap_passed x y m l e =
    let (a, e1) = assert-eq-some (ltb x.vm_start x.vm_end) _ (assoc e) in
    let (b, e2) = assert-eq-some (leb x.vm_end y.vm_start) _ e1 in
    let (c, e3) = assert-eq-some (ltb y.vm_start y.vm_end) _ e2 in (e3, ground arith)
  where
    assoc :
        (check_vma_overlap x y >> m) ≡ some l
        → (assert (ltb x.vm_start x.vm_end)
            >> (assert (leb x.vm_end y.vm_start) >> (assert (ltb y.vm_start y.vm_end) >> m)))
          ≡ some l
    assoc h = ground arith

-- The areas behind one that ends behind `v` do too.
Ordered-Unmapped :
    (t : ℕ → Vma) (v : Vma) (lo : ℕ) (ps : List ℕ)
    → Ordered t lo ps
    → v.vm_end ≤ lo
    → Unmapped v t ps
Ordered-Unmapped t v lo [] o l = tt
Ordered-Unmapped t v lo (p ∷ ps) (c, d, o) l =
    (inr (omega arith), Ordered-Unmapped t v (t p).vm_end ps o (omega arith))

prev_passed :
    (t : ℕ → Vma) (v lo : ℕ) (prev : Option ℕ) (m : Option (List ℕ)) (l : List ℕ)
    → Behind t v lo prev
    → (check_prev t prev v >> m) ≡ some l
    → (m ≡ some l) × After t v prev
unfolding check_prev
prev_passed t v lo none m l b e = (e, tt)
prev_passed t v lo (some p) m l b e = overlap_passed (t p) (t v) m l e

link_here :
    (t : ℕ → Vma) (v : ℕ) (prev : Option ℕ) (p : ℕ) (ps l : List ℕ)
    → ltb (t v).vm_start (t p).vm_start ≡ true
    → link_vma t v prev (p ∷ ps) ≡ some l
    → (check_prev t prev v >> (check_vma_overlap (t v) (t p) >> some (v ∷ p ∷ ps))) ≡ some l
unfolding link_vma
link_here t v prev p ps l f e = cc

link_later :
    (t : ℕ → Vma) (v : ℕ) (prev : Option ℕ) (p : ℕ) (ps l : List ℕ)
    → ltb (t v).vm_start (t p).vm_start ≡ false
    → link_vma t v prev (p ∷ ps) ≡ some l
    → (rs : List ℕ) × (link_vma t v (some p) ps ≡ some rs)
unfolding link_vma
link_later t v prev p ps l f e =
    let r : (link_vma t v (some p) ps >>= λ rs. some (p ∷ rs)) ≡ some l = cc in
    let (rs, e1, e2) = >>=-eq-some (link_vma t v (some p) ps) _ r in (rs, e1)

After-earlier :
    (t : ℕ → Vma) (v lo p : ℕ) (prev : Option ℕ)
    → Behind t v lo prev
    → lo ≤ (t p).vm_start
    → (t p).vm_start ≤ (t v).vm_start
    → After t v prev
After-earlier t v lo p none b l k = tt
After-earlier t v lo p (some q) (c, d) l k = omega arith

-- An insertion that does not panic had room.
pub link_vma-Unmapped :
    (t : ℕ → Vma) (v lo : ℕ) (prev : Option ℕ) (ps l : List ℕ)
    → Behind t v lo prev
    → Ordered t lo ps
    → link_vma t v prev ps ≡ some l
    → After t v prev × Unmapped (t v) t ps
unfolding link_vma
link_vma-Unmapped t v lo prev [] l b o e = ((prev_passed t v lo prev _ l b e).1, tt)
link_vma-Unmapped t v lo prev (p ∷ ps) l b (c, d, o) e =
    elim (Bool-cases (ltb (t v).vm_start (t p).vm_start)) [
      | inl f ↦
          let (e1, a) = prev_passed t v lo prev _ l b (link_here t v prev p ps l f e) in
          let (e2, g) = overlap_passed (t v) (t p) _ l e1 in
          (a, (inr g, Ordered-Unmapped t (t v) (t p).vm_end ps o (omega arith)))
      | inr f ↦
          let (rs, e1) = link_later t v prev p ps l f e in
          let (g, u) = link_vma-Unmapped t v (t p).vm_end (some p) ps rs (d, refl) o e1 in
          (After-earlier t v lo p prev b c (ground arith), (inl g, u))
    ]
