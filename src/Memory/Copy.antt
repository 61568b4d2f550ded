-- ===== src/Memory/Copy.antt =====
-- memmove, memcpy and memset of libs/string.c.
use li_nos.Base.{
  ℕ, zero, suc, ◌+◌, ◌-◌, ◌≤◌, ◌<◌, Bool, true, false, ◌&&◌, ◌≡◌, ◌∙◌, ap, arith, inl, inr, ◌⊎◌,
  if◌then◌else◌, ◌==◌, ltb, leb, update, Bool-cases, ==_iff,
}
use li_nos.Memory.{Bytes, memcpy, copy_down, memmove, memset}

-- Whether an address lies among the `n` from `d` on.
abbrev pub in_block : (d n q : ℕ) → Bool
in_block d n q = leb d q && ltb q (d + n)

-- The memory after `n` bytes from `s` on were read at once and then written from `d` on.
abbrev pub copied : (d s n : ℕ) → Bytes → Bytes
copied d s n t q = if in_block d n q then t (s + (q - d)) else t q

-- One byte more at the front.
copied-suc :
    (d s n : ℕ) (t : Bytes) (q : ℕ)
    → (d ≤ s) ⊎ (s + suc n ≤ d)
    → copied (d + 1) (s + 1) n (update t d (t s)) q ≡ copied d s (suc n) t q
copied-suc d s n t q h = elim (Bool-cases (in_block (d + 1) n q)) [
  | inl e ↦
      let later : d < q = ground arith in
      let within : q < d + suc n = ground arith in
      let i : s + 1 + (q - (d + 1)) ≡ s + (q - d) = omega arith in
      ground (arith, ap t i, other h later within)
  | inr e ↦ elim (Bool-cases (q == d)) [
    | inl f ↦
        let g = (==_iff q d).0 f in let i : s + (q - d) ≡ s = omega arith in ground (arith, ap t i)
    | inr f ↦ ground arith
  ]
]
  where
    other :
        ((d ≤ s) ⊎ (s + suc n ≤ d)) → d < q → q < d + suc n → (s + 1 + (q - (d + 1)) == d) ≡ false
    other (inl i) a b = ground arith
    other (inr i) a b = ground arith

memcpy-copied :
    (d s n : ℕ) (t : Bytes) (q : ℕ) → (d ≤ s) ⊎ (s + n ≤ d) → memcpy d s n t q ≡ copied d s n t q
unfolding memcpy
memcpy-copied d s zero t q h = ground arith
memcpy-copied d s (suc n) t q h =
    memcpy-copied (d + 1) (s + 1) n (update t d (t s)) q (apart h) ∙ copied-suc d s n t q h
  where
    apart : ((d ≤ s) ⊎ (s + suc n ≤ d)) → (d + 1 ≤ s + 1) ⊎ (s + 1 + n ≤ d + 1)
    apart (inl i) = inl (omega arith)
    apart (inr i) = inr (omega arith)

-- One byte more at the end.
copied-end :
    (d s n : ℕ) (t : Bytes) (q : ℕ)
    → s ≤ d
    → copied d s n (update t (d + n) (t (s + n))) q ≡ copied d s (suc n) t q
copied-end d s n t q h = elim (Bool-cases (q == d + n)) [
  | inl e ↦
      let g = (==_iff q (d + n)).0 e in
      let i : s + (q - d) ≡ s + n = omega arith in ground (arith, ap t i)
  | inr e ↦ ground arith
]

copy_down-copied :
    (d s n : ℕ) (t : Bytes) (q : ℕ) → s ≤ d → copy_down (d + n) (s + n) n t q ≡ copied d s n t q
unfolding copy_down
copy_down-copied d s zero t q h = ground arith
copy_down-copied d s (suc n) t q h =
    let i : d + suc n - 1 ≡ d + n = omega arith in
    let j : s + suc n - 1 ≡ s + n = omega arith in
    rw i (rw j (copy_down-copied d s n (update t (d + n) (t (s + n))) q h ∙ copied-end d s n t q h))

-- memmove leaves the memory as if the n bytes from src on had been read at once before they are
-- written, however the two blocks overlap.
pub memmove-copied : (d s n : ℕ) (t : Bytes) (q : ℕ) → memmove d s n t q ≡ copied d s n t q
unfolding memmove
memmove-copied d s n t q = elim (Bool-cases (ltb s d && ltb d (s + n))) [
  | inl e ↦ rw e (copy_down-copied d s n t q (ground arith))
  | inr e ↦ rw e (memcpy-copied d s n t q (apart e (Bool-cases (leb d s))))
]
  where
    apart :
        (ltb s d && ltb d (s + n)) ≡ false
        → ((leb d s) ≡ true) ⊎ ((leb d s) ≡ false)
        → (d ≤ s) ⊎ (s + n ≤ d)
    apart e (inl i) = inl (ground arith)
    apart e (inr i) = inr (ground arith)

pub memset-in_block :
    (d c n : ℕ) (t : Bytes) (q : ℕ) → memset d c n t q ≡ (if in_block d n q then c else t q)
unfolding memset
memset-in_block d c zero t q = ground arith
memset-in_block d c (suc n) t q =
    memset-in_block (d + 1) c n (update t d c) q ∙ ground (arith, ==_iff q d)
