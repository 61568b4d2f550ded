-- ===== src/Bitmap/Search.antt =====
-- What the search of bitmap_alloc in kern/fs/sfs/bitmap.c finds.
use li_nos.Base.{
  ℕ, zero, suc, ◌+◌, ◌^◌, ◌≤◌, ◌<◌, true, false, ◌≡◌, ◌≢◌, ◌∙◌, ◌⊎◌, inl, inr, refl, arith, none,
  some, ◌==◌, test_bit, bits-zero, Bool-cases, ==_iff,
}
use li_nos.Bitmap.{search_offset, search_word}

-- The first set bit among `n` offsets from `o` on.
abbrev pub FirstBit : (n w o : ℕ) → Type 0
FirstBit n w o =
    (p : ℕ) × (search_offset n w o ≡ some p)
    × (o ≤ p)
    × (p < o + n)
    × (test_bit w p ≡ true)
    × ((q : ℕ) → o ≤ q → q < p → test_bit w q ≡ false)

abbrev pub NoBit : (n w o : ℕ) → Type 0
NoBit n w o = (q : ℕ) → o ≤ q → q < o + n → test_bit w q ≡ false

stops_at : (n w o : ℕ) → test_bit w o ≡ true → search_offset (suc n) w o ≡ some o
unfolding search_offset
stops_at n w o e = rw e refl

goes_past :
    (n w o : ℕ) → test_bit w o ≡ false → search_offset (suc n) w o ≡ search_offset n w (o + 1)
unfolding search_offset
goes_past n w o e = rw e refl

earlier_clear :
    (w o p q : ℕ)
    → test_bit w o ≡ false
    → (o + 1 ≤ q → q < p → test_bit w q ≡ false)
    → o ≤ q
    → q < p
    → test_bit w q ≡ false
earlier_clear w o p q e f a b = elim (Bool-cases (q == o)) [
  | inl i ↦ rw ((==_iff q o).0 i) e
  | inr i ↦ f (ground arith) b
]

first_bit : (n w o : ℕ) → FirstBit n w o ⊎ NoBit n w o
first_bit zero w o = inr (λ q a b. absurd (omega arith))
first_bit (suc n) w o = elim (Bool-cases (test_bit w o)) [
  | inl e ↦ inl (o, stops_at n w o e, omega arith, omega arith, e, λ q a b. absurd (omega arith))
  | inr e ↦ elim (first_bit n w (o + 1)) [
    | inl (p, r, a, b, t, f) ↦ inl (
      p,
      goes_past n w o e ∙ r,
      omega arith,
      omega arith,
      t,
      λ q x y. earlier_clear w o p q e (f q) x y,
    )
    | inr f ↦ inr (λ q x y. earlier_clear w o (o + suc n) q e (λ c d. f q c (omega arith)) x y)
  ]
]

-- The inner loop ends with a bit when the word is not zero, so `assert(0)` is not met.
word_has_bit : (w : ℕ) → w < 2 ^ 32 → w ≢ 0 → FirstBit 32 w 0
word_has_bit w h n = elim (first_bit 32 w 0) [
  | inl f ↦ f
  | inr f ↦ absurd (n (bits-zero 32 w h (λ o l. f o (omega arith) (omega arith))))
]

-- The first word from `i` on that is not zero, and its first bit.
abbrev pub FirstWord : (n : ℕ) → (ℕ → ℕ) → (i : ℕ) → Type 0
FirstWord n m i =
    (ix : ℕ) × (o : ℕ) × (search_word n m i ≡ some (some (ix, o)))
    × (i ≤ ix)
    × (ix < i + n)
    × (o < 32)
    × (test_bit (m ix) o ≡ true)
    × ((q : ℕ) → q < o → test_bit (m ix) q ≡ false)
    × ((jx : ℕ) → i ≤ jx → jx < ix → m jx ≡ 0)

abbrev pub NoWord : (n : ℕ) → (ℕ → ℕ) → (i : ℕ) → Type 0
NoWord n m i = (search_word n m i ≡ some none) × ((jx : ℕ) → i ≤ jx → jx < i + n → m jx ≡ 0)

skips_word :
    (n : ℕ) (m : ℕ → ℕ) (i : ℕ) → m i ≡ 0 → search_word (suc n) m i ≡ search_word n m (i + 1)
unfolding search_word
skips_word n m i e = rw e refl

takes_word :
    (n : ℕ) (m : ℕ → ℕ) (i o : ℕ)
    → (m i == 0) ≡ false
    → search_offset 32 (m i) 0 ≡ some o
    → search_word (suc n) m i ≡ some (some (i, o))
unfolding search_word
takes_word n m i o e f = rw (e, f) refl

earlier_zero : (m : ℕ → ℕ) (i jx : ℕ) → m i ≡ 0 → (i + 1 ≤ jx → m jx ≡ 0) → i ≤ jx → m jx ≡ 0
earlier_zero m i jx e f a = elim (Bool-cases (jx == i)) [
  | inl h ↦ rw ((==_iff jx i).0 h) e
  | inr h ↦ f (ground arith)
]

pub first_word :
    (n : ℕ) (m : ℕ → ℕ) (i : ℕ) → ((ix : ℕ) → m ix < 2 ^ 32) → FirstWord n m i ⊎ NoWord n m i
unfolding search_word
first_word zero m i fits = inr (refl, λ jx a b. absurd (omega arith))
first_word (suc n) m i fits = elim (Bool-cases (m i == 0)) [
  | inl e ↦
      let z = (==_iff (m i) 0).0 e in
      elim (first_word n m (i + 1) fits) [
        | inl (ix, o, r, a, b, l, t, f, g) ↦ inl (
          ix,
          o,
          skips_word n m i z ∙ r,
          omega arith,
          omega arith,
          l,
          t,
          f,
          λ jx x y. earlier_zero m i jx z (λ c. g jx c y) x,
        )
        | inr (r, g) ↦
            inr (
              skips_word n m i z ∙ r,
              λ jx x y. earlier_zero m i jx z (λ c. g jx c (omega arith)) x,
            )
      ]
  | inr e ↦
      let (o, r, a, b, t, f) = word_has_bit (m i) (fits i) (λ h. ground (arith)) in
      inl (
        i,
        o,
        takes_word n m i o e r,
        omega arith,
        omega arith,
        b,
        t,
        (λ q l. f q (omega arith) l),
        λ jx x y. absurd (omega arith),
      )
]
