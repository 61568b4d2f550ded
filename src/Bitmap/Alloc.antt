-- ===== src/Bitmap/Alloc.antt =====
-- bitmap_alloc, bitmap_free and bitmap_test of kern/fs/sfs/bitmap.c on the free bits.
use li_nos.Base.{
  ℕ, ◌+◌, ◌*◌, ◌/◌, ◌%◌, ◌≤◌, ◌<◌, true, false, ◌≡◌, ◌∙◌, ◌⊎◌, inl, inr, refl, ap, arith, Option,
  none, some, if◌then◌else◌, ◌==◌, ltb, update, test_bit, flip_bit, set_bit, test-flip_bit,
  test-set_bit, flip_bit-below, set_bit-below, zero-bits, Bool-cases, ==_iff,
}
use li_nos.Bitmap.{
  Bitmap, search_word, take_bit, bitmap_alloc, bitmap_free, bitmap_test, bitmap_translate,
}
use li_nos.Bitmap.Bits.{is_free, IsBitmap, changed, changed-is_free, changed-IsBitmap}
use li_nos.Bitmap.Search.{first_word}

-- What bitmap_alloc does: it takes the first free bit, or there is none.
abbrev pub Allocated : Bitmap → Option (Option ℕ × Bitmap) → Type 0
Allocated b r =
    ((i : ℕ) × (b' : Bitmap) × (r ≡ some (some i, b'))
      × (i < b.nbits)
      × (is_free b i ≡ true)
      × ((j : ℕ) → j < i → is_free b j ≡ false)
      × IsBitmap b'
      × ((j : ℕ) → is_free b' j ≡ (if j == i then false else is_free b j)))
    ⊎ ((r ≡ some (none, b)) × ((j : ℕ) → is_free b j ≡ false))

alloc_runs :
    (b : Bitmap) (x : Option (ℕ × ℕ))
    → search_word b.nwords b.words 0 ≡ some x
    → bitmap_alloc b ≡ some (take_bit b x)
unfolding bitmap_alloc
alloc_runs b x e = rw e refl

module _ (b : Bitmap) where
  free_at :
      (ix o : ℕ)
      → ix < b.nwords
      → o < 32
      → test_bit (b.words ix) o ≡ true
      → is_free b (ix * 32 + o) ≡ true
  free_at ix o k l t =
      let d : (ix * 32 + o) / 32 ≡ ix = omega arith in
      let m : (ix * 32 + o) % 32 ≡ o = omega arith in rw (d, m, t) (ground arith)

  zero_word : (j : ℕ) → b.words (j / 32) ≡ 0 → is_free b j ≡ false
  zero_word j e = rw e (rw (zero-bits (j % 32)) (ground arith))

  -- Bits before the first set bit of the first word that is not zero.
  before :
      (ix o : ℕ)
      → o < 32
      → ((q : ℕ) → q < o → test_bit (b.words ix) q ≡ false)
      → ((jx : ℕ) → 0 ≤ jx → jx < ix → b.words jx ≡ 0)
      → (j : ℕ) → j < ix * 32 + o
      → is_free b j ≡ false
  before ix o small f g j l = elim (Bool-cases (j / 32 == ix)) [
    | inl e ↦ ground (arith, f (j % 32), ap b.words ((==_iff (j / 32) ix).0 e))
    | inr n ↦ zero_word j (g (j / 32) (omega arith) (ground arith))
  ]

  nothing : ((jx : ℕ) → 0 ≤ jx → jx < 0 + b.nwords → b.words jx ≡ 0) → (j : ℕ) → is_free b j ≡ false
  nothing g j = elim (Bool-cases (ltb (j / 32) b.nwords)) [
    | inl e ↦ zero_word j (g (j / 32) (omega arith) (ground arith))
    | inr n ↦ ground arith
  ]

-- From a valid bitmap, bitmap_alloc never fails its assertion: it takes the first free bit, which is
-- below nbits, keeps the bitmap valid and every other bit as it was; or no bit is free, and nothing
-- changes.
pub bitmap_alloc-Allocated : (b : Bitmap) → IsBitmap b → Allocated b (bitmap_alloc b)
unfolding take_bit
bitmap_alloc-Allocated b v = elim (first_word b.nwords b.words 0 v.fits) [
  | inl (ix, o, r, a, k, l, t, f, g) ↦
      let free : is_free b (ix * 32 + o) ≡ true = free_at b ix o (omega arith) l t in
      let inside : ix * 32 + o < b.nbits = ground (arith, v.tail_used (ix * 32 + o)) in
      let after =
        changed-is_free b ix o (flip_bit (b.words ix) o) l false (omega arith)
          (λ p. test-flip_bit (b.words ix) o p ∙ rw t refl) in
      inl (
        ix * 32 + o,
        changed b ix o (flip_bit (b.words ix) o) l,
        alloc_runs b (some (ix, o)) r,
        inside,
        free,
        before b ix o l f g,
        changed-IsBitmap b ix o (flip_bit (b.words ix) o) l false inside v
            (flip_bit-below 32 (b.words ix) o (v.fits ix) l) after,
        after,
      )
  | inr (r, g) ↦ inr (alloc_runs b none r, nothing b g)
]

-- What bitmap_free does.
abbrev pub Freed : Bitmap → ℕ → Option Bitmap → Type 0
Freed b i r =
    (b' : Bitmap) × (r ≡ some b')
    × IsBitmap b'
    × ((j : ℕ) → is_free b' j ≡ (if j == i then true else is_free b j))

bitmap_test-is_free :
    (b : Bitmap) (i : ℕ) → IsBitmap b → i < b.nbits → bitmap_test b i ≡ some (is_free b i)
unfolding bitmap_test bitmap_translate
bitmap_test-is_free b i v l =
    let k : ltb i b.nbits ≡ true = ground arith in
    let h : ltb i (b.nwords * 32) ≡ true = ground (arith, v.enough) in rw (k, h) refl

free_runs :
    (b : Bitmap) (i : ℕ)
    → i < b.nbits
    → test_bit (b.words (i / 32)) (i % 32) ≡ false
    → bitmap_free b i
      ≡ some (record b { words = update b.words (i / 32) (set_bit (b.words (i / 32)) (i % 32)) })
unfolding bitmap_free bitmap_translate
free_runs b i l e = let k : ltb i b.nbits ≡ true = ground arith in rw (k, e) refl

-- From a valid bitmap, bitmap_free of a bit below nbits that is in use does not fail its assertions,
-- makes that bit free, and keeps the bitmap valid and every other bit as it was.
pub bitmap_free-Freed :
    (b : Bitmap) (i : ℕ)
    → IsBitmap b
    → i < b.nbits
    → is_free b i ≡ false
    → Freed b i (bitmap_free b i)
bitmap_free-Freed b i v l u =
    let w = set_bit (b.words (i / 32)) (i % 32) in
    let small : i % 32 < 32 = omega arith in
    let same : i / 32 * 32 + i % 32 ≡ i = omega arith in
    let clear : test_bit (b.words (i / 32)) (i % 32) ≡ false = ground (arith, v.enough) in
    let after =
      changed-is_free b (i / 32) (i % 32) w small true (omega (arith, v.enough))
        (test-set_bit (b.words (i / 32)) (i % 32)) in
    (
      changed b (i / 32) (i % 32) w small,
      free_runs b i l clear,
      changed-IsBitmap b (i / 32) (i % 32) w small true (omega arith) v
          (set_bit-below 32 (b.words (i / 32)) (i % 32) (v.fits (i / 32)) small) after,
      λ j. after j ∙ rw same refl,
    )
