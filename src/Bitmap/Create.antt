-- ===== src/Bitmap/Create.antt =====
-- bitmap_create of kern/fs/sfs/bitmap.c: exactly the bits of the map are free.
use li_nos.Base.{
  ℕ, zero, suc, ◌+◌, ◌-◌, ◌*◌, ◌/◌, ◌%◌, ◌^◌, ◌≤◌, ◌<◌, true, false, not, ◌&&◌, ◌≡◌, ◌∙◌, inl, inr,
  refl, ap, arith, Option, some, if◌then◌else◌, ◌==◌, ltb, leb, test_bit, flip_bit, test-flip_bit,
  flip_bit-below, ones-bits, Bool-cases,
}
use li_nos.Bitmap.{Bitmap, mark_leftover, fresh, leftover_fits, bitmap_create}
use li_nos.Bitmap.Bits.{is_free, IsBitmap}

-- The bits from an offset on are turned over.
mark_leftover-test :
    (n o w p : ℕ)
    → test_bit (mark_leftover n o w) p
      ≡ (if leb o p && ltb p (o + n) then not (test_bit w p) else test_bit w p)
unfolding mark_leftover
mark_leftover-test zero o w p = ground arith
mark_leftover-test (suc n) o w p =
    mark_leftover-test n (o + 1) (flip_bit w o) p
    ∙ ground (arith, test-flip_bit w o p, ap (test_bit w))

mark_leftover-below : (n o w : ℕ) → o + n ≤ 32 → w < 2 ^ 32 → mark_leftover n o w < 2 ^ 32
unfolding mark_leftover
mark_leftover-below zero o w l h = h
mark_leftover-below (suc n) o w l h =
    mark_leftover-below n (o + 1) (flip_bit w o) (omega arith)
      (flip_bit-below 32 w o h (omega arith))

-- All bits below nbits are free, and no others.
abbrev pub Created : ℕ → Option (Option Bitmap) → Type 0
Created nbits r =
    (b : Bitmap) × (r ≡ some (some b)) × IsBitmap b × ((i : ℕ) → is_free b i ≡ ltb i nbits)

-- The last word, of which `o` bits belong to the map.
last_word-test :
    (o p : ℕ) → o < 32 → p < 32 → test_bit (mark_leftover (32 - o) o (2 ^ 32 - 1)) p ≡ ltb p o
last_word-test o p l m =
    mark_leftover-test (32 - o) o (2 ^ 32 - 1) p ∙ rw (ones-bits 32 p m) (ground arith)

fresh-is_free : (n w : ℕ) → 0 < n → w ≡ (n + 31) / 32 → (i : ℕ) → is_free (fresh n w) i ≡ ltb i n
unfolding fresh
fresh-is_free n w h e i = elim (Bool-cases (n == w * 32)) [
  | inl f ↦ rw f (rw (ones-bits 32 (i % 32) (omega arith)) (ground arith))
  | inr f ↦ rw f (elim (Bool-cases (i / 32 == w - 1)) [
    | inl g ↦ rw g (
        rw (last_word-test (n - (w - 1) * 32) (i % 32) (ground arith) (omega arith)) (ground arith))
    | inr g ↦ rw g (rw (ones-bits 32 (i % 32) (omega arith)) (ground arith))
  ])
]

fresh-fits : (n w : ℕ) → 0 < n → w ≡ (n + 31) / 32 → (ix : ℕ) → (fresh n w).words ix < 2 ^ 32
unfolding fresh
fresh-fits n w h e ix = elim (Bool-cases (n == w * 32)) [
  | inl f ↦ rw f (omega arith)
  | inr f ↦ rw f (elim (Bool-cases (ix == w - 1)) [
    | inl g ↦ rw g (
        mark_leftover-below (32 - (n - (w - 1) * 32)) (n - (w - 1) * 32) (2 ^ 32 - 1) (ground arith)
          (omega arith))
    | inr g ↦ rw g (omega arith)
  ])
]

fresh-enough : (n w : ℕ) → w ≡ (n + 31) / 32 → (fresh n w).nbits ≤ (fresh n w).nwords * 32
unfolding fresh
fresh-enough n w e = omega arith

fresh-nbits :
    (n w i : ℕ)
    → (fresh n w).nbits ≤ i
    → is_free (fresh n w) i ≡ ltb i n
    → is_free (fresh n w) i ≡ false
unfolding fresh
fresh-nbits n w i l e = e ∙ ground arith

create_runs :
    (n : ℕ)
    → 0 < n
    → n + 32 < 2 ^ 32
    → leftover_fits n ((n + 31) / 32) ≡ true
    → bitmap_create true true n ≡ some (some (fresh n ((n + 31) / 32)))
unfolding bitmap_create
create_runs n h l e =
    let g : (not (n == 0) && ltb n ((n + 32) % 2 ^ 32)) ≡ true = ground arith in
    let s : n + 32 - 1 ≡ n + 31 = omega arith in rw (g, s, e) refl

leftover : (n : ℕ) → 0 < n → leftover_fits n ((n + 31) / 32) ≡ true
unfolding leftover_fits
leftover n h = ground arith

-- When memory can be had, bitmap_create of a number of bits that is not zero, and that leaves room for
-- one more word below 2^32, does not fail its assertions: the bitmap is valid, and its free bits are
-- exactly those below the number.
pub bitmap_create-Created :
    (n : ℕ) → 0 < n → n + 32 < 2 ^ 32 → Created n (bitmap_create true true n)
bitmap_create-Created n h l =
    let w = (n + 31) / 32 in
    let free = fresh-is_free n w h refl in
    (
      fresh n w,
      create_runs n h l (leftover n h),
      record {
        fits = fresh-fits n w h refl;
        enough = fresh-enough n w refl;
        tail_used = λ i m. fresh-nbits n w i m (free i);
      },
      free,
    )
