-- ===== src/Bitmap/Bits.antt =====
-- The bits that a bitmap of kern/fs/sfs/bitmap.c counts as free.
use li_nos.Base.{
  ℕ, ◌+◌, ◌*◌, ◌/◌, ◌%◌, ◌^◌, ◌≤◌, ◌<◌, Bool, false, ◌&&◌, ◌≡◌, ◌∙◌, inl, inr, ap, arith,
  if◌then◌else◌, ◌==◌, ltb, update, test_bit, Bool-cases, ==_ne, ==_iff,
}
use li_nos.Bitmap.{Bitmap}

abbrev pub is_free : Bitmap → ℕ → Bool
is_free b i = ltb i (b.nwords * 32) && test_bit (b.words (i / 32)) (i % 32)

-- The words have 32 bits, there are enough of them, and the bits that are too many are not free.
pub record IsBitmap (b : Bitmap) : Type 0 where
  pub fits : (ix : ℕ) → b.words ix < 2 ^ 32
  pub enough : b.nbits ≤ b.nwords * 32
  pub tail_used : (i : ℕ) → b.nbits ≤ i → is_free b i ≡ false

-- One word is changed at one offset.
module _ (b : Bitmap) (ix o w : ℕ) (l : o < 32) where
  abbrev pub changed : Bitmap
  changed = record b { words = update b.words ix w }

  pub changed-is_free :
      (t : Bool)
      → ix < b.nwords
      → ((p : ℕ) → test_bit w p ≡ (if p == o then t else test_bit (b.words ix) p))
      → (i : ℕ) → is_free changed i ≡ (if i == ix * 32 + o then t else is_free b i)
  changed-is_free t k h i = elim (Bool-cases (i / 32 == ix)) [
    | inl e ↦ ground (arith, h (i % 32), ap b.words ((==_iff (i / 32) ix).0 e))
    | inr n ↦ ground (arith)
  ]

  pub changed-IsBitmap :
      (t : Bool)
      → ix * 32 + o < b.nbits
      → IsBitmap b
      → w < 2 ^ 32
      → ((i : ℕ) → is_free changed i ≡ (if i == ix * 32 + o then t else is_free b i))
      → IsBitmap changed
  changed-IsBitmap t k v h f = record {
    fits = λ jx. ground (arith, v.fits jx);
    enough = v.enough;
    tail_used = λ i m. f i ∙ ground (arith, v.tail_used i m, ==_ne i (ix * 32 + o));
  }
