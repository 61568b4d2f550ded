-- ===== src/Bitmap.antt =====
-- kern/fs/sfs/bitmap.c. A set bit is a free one. The words are a table by index, and numbers below
-- 2^32; what kmalloc returns is an argument, the words of the memory or none. `none` as the result of
-- an operation is a failed `assert`.
pub mod Bits
pub mod Search
pub mod Alloc
pub mod Create
mod Tests
use li_nos.Base.{
  ℕ, zero, suc, ◌+◌, ◌-◌, ◌*◌, ◌/◌, ◌%◌, ◌^◌, Bool, true, false, not, ◌&&◌, Option, none, some,
  ◌>>=◌, ◌>>◌, assert, if◌then◌else◌, ◌==◌, ltb, update, test_bit, flip_bit, set_bit,
}

abbrev pub word_bits : ℕ
word_bits = 32

pub record Bitmap : Type 0 where
  pub nbits : ℕ
  pub nwords : ℕ
  pub words : ℕ → ℕ

-- `for (; overbits < WORD_BITS; overbits ++) map[ix] ^= (1 << overbits);`, where `left` rounds are left.
pub mark_leftover : (left overbits word : ℕ) → ℕ
mark_leftover zero o w = w
mark_leftover (suc n) o w = mark_leftover n (o + 1) (flip_bit w o)

-- After memset, with the bits of the last word that are too many marked as in use.
pub fresh : (nbits nwords : ℕ) → Bitmap
fresh nbits nwords =
    let full : ℕ → ℕ = λ ix. 2 ^ word_bits - 1 in
    let ix = nwords - 1 in
    let overbits = nbits - ix * word_bits in
    let marked = update full ix (mark_leftover (word_bits - overbits) overbits (full ix)) in
    record {
      nbits = nbits;
      nwords = nwords;
      words = if nbits == nwords * word_bits then full else marked;
    }

-- The assertions on the leftover bits.
pub leftover_fits : (nbits nwords : ℕ) → Bool
leftover_fits nbits nwords =
    let ix = nwords - 1 in
    let overbits = nbits - ix * word_bits in
    if nbits == nwords * word_bits
    then true
    else (nbits / word_bits == ix) && (ltb 0 overbits && ltb overbits word_bits)

-- The arguments tell whether the two calls of kmalloc succeed; the inner `none` is NULL.
pub bitmap_create : (bitmap_ok map_ok : Bool) (nbits : ℕ) → Option (Option Bitmap)
bitmap_create bitmap_ok map_ok nbits =
    let nwords = (nbits + word_bits - 1) / word_bits in
    let made = assert (leftover_fits nbits nwords) >> some (some (fresh nbits nwords)) in
    assert (not (nbits == 0) && ltb nbits ((nbits + word_bits) % 2 ^ 32))
    >> (if not bitmap_ok then some none else if not map_ok then some none else made)

-- The inner loop, where `left` offsets are left.
pub search_offset : (left word offset : ℕ) → Option ℕ
search_offset zero w o = none
search_offset (suc n) w o =
    let rest = search_offset n w (o + 1) in if test_bit w o then some o else rest

-- The outer loop, where `left` words are left: the word and the offset of the first set bit. The inner
-- loop must end with a bit, else `assert(0)` is met.
pub search_word : (left : ℕ) → (words : ℕ → ℕ) → (ix : ℕ) → Option (Option (ℕ × ℕ))
unfolding search_offset
search_word zero m ix = some none
search_word (suc n) m ix =
    let rest = search_word n m (ix + 1) in
    let found = search_offset word_bits (m ix) 0 >>= λ o. some (some (ix, o)) in
    if not (m ix == 0) then found else rest

-- The inner `none` is -E_NO_MEM.
pub take_bit : Bitmap → Option (ℕ × ℕ) → Option ℕ × Bitmap
take_bit b none = (none, b)
take_bit b (some (ix, o)) =
    (some (ix * word_bits + o), record b { words = update b.words ix (flip_bit (b.words ix) o) })

pub bitmap_alloc : Bitmap → Option (Option ℕ × Bitmap)
unfolding search_word take_bit
bitmap_alloc b = search_word b.nwords b.words 0 >>= λ r. some (take_bit b r)

-- The index of the word, and the offset of the mask.
pub bitmap_translate : Bitmap → ℕ → Option (ℕ × ℕ)
bitmap_translate b index = assert (ltb index b.nbits) >> some (index / word_bits, index % word_bits)

pub bitmap_test : Bitmap → ℕ → Option Bool
unfolding bitmap_translate
bitmap_test b index = bitmap_translate b index >>= λ (ix, o). some (test_bit (b.words ix) o)

pub bitmap_free : Bitmap → ℕ → Option Bitmap
unfolding bitmap_translate
bitmap_free b index = bitmap_translate b index >>= λ (ix, o).
    assert (not (test_bit (b.words ix) o))
    >> some (record b { words = update b.words ix (set_bit (b.words ix) o) })

-- `*len_store`, and the words.
pub bitmap_getdata : Bitmap → ℕ × (ℕ → ℕ)
bitmap_getdata b = (4 * b.nwords, b.words)
