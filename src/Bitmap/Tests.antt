-- ===== src/Bitmap/Tests.antt =====
-- Runs on a bitmap of 32 bits.
use li_nos.Base.{◌>>=◌, ◌^◌, ◌≡◌, true, refl, arith, some, none, if◌then◌else◌, ◌==◌}
use li_nos.Bitmap.{
  Bitmap, bitmap_create, bitmap_alloc, bitmap_free, search_word, search_offset, take_bit,
  bitmap_translate,
}
use li_nos.Bitmap.Bits.{IsBitmap}
use li_nos.Bitmap.Alloc.{Allocated, Freed, bitmap_alloc-Allocated, bitmap_free-Freed}
use li_nos.Bitmap.Create.{Created, bitmap_create-Created}

-- The last bit alone is free.
abbrev one_left : Bitmap
one_left = record { nbits = 32; nwords = 1; words = λ ix. if ix == 0 then 2 ^ 31 else 0 }

bitmap_alloc_last : (bitmap_alloc one_left >>= λ r. r.0) ≡ some 31
unfolding bitmap_alloc search_word search_offset take_bit
bitmap_alloc_last = refl

bitmap_free_twice : bitmap_free one_left 31 ≡ none
unfolding bitmap_free bitmap_translate
bitmap_free_twice = refl

one_left-IsBitmap : IsBitmap one_left
one_left-IsBitmap = record {
  fits = λ ix. ground arith;
  enough = omega arith;
  tail_used = λ i l. ground arith;
}

bitmap_create-Created_example : Created 33 (bitmap_create true true 33)
bitmap_create-Created_example = bitmap_create-Created 33 (omega arith) (omega arith)

bitmap_alloc-Allocated_example : Allocated one_left (bitmap_alloc one_left)
bitmap_alloc-Allocated_example = bitmap_alloc-Allocated one_left one_left-IsBitmap

bitmap_free-Freed_example : Freed one_left 7 (bitmap_free one_left 7)
bitmap_free-Freed_example = bitmap_free-Freed one_left 7 one_left-IsBitmap (omega arith) refl
