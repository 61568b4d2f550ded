-- ===== src/Memory/Tests.antt =====
-- Runs on a memory with "ab" at 10 and "cde" at 20.
use li_nos.Base.{
  ℕ, ◌≡◌, refl, arith, ◌==◌, if◌then◌else◌, inr, [], ◌∷◌, some, pos, negsuc, ◌<◌, ◌⊎◌,
}
use li_nos.Memory.{
  Bytes, memmove, copy_down, memcpy, strcat, strcmp, strncpy, strncmp, strchr, strfind, memcmp,
  strnlen, strtol, skip_blanks, strtol_sign, strtol_base, strtol_digits, digit_below, digit,
}
use li_nos.Memory.Copy.{copied, memmove-copied}
use li_nos.Memory.Texts.{Text, strcat-append}
use li_nos.Memory.Compare.{Compares, strcmp-Compares}

abbrev memory : Bytes
memory q =
    if q == 10
    then 97
    else if q == 11
    then 98
    else if q == 20
    then 99
    else if q == 21
    then 100
    else if q == 22
    then 101
    else 0

memmove_up : memmove 12 10 5 memory 13 ≡ 98
unfolding memmove copy_down memcpy
memmove_up = refl

strchr_found : strchr 5 memory 20 100 ≡ some (some 21)
unfolding strchr
strchr_found = refl

strfind_end : strfind 5 memory 20 7 ≡ some 23
unfolding strfind
strfind_end = refl

strncmp_short : strncmp memory 10 20 2 ≡ negsuc 1
unfolding strncmp
strncmp_short = refl

strncpy_fills : strncpy 30 10 4 memory 33 ≡ 0
unfolding strncpy
strncpy_fills = refl

memcmp_same : memcmp memory 10 10 4 ≡ pos 0
unfolding memcmp
memcmp_same = refl

strnlen_bound : strnlen memory 20 2 ≡ 2
unfolding strnlen
strnlen_bound = refl

abbrev digits_text : Bytes
digits_text q =
    if q == 0
    then 9
    else if q == 1
    then 45
    else if q == 2
    then 48
    else if q == 3
    then 49
    else if q == 4
    then 55
    else 0

strtol_octal : strtol 9 digits_text 0 0 ≡ some (negsuc 14, 5)
unfolding strtol skip_blanks strtol_sign strtol_base strtol_digits digit_below digit
strtol_octal = refl

memmove-copied_example : memmove 12 10 5 memory 13 ≡ copied 12 10 5 memory 13
memmove-copied_example = memmove-copied 12 10 5 memory 13

strcat-append_example :
    (u : Bytes) × (strcat 4 10 20 memory ≡ some u)
    × Text u 10 (97 ∷ 98 ∷ 99 ∷ 100 ∷ 101 ∷ [])
    × ((q : ℕ) → (q < 10) ⊎ (15 < q) → u q ≡ memory q)
strcat-append_example =
    strcat-append 4 10 20 memory (97 ∷ 98 ∷ []) (99 ∷ 100 ∷ 101 ∷ [])
      (refl, (λ e. omega arith), (refl, (λ e. omega arith), refl))
      (refl, (λ e. omega arith), (refl, (λ e. omega arith), (refl, (λ e. omega arith), refl)))
      (inr (omega arith)) (omega arith) (omega arith)

strcmp-Compares_example : Compares (97 ∷ 98 ∷ []) (99 ∷ 100 ∷ 101 ∷ []) (strcmp 4 memory 10 20)
strcmp-Compares_example =
    strcmp-Compares 4 memory 10 20 (97 ∷ 98 ∷ []) (99 ∷ 100 ∷ 101 ∷ [])
      (refl, (λ e. omega arith), (refl, (λ e. omega arith), refl))
      (refl, (λ e. omega arith), (refl, (λ e. omega arith), (refl, (λ e. omega arith), refl)))
      (omega arith)
