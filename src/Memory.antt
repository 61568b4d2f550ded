-- ===== src/Memory.antt =====
-- libs/string.c over a memory of bytes, by address. The functions with a version in assembly for the
-- machine (libs/x86.h) are modelled by their C text. A loop that ends at a null byte takes fuel, and
-- `none` means that the fuel ran out.
pub mod Texts
pub mod Copy
pub mod Compare
pub mod Numbers
mod Tests
use li_nos.Base.{
  ℕ, zero, suc, ◌+◌, ◌-◌, ◌*◌, Bool, true, false, ◌&&◌, ◌||◌, not, Option, none, some, ◌>>=◌,
  if◌then◌else◌, ◌==◌, ltb, leb, update, ℤ, pos, negsuc, sub_ℕ, ◌%◌, ◌^◌,
}

abbrev pub Bytes : Type 0
Bytes = ℕ → ℕ

-- The loop of `strlen`, from a count on.
pub strlen_loop : (fuel : ℕ) → Bytes → (s cnt : ℕ) → Option ℕ
strlen_loop zero t s cnt = none
strlen_loop (suc k) t s cnt =
    let rest = strlen_loop k t (s + 1) (cnt + 1) in if t s == 0 then some cnt else rest

pub strlen : (fuel : ℕ) → Bytes → ℕ → Option ℕ
unfolding strlen_loop
strlen k t s = strlen_loop k t s 0

-- The rounds that are left are `len - cnt`.
pub strnlen : Bytes → ℕ → (len : ℕ) → ℕ
strnlen t s zero = 0
strnlen t s (suc len) = if t s == 0 then 0 else suc (strnlen t (s + 1) len)

pub strcpy : (fuel : ℕ) → (dst src : ℕ) → Bytes → Option Bytes
strcpy zero d s t = none
strcpy (suc k) d s t =
    let t' = update t d (t s) in
    let rest = strcpy k (d + 1) (s + 1) t' in if t' d == 0 then some t' else rest

pub strcat : (fuel : ℕ) → (dst src : ℕ) → Bytes → Option Bytes
unfolding strlen strcpy
strcat k d s t = strlen k t d >>= λ n. strcpy k (d + n) s t

pub strncpy : (dst src : ℕ) → (len : ℕ) → Bytes → Bytes
strncpy d s zero t = t
strncpy d s (suc len) t = strncpy (d + 1) (if t s == 0 then s else s + 1) len (update t d (t s))

pub strcmp : (fuel : ℕ) → Bytes → (s1 s2 : ℕ) → Option ℤ
strcmp zero t a b = none
strcmp (suc k) t a b =
    let rest = strcmp k t (a + 1) (b + 1) in
    if not (t a == 0) && t a == t b then rest else some (sub_ℕ (t a) (t b))

pub strncmp : Bytes → (s1 s2 : ℕ) → (n : ℕ) → ℤ
strncmp t a b zero = pos 0
strncmp t a b (suc n) =
    let rest = strncmp t (a + 1) (b + 1) n in
    if not (t a == 0) && t a == t b then rest else sub_ℕ (t a) (t b)

-- The inner `none` is the null pointer.
pub strchr : (fuel : ℕ) → Bytes → (s c : ℕ) → Option (Option ℕ)
strchr zero t s c = none
strchr (suc k) t s c =
    let rest = strchr k t (s + 1) c in
    if t s == 0 then some none else if t s == c then some (some s) else rest

pub strfind : (fuel : ℕ) → Bytes → (s c : ℕ) → Option ℕ
strfind zero t s c = none
strfind (suc k) t s c =
    let rest = strfind k t (s + 1) c in if (t s == 0) || t s == c then some s else rest

pub memset : (s c n : ℕ) → Bytes → Bytes
memset s c zero t = t
memset s c (suc n) t = memset (s + 1) c n (update t s c)

pub memcpy : (dst src n : ℕ) → Bytes → Bytes
memcpy d s zero t = t
memcpy d s (suc n) t = memcpy (d + 1) (s + 1) n (update t d (t s))

-- The loop that runs down; `d` and `s` start behind the last byte.
pub copy_down : (dst src n : ℕ) → Bytes → Bytes
copy_down d s zero t = t
copy_down d s (suc n) t = copy_down (d - 1) (s - 1) n (update t (d - 1) (t (s - 1)))

pub memmove : (dst src n : ℕ) → Bytes → Bytes
unfolding copy_down memcpy
memmove d s n t = if ltb s d && ltb d (s + n) then copy_down (d + n) (s + n) n t else memcpy d s n t

pub memcmp : Bytes → (v1 v2 n : ℕ) → ℤ
memcmp t a b zero = pos 0
memcmp t a b (suc n) =
    let rest = memcmp t (a + 1) (b + 1) n in if t a == t b then rest else sub_ℕ (t a) (t b)

-- ' ' and '\t'
pub skip_blanks : (fuel : ℕ) → Bytes → ℕ → Option ℕ
skip_blanks zero t s = none
skip_blanks (suc k) t s =
    let rest = skip_blanks k t (s + 1) in if (t s == 32) || t s == 9 then rest else some s

-- The value of a digit in any base up to 36.
unfoldable pub digit : ℕ → Option ℕ
digit c =
    if leb 48 c && leb c 57
    then some (c - 48)
    else if leb 97 c && leb c 122
    then some (c - 97 + 10)
    else if leb 65 c && leb c 90
    then some (c - 65 + 10)
    else none

-- Whether the digit loop takes the byte, and its value.
pub digit_below : (base c : ℕ) → Option ℕ
unfolding digit
digit_below base c = digit c >>= λ n. if leb base n then none else some n

pub strtol_digits : (fuel : ℕ) → Bytes → (s base val : ℕ) → Option (ℕ × ℕ)
strtol_digits zero t s base val = none
strtol_digits (suc k) t s base val = elim (digit_below base (t s)) [
  | none ↦ some (val, s)
  | some n ↦ strtol_digits k t (s + 1) base ((val * base + n) % 2 ^ 32)
]

-- The `long` of 32 bits.
abbrev pub to_long : ℕ → ℤ
to_long b = if ltb b (2 ^ 31) then pos b else negsuc (2 ^ 32 - 1 - b)

-- The sign: whether it is negative, and where the text goes on.
pub strtol_sign : Bytes → ℕ → Bool × ℕ
strtol_sign t s =
    if t s == 43 then (false, s + 1) else if t s == 45 then (true, s + 1) else (false, s)

-- The prefix: the base, and where the digits start.
pub strtol_base : Bytes → (s base : ℕ) → ℕ × ℕ
strtol_base t s base =
    if ((base == 0) || base == 16) && ((t s == 48) && t (s + 1) == 120)
    then (16, s + 2)
    else if (base == 0) && t s == 48
    then (8, s + 1)
    else if base == 0
    then (10, s)
    else (base, s)

-- The number, and `*endptr`. Overflow is not detected: the value wraps around.
pub strtol : (fuel : ℕ) → Bytes → (s base : ℕ) → Option (ℤ × ℕ)
strtol k t s base = skip_blanks k t s >>= λ a.
    let (neg, b) = strtol_sign t a in
    let (base', c) = strtol_base t b base in
    strtol_digits k t c base' 0 >>= λ (val, e).
    some (to_long (if neg then (2 ^ 32 - val) % 2 ^ 32 else val), e)
