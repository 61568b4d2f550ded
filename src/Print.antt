-- ===== src/Print.antt =====
-- The printing of numbers in libs/printfmt.c. What `putch` is called with, in order, is a list of bytes.
pub mod Digits
pub mod Round
mod Tests
use li_nos.Base.{
  ℕ, zero, suc, ◌+◌, ◌-◌, ◌/◌, ◌%◌, Option, none, some, ◌>>=◌, List, [], ◌∷◌, ◌++◌, replicate,
  if◌then◌else◌, ltb,
}

-- `"0123456789abcdef"[mod]`
abbrev pub digit_char : ℕ → ℕ
digit_char n = if ltb n 10 then 48 + n else 87 + n

-- A `width` below 0 is 0 here: both print no padding. `none` means that the fuel ran out.
pub printnum : (fuel : ℕ) → (num base width padc : ℕ) → Option (List ℕ)
printnum zero num base width padc = none
printnum (suc k) num base width padc =
    let before = printnum k (num / base) base (width - 1) padc in
    let padding = some (replicate (width - 1) padc) in
    (if ltb num base then padding else before) >>= λ l. some (l ++ digit_char (num % base) ∷ [])
