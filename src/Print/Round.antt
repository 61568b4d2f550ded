-- ===== src/Print/Round.antt =====
-- Numbers that printnum of libs/printfmt.c prints, read by strtol of libs/string.c.
use li_nos.Base.{
  ℕ, zero, suc, ◌+◌, ◌≤◌, ◌<◌, ◌≡◌, ◌∙◌, ap, ap₂, arith, Option, some, List, [], ◌∷◌, ◌++◌, length,
  replicate, All, pos, update, ◌≢◌, ==_ne, ==_refl, ◌^◌, subst, sym,
}
use li_nos.Print.{digit_char, printnum}
use li_nos.Print.Digits.{chars, printnum-Printed}
use li_nos.Memory.{Bytes, digit, strtol}
use li_nos.Memory.Texts.{Text, Text-frame}
use li_nos.Memory.Numbers.{Numeral, strtol-value}

digit-digit_char : (n : ℕ) → n < 16 → digit (digit_char n) ≡ some n
unfolding digit
digit-digit_char n l = ground arith

chars-Numeral :
    (base : ℕ) (ns : List ℕ) → base ≤ 16 → All (λ d. d < base) ns → Numeral base (chars ns) ns
chars-Numeral base [] l a = tt
chars-Numeral base (n ∷ ns) l (i, a) =
    (digit-digit_char n (omega arith), i, chars-Numeral base ns l a)

length-replicate : (p c : ℕ) (l : List ℕ) → length (replicate p c ++ l) ≡ p + length l
length-replicate zero c l = omega arith
length-replicate (suc p) c l = ap suc (length-replicate p c l) ∙ omega arith

-- The memory with the bytes from an address on, and a null byte.
abbrev pub put : ℕ → List ℕ → Bytes → Bytes
put s [] t = update t s 0
put s (c ∷ cs) t = update (put (s + 1) cs t) s c

put-Text : (s : ℕ) (l : List ℕ) (t : Bytes) → All (λ c. c ≢ 0) l → Text (put s l t) s l
put-Text s [] t a = ground (arith, ==_refl s)
put-Text s (c ∷ cs) t (n, a) = (
  ground (arith, ==_refl s),
  n,
  Text-frame (put (s + 1) cs t) (put s (c ∷ cs) t) (s + 1) cs (λ q i j. ground (arith, ==_ne q s))
      (put-Text (s + 1) cs t a),
)

digit_char-filled : (n : ℕ) → digit_char n ≢ 0
digit_char-filled n e = ground arith

chars-filled : (ns : List ℕ) → All (λ c. c ≢ 0) (chars ns)
chars-filled [] = tt
chars-filled (n ∷ ns) = (digit_char-filled n, chars-filled ns)

filled : (p : ℕ) (ns : List ℕ) → All (λ c. c ≢ 0) (replicate p 32 ++ chars ns)
filled zero ns = chars-filled ns
filled (suc p) ns = ((λ e. omega arith), filled p ns)

-- The bytes, put into the memory, are read as the number, up to the place behind the last.
abbrev pub ReadsBack : Bytes → (s num base : ℕ) → Option (List ℕ) → Type 0
ReadsBack t s num base o =
    (l : List ℕ) × (o ≡ some l)
    × (strtol (suc (length l)) (put s l t) s base ≡ some (pos num, s + length l))

-- With fuel above the number, which is below 2^31, in a base from 2 to 16 and padded with blanks to any width, printnum
-- returns, and strtol in the same base of the bytes that it prints, followed by a null byte anywhere in
-- any memory, with fuel above their count, returns the number and the place behind the last byte.
pub strtol-printnum :
    (t : Bytes) (s k num base width : ℕ)
    → 1 < base
    → base ≤ 16
    → num < k
    → num < 2 ^ 31
    → ReadsBack t s num base (printnum k num base width 32)
strtol-printnum t s k num base width b c f w =
    let (p, n, ns, e, a, v) = printnum-Printed k num base width 32 b f in
    let l = replicate p 32 ++ chars (n ∷ ns) in
    let len : length l ≡ p + suc (length (chars ns)) = length-replicate p 32 (chars (n ∷ ns)) in
    (
      l,
      e,
      strtol-value (suc (length l)) p (put s l t) s base (digit_char n) n (chars ns) ns
            (put-Text s l t (filled p (n ∷ ns))) (chars-Numeral base (n ∷ ns) c a) (omega arith)
            (omega arith) (subst (λ x. x < 2 ^ 31) (sym v) w)
          ∙ ap some (ap₂ (λ x y. (pos x, y)) v (omega arith)),
    )
