-- ===== src/Memory/Numbers.antt =====
-- Numbers in texts: strtol of libs/string.c.
use li_nos.Base.{
  ℕ, zero, suc, ◌+◌, ◌*◌, ◌≤◌, ◌<◌, false, ◌≡◌, ◌≢◌, ◌∙◌, refl, sym, ap, subst, arith, inl, inr,
  none, some, List, [], ◌∷◌, ◌++◌, length, replicate, ◌==◌, Bool-cases, pos, ==_ne, ◌%◌, ◌^◌, ltb,
  true,
}
use li_nos.Memory.{
  Bytes, digit, digit_below, skip_blanks, strtol_digits, strtol_sign, strtol_base, strtol,
}
use li_nos.Memory.Texts.{Text}

-- The number that digits stand for, behind a number already read.
abbrev pub value : (base val : ℕ) → List ℕ → ℕ
value base v [] = v
value base v (n ∷ ns) = value base (v * base + n) ns

-- The bytes are digits in the base, with these values.
abbrev pub Numeral : (base : ℕ) (cs ns : List ℕ) → Type 0
Numeral base [] [] = Unit
Numeral base [] (n ∷ ns) = ⊥
Numeral base (c ∷ cs) [] = ⊥
Numeral base (c ∷ cs) (n ∷ ns) = (digit c ≡ some n) × (n < base) × Numeral base cs ns

no_digit : (base : ℕ) → digit_below base 0 ≡ none
unfolding digit_below digit
no_digit base = refl

takes_digit : (base c n : ℕ) → digit c ≡ some n → n < base → digit_below base c ≡ some n
unfolding digit_below
takes_digit base c n e l = rw e (ground arith)

digits_end :
    (k : ℕ) (t : Bytes) (s base v : ℕ)
    → digit_below base (t s) ≡ none
    → strtol_digits (suc k) t s base v ≡ some (v, s)
unfolding strtol_digits
digits_end k t s base v e = rw (e, strtol_digits) refl

digits_on :
    (k : ℕ) (t : Bytes) (s base v n : ℕ)
    → digit_below base (t s) ≡ some n
    → strtol_digits (suc k) t s base v ≡ strtol_digits k t (s + 1) base ((v * base + n) % 2 ^ 32)
unfolding strtol_digits
digits_on k t s base v n e = rw (e, strtol_digits) refl

-- The number grows with each digit.
value-grows : (base v : ℕ) (ns : List ℕ) → 0 < base → v ≤ value base v ns
value-grows base v [] b = omega arith
value-grows base v (n ∷ ns) b =
    let i = value-grows base (v * base + n) ns b in let j = mul_grows v base b in omega (arith, i)
  where
    mul_grows : (x y : ℕ) → 0 < y → x ≤ x * y
    mul_grows x zero h = omega arith
    mul_grows x (suc y) h = omega arith

digits-value :
    (k : ℕ) (t : Bytes) (s base v : ℕ) (cs ns : List ℕ)
    → Text t s cs
    → Numeral base cs ns
    → length cs < k
    → value base v ns < 2 ^ 32
    → strtol_digits k t s base v ≡ some (value base v ns, s + length cs)
digits-value zero t s base v cs ns h d l m = ground arith
digits-value (suc k) t s base v [] [] h d l m =
    digits_end k t s base v (ap (digit_below base) h ∙ no_digit base)
    ∙ ap (λ x. some (v, x)) (omega arith)
digits-value (suc k) t s base v [] (n ∷ ns) h d l m = elim d [ ]
digits-value (suc k) t s base v (c ∷ cs) [] h d l m = elim d [ ]
digits-value (suc k) t s base v (c ∷ cs) (n ∷ ns) (e, z, h) (i, j, d) l m =
    digits_on k t s base v n (ap (digit_below base) e ∙ takes_digit base c n i j)
    ∙ ap (strtol_digits k t (s + 1) base) (no_wrap (v * base + n) small)
    ∙ digits-value k t (s + 1) base (v * base + n) cs ns h d (omega arith) m
    ∙ ap (λ x. some (value base (v * base + n) ns, x)) (omega arith)
  where
    small : v * base + n < 2 ^ 32
    small = let g = value-grows base (v * base + n) ns (omega (arith, j)) in omega (arith, g, m)

    no_wrap : (x : ℕ) → x < 2 ^ 32 → x % 2 ^ 32 ≡ x
    no_wrap x b = omega arith

-- A digit is none of the bytes that strtol looks for before the digits.
digit-plain : (c n : ℕ) → digit c ≡ some n → 48 ≤ c
unfolding digit
digit-plain c n e = ground arith

digit-hex : (c n : ℕ) → digit c ≡ some n → n < 16 → c ≢ 120
unfolding digit
digit-hex c n e l = ground arith

blank_ends : (k : ℕ) (t : Bytes) (s : ℕ) → 48 ≤ t s → skip_blanks (suc k) t s ≡ some s
unfolding skip_blanks
blank_ends k t s l = ground (arith, ==_ne (t s) 32, ==_ne (t s) 9)

blank_on :
    (k : ℕ) (t : Bytes) (s : ℕ) → t s ≡ 32 → skip_blanks (suc k) t s ≡ skip_blanks k t (s + 1)
unfolding skip_blanks
blank_on k t s e = rw e refl

no_sign : (t : Bytes) (s : ℕ) → 48 ≤ t s → strtol_sign t s ≡ (false, s)
unfolding strtol_sign
no_sign t s l = ground (arith, ==_ne (t s) 43, ==_ne (t s) 45)

no_prefix :
    (t : Bytes) (s base : ℕ)
    → 0 < base
    → (base ≡ 16 → t (s + 1) ≢ 120)
    → strtol_base t s base ≡ (base, s)
unfolding strtol_base
no_prefix t s base p h =
    let z : (base == 0) ≡ false = ==_ne base 0 (λ e. omega arith) in
    elim (Bool-cases (base == 16)) [
      | inl e ↦ ground (arith, ==_ne (t (s + 1)) 120)
      | inr e ↦ rw (z, e) refl
    ]

strtol_runs :
    (k : ℕ) (t : Bytes) (s a base val e : ℕ)
    → skip_blanks k t s ≡ some a
    → strtol_sign t a ≡ (false, a)
    → strtol_base t a base ≡ (base, a)
    → strtol_digits k t a base 0 ≡ some (val, e)
    → val < 2 ^ 31
    → strtol k t s base ≡ some (pos val, e)
unfolding strtol
strtol_runs k t s a base val e h i j l b = rw (h, i, j, l) (rw (below b) refl)
  where
    below : val < 2 ^ 31 → ltb val (2 ^ 31) ≡ true
    below m = ground arith

-- Behind the first digit stands no 'x' of a prefix that base 16 may have.
second :
    (t : Bytes) (s base : ℕ) (cs ns : List ℕ)
    → Text t s cs
    → Numeral base cs ns
    → base ≡ 16
    → t s ≢ 120
second t s base [] ns h d b x = ground arith
second t s base (c ∷ cs) [] h d b x = elim d [ ]
second t s base (c ∷ cs) (n ∷ ns) (e, z, h) (i, j, d) b x =
    digit-hex c n i (omega arith) (sym e ∙ x)

skips :
    (k p : ℕ) (t : Bytes) (s : ℕ) (cs : List ℕ)
    → Text t s (replicate p 32 ++ cs)
    → 48 ≤ t (s + p)
    → p < k
    → skip_blanks k t s ≡ some (s + p)
skips zero p t s cs h f l = ground arith
skips (suc k) zero t s cs h f l =
    blank_ends k t s (subst (λ x. 48 ≤ t x) (omega arith) f) ∙ ap some (omega arith)
skips (suc k) (suc p) t s cs (e, n, h) f l =
    blank_on k t s e
    ∙ skips k p t (s + 1) cs h (subst (λ x. 48 ≤ t x) (omega arith) f) (omega arith)
    ∙ ap some (omega arith)

behind :
    (p : ℕ) (t : Bytes) (s : ℕ) (cs : List ℕ) → Text t s (replicate p 32 ++ cs) → Text t (s + p) cs
behind zero t s cs h = subst (λ x. Text t x cs) (omega arith) h
behind (suc p) t s cs (e, n, h) = subst (λ x. Text t x cs) (omega arith) (behind p t (s + 1) cs h)

pub strtol-value :
    (k p : ℕ) (t : Bytes) (s base c n : ℕ) (cs ns : List ℕ)
    → Text t s (replicate p 32 ++ c ∷ cs)
    → Numeral base (c ∷ cs) (n ∷ ns)
    → p < k
    → suc (length cs) < k
    → value base 0 (n ∷ ns) < 2 ^ 31
    → strtol k t s base ≡ some (pos (value base 0 (n ∷ ns)), s + p + suc (length cs))
strtol-value k p t s base c n cs ns h (i, j, d) l m w =
    let (e, z, g) = behind p t s (c ∷ cs) h in
    let first : 48 ≤ t (s + p) = subst (λ x. 48 ≤ x) (sym e) (digit-plain c n i) in
    strtol_runs k t s (s + p) base (value base 0 (n ∷ ns)) (s + p + suc (length cs))
      (skips k p t s (c ∷ cs) h first l) (no_sign t (s + p) first)
      (no_prefix t (s + p) base (omega arith) (second t (s + p + 1) base cs ns g d))
      (digits-value k t (s + p) base 0 (c ∷ cs) (n ∷ ns) (e, z, g) (i, j, d) m (omega (arith, w))) w
