-- ===== src/Print/Digits.antt =====
-- The digits that printnum of libs/printfmt.c prints, and what they stand for.
use li_nos.Base.{
  ℕ, zero, suc, ◌+◌, ◌-◌, ◌*◌, ◌/◌, ◌%◌, ◌≤◌, ◌<◌, true, false, ◌≡◌, ◌∙◌, refl, sym, ap, arith, inl,
  inr, Option, some, List, [], ◌∷◌, ◌++◌, replicate, ltb, All, Bool-cases, append_assoc,
}
use native.Mathlib.Nat.{div-add-mod', div-lt_self, mod-lt, mod-eq_of_lt}
use li_nos.Memory.Numbers.{value}
use li_nos.Print.{digit_char, printnum}

abbrev pub chars : List ℕ → List ℕ
chars [] = []
chars (d ∷ ds) = digit_char d ∷ chars ds

chars-append : (ns : List ℕ) (n : ℕ) → chars (ns ++ n ∷ []) ≡ chars ns ++ digit_char n ∷ []
chars-append [] n = refl
chars-append (m ∷ ns) n = ap (λ l. digit_char m ∷ l) (chars-append ns n)

value-append :
    (base v : ℕ) (ns : List ℕ) (n : ℕ) → value base v (ns ++ n ∷ []) ≡ value base v ns * base + n
value-append base v [] n = refl
value-append base v (m ∷ ns) n = value-append base (v * base + m) ns n

All-append :
    (base : ℕ) (ns : List ℕ) (n : ℕ)
    → All (λ d. d < base) ns
    → n < base
    → All (λ d. d < base) (ns ++ n ∷ [])
All-append base [] n a l = (l, tt)
All-append base (m ∷ ns) n (a, b) l = (a, All-append base ns n b l)

-- What is printed: padding, then the digits of the number.
abbrev pub Printed : (num base padc : ℕ) → Option (List ℕ) → Type 0
Printed num base padc o =
    (p : ℕ) × (n : ℕ) × (ns : List ℕ) × (o ≡ some (replicate p padc ++ chars (n ∷ ns)))
    × All (λ d. d < base) (n ∷ ns)
    × (value base 0 (n ∷ ns) ≡ num)

prints_last :
    (k num base w c : ℕ)
    → ltb num base ≡ true
    → printnum (suc k) num base w c ≡ some (replicate (w - 1) c ++ digit_char (num % base) ∷ [])
unfolding printnum
prints_last k num base w c e = rw e refl

prints_more :
    (k num base w c : ℕ) (l : List ℕ)
    → ltb num base ≡ false
    → printnum k (num / base) base (w - 1) c ≡ some l
    → printnum (suc k) num base w c ≡ some (l ++ digit_char (num % base) ∷ [])
unfolding printnum
prints_more k num base w c l e f = rw (e, f) refl

pub printnum-Printed :
    (k num base w c : ℕ) → 1 < base → num < k → Printed num base c (printnum k num base w c)
printnum-Printed zero num base w c b l = ground arith
printnum-Printed (suc k) num base w c b l = elim (Bool-cases (ltb num base)) [
  | inl e ↦
      let small : num < base = ground arith in
      let same = mod-eq_of_lt small in
      (
        w - 1,
        num % base,
        [],
        prints_last k num base w c e,
        (mod-lt num (omega arith), tt),
        ground (arith, same),
      )
  | inr e ↦
      let large : base ≤ num = ground arith in
      let (p, n, ns, f, a, v) =
        printnum-Printed k (num / base) base (w - 1) c b (smaller (div-lt_self (omega arith) b)) in
      (
        p,
        n,
        ns ++ num % base ∷ [],
        prints_more k num base w c (replicate p c ++ chars (n ∷ ns)) e f
            ∙ ap some (
                append_assoc (replicate p c) (chars (n ∷ ns)) (digit_char (num % base) ∷ [])
                ∙ ap (λ l. replicate p c ++ l) (sym (chars-append (n ∷ ns) (num % base)))),
        All-append base (n ∷ ns) (num % base) a (mod-lt num (omega arith)),
        value-append base 0 (n ∷ ns) (num % base)
            ∙ ap (λ x. x * base + num % base) v
            ∙ div-add-mod' num base,
      )
]
  where
    smaller : num / base < num → num / base < k
    smaller h = omega arith
