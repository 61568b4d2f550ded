-- ===== src/Base/Bits.antt =====
-- Bits of a word, as the masks `1 << o` read and write them.
use Prim.Native.Nat.{
  ℕ, zero, suc, ◌+◌, ◌-◌, ◌*◌, ◌/◌, ◌%◌, ◌^◌, ◌≤◌, ◌<◌, min, max, bit_and, bit_or, bit_xor, digits,
  bitwise, bit_and-bitwise, bit_or-bitwise, bit_xor-bitwise,
}
use Prim.Native.Nat.{differ}
use mathlib.Core.Path.{◌≡◌, ◌∙◌, refl, sym, ap}
use mathlib.Core.Bool.{Bool, true, false, not}
use mathlib.Core.Logic.{◌⊎◌, inl, inr}
use native.Mathlib.Nat.{pow-suc, one-le-pow}
use native.Mathlib.Omega.{arith}
use li_nos.Base.Tests.{◌==◌, if◌then◌else◌}

-- `w & (1 << o)`, as a truth value.
abbrev pub test_bit : (w o : ℕ) → Bool
test_bit w o = not (bit_and w (2 ^ o) == 0)

-- `w ^ (1 << o)`
abbrev pub flip_bit : (w o : ℕ) → ℕ
flip_bit w o = bit_xor w (2 ^ o)

-- `w | (1 << o)`
abbrev pub set_bit : (w o : ℕ) → ℕ
set_bit w o = bit_or w (2 ^ o)

module _ (z : ℕ → ℕ) (f : ℕ → ℕ → ℕ) where
  -- Two counts of digits that are both enough give the same number.
  enough : (n m a b : ℕ) → a ≤ n → a ≤ m → digits z f n a b ≡ digits z f m a b
  enough zero zero a b p q = refl
  enough zero (suc m) zero b p q = refl
  enough zero (suc m) (suc a) b p q = absurd (omega arith)
  enough (suc n) zero zero b p q = refl
  enough (suc n) zero (suc a) b p q = absurd (omega arith)
  enough (suc n) (suc m) zero b p q = refl
  enough (suc n) (suc m) (suc a) b p q =
      ap (λ x. x * 2 + f (suc a % 2) (b % 2))
        (enough n m (suc a / 2) (b / 2) (omega arith) (omega arith))

  lowest :
      (a b : ℕ)
      → bitwise z f (suc a) b ≡ bitwise z f (suc a / 2) (b / 2) * 2 + f (suc a % 2) (b % 2)
  lowest a b =
      ap (λ x. x * 2 + f (suc a % 2) (b % 2))
        (enough a (suc a / 2) (suc a / 2) (b / 2) (omega arith) (omega arith))

and_lowest : (a b : ℕ) → bit_and a b ≡ bit_and (a / 2) (b / 2) * 2 + min (a % 2) (b % 2)
and_lowest zero b = simp bit_and-bitwise (omega arith)
and_lowest (suc a) b = simp bit_and-bitwise (lowest (λ y. 0) min a b)

or_lowest : (a b : ℕ) → bit_or a b ≡ bit_or (a / 2) (b / 2) * 2 + max (a % 2) (b % 2)
or_lowest zero b = simp bit_or-bitwise (omega arith)
or_lowest (suc a) b = simp bit_or-bitwise (lowest (λ y. y) max a b)

xor_lowest : (a b : ℕ) → bit_xor a b ≡ bit_xor (a / 2) (b / 2) * 2 + differ (a % 2) (b % 2)
xor_lowest zero b = simp bit_xor-bitwise (omega arith)
xor_lowest (suc a) b = simp bit_xor-bitwise (lowest (λ y. y) differ a b)

and_zero : (n a : ℕ) → digits (λ y. 0) min n a 0 ≡ 0
and_zero zero a = refl
and_zero (suc n) zero = refl
and_zero (suc n) (suc a) = omega (arith, and_zero n (suc a / 2))

or_zero : (n a : ℕ) → a ≤ n → digits (λ y. y) max n a 0 ≡ a
or_zero zero a h = omega arith
or_zero (suc n) zero h = refl
or_zero (suc n) (suc a) h = omega (arith, or_zero n (suc a / 2) (omega arith))

differ_zero : (x : ℕ) → differ x 0 ≡ x
differ_zero zero = refl
differ_zero (suc x) = refl

differ_one : (w : ℕ) → differ (w % 2) 1 ≡ 1 - w % 2
differ_one w = elim (parity w) [ inl e ↦ rw e refl | inr e ↦ rw e refl ]
  where
    parity : (w : ℕ) → (w % 2 ≡ 0) ⊎ (w % 2 ≡ 1)
    parity w = ground arith

xor_zero : (n a : ℕ) → a ≤ n → digits (λ y. y) differ n a 0 ≡ a
xor_zero zero a h = omega arith
xor_zero (suc n) zero h = refl
xor_zero (suc n) (suc a) h =
    omega (arith, xor_zero n (suc a / 2) (omega arith), differ_zero (suc a % 2))

bit_and-zero : (a : ℕ) → bit_and a 0 ≡ 0
bit_and-zero a = simp bit_and-bitwise (and_zero a a)

bit_or-zero : (a : ℕ) → bit_or a 0 ≡ a
bit_or-zero a = simp bit_or-bitwise (or_zero a a (omega arith))

bit_xor-zero : (a : ℕ) → bit_xor a 0 ≡ a
bit_xor-zero a = simp bit_xor-bitwise (xor_zero a a (omega arith))

-- The masks, one binary digit at a time.
test_first : (w : ℕ) → test_bit w 0 ≡ (w % 2 == 1)
test_first w = ground (arith, and_lowest w 1, bit_and-zero (w / 2))

test_later : (w o : ℕ) → test_bit w (suc o) ≡ test_bit (w / 2) o
test_later w o =
    ap (λ x. not (x == 0)) (and_lowest w (2 ^ suc o) ∙ halved (pow-suc 2 o))
    ∙ double (bit_and (w / 2) (2 ^ o))
  where
    halved :
        2 ^ suc o ≡ 2 ^ o * 2
        → bit_and (w / 2) (2 ^ suc o / 2) * 2 + min (w % 2) (2 ^ suc o % 2)
          ≡ bit_and (w / 2) (2 ^ o) * 2
    halved e =
        let h : 2 ^ suc o / 2 ≡ 2 ^ o = omega arith in
        let z : 2 ^ suc o % 2 ≡ 0 = omega arith in rw (h, z) (omega arith)

    double : (x : ℕ) → not (x * 2 == 0) ≡ not (x == 0)
    double x = ground arith

flip_first : (w : ℕ) → flip_bit w 0 ≡ w / 2 * 2 + (1 - w % 2)
flip_first w = omega (arith, xor_lowest w 1, bit_xor-zero (w / 2), differ_one w)

set_first : (w : ℕ) → set_bit w 0 ≡ w / 2 * 2 + 1
set_first w = omega (arith, or_lowest w 1, bit_or-zero (w / 2))

module _ (w o : ℕ) where
  half_mask : 2 ^ suc o / 2 ≡ 2 ^ o
  half_mask = omega (arith, pow-suc 2 o)

  even_mask : 2 ^ suc o % 2 ≡ 0
  even_mask = omega (arith, pow-suc 2 o)

  flip_later : flip_bit w (suc o) ≡ flip_bit (w / 2) o * 2 + w % 2
  flip_later =
      xor_lowest w (2 ^ suc o)
      ∙ rw (half_mask, even_mask) (ap (λ x. bit_xor (w / 2) (2 ^ o) * 2 + x) (differ_zero (w % 2)))

  set_later : set_bit w (suc o) ≡ set_bit (w / 2) o * 2 + w % 2
  set_later = or_lowest w (2 ^ suc o) ∙ rw (half_mask, even_mask) (omega arith)

-- A mask changes its own bit alone.
pub test-flip_bit :
    (w o p : ℕ) → test_bit (flip_bit w o) p ≡ (if p == o then not (test_bit w o) else test_bit w p)
test-flip_bit w zero zero = ground (arith, test_first w, test_first (flip_bit w 0), flip_first w)
test-flip_bit w zero (suc p) =
    test_later (flip_bit w 0) p
    ∙ ap (λ x. test_bit x p) {y = w / 2} (omega (arith, flip_first w))
    ∙ ground (arith, test_later w p)
test-flip_bit w (suc o) zero =
    ground (arith, test_first w, test_first (flip_bit w (suc o)), flip_later w o)
test-flip_bit w (suc o) (suc p) =
    test_later (flip_bit w (suc o)) p
    ∙ ap (λ x. test_bit x p) (omega (arith, flip_later w o))
    ∙ test-flip_bit (w / 2) o p
    ∙ ground (arith, test_later w o, test_later w p)

pub test-set_bit : (w o p : ℕ) → test_bit (set_bit w o) p ≡ (if p == o then true else test_bit w p)
test-set_bit w zero zero = ground (arith, test_first (set_bit w 0), set_first w)
test-set_bit w zero (suc p) =
    test_later (set_bit w 0) p
    ∙ ap (λ x. test_bit x p) {y = w / 2} (omega (arith, set_first w))
    ∙ ground (arith, test_later w p)
test-set_bit w (suc o) zero =
    ground (arith, test_first w, test_first (set_bit w (suc o)), set_later w o)
test-set_bit w (suc o) (suc p) =
    test_later (set_bit w (suc o)) p
    ∙ ap (λ x. test_bit x p) (omega (arith, set_later w o))
    ∙ test-set_bit (w / 2) o p
    ∙ ground (arith, test_later w p)

pub flip_bit-below : (n w o : ℕ) → w < 2 ^ n → o < n → flip_bit w o < 2 ^ n
flip_bit-below zero w o h l = absurd (omega arith)
flip_bit-below (suc n) w zero h l = omega (arith, flip_first w, pow-suc 2 n)
flip_bit-below (suc n) w (suc o) h l = omega (
  arith,
  flip_later w o,
  pow-suc 2 n,
  flip_bit-below n (w / 2) o (half (pow-suc 2 n)) (omega arith),
)
  where
    half : 2 ^ suc n ≡ 2 ^ n * 2 → w / 2 < 2 ^ n
    half e = omega arith

pub set_bit-below : (n w o : ℕ) → w < 2 ^ n → o < n → set_bit w o < 2 ^ n
set_bit-below zero w o h l = absurd (omega arith)
set_bit-below (suc n) w zero h l = omega (arith, set_first w, pow-suc 2 n)
set_bit-below (suc n) w (suc o) h l = omega (
  arith,
  set_later w o,
  pow-suc 2 n,
  set_bit-below n (w / 2) o (half (pow-suc 2 n)) (omega arith),
)
  where
    half : 2 ^ suc n ≡ 2 ^ n * 2 → w / 2 < 2 ^ n
    half e = omega arith

-- A word without a set bit is zero.
pub bits-zero : (n w : ℕ) → w < 2 ^ n → ((o : ℕ) → o < n → test_bit w o ≡ false) → w ≡ 0
bits-zero zero w h f = omega arith
bits-zero (suc n) w h f =
    let low = f 0 (omega arith) in
    let rest =
      bits-zero n (w / 2) (half (pow-suc 2 n))
        (λ o l. sym (test_later w o) ∙ f (suc o) (omega arith)) in
    ground (arith, test_first w)
  where
    half : 2 ^ suc n ≡ 2 ^ n * 2 → w / 2 < 2 ^ n
    half e = omega arith

pub zero-bits : (o : ℕ) → test_bit 0 o ≡ false
zero-bits zero = refl
zero-bits (suc o) = test_later 0 o ∙ zero-bits o

pub ones-bits : (n o : ℕ) → o < n → test_bit (2 ^ n - 1) o ≡ true
ones-bits zero o l = absurd (omega arith)
ones-bits (suc n) zero l = ground (arith, test_first (2 ^ suc n - 1), pow-suc 2 n, one-le-pow n 2)
ones-bits (suc n) (suc o) l =
    test_later (2 ^ suc n - 1) o
    ∙ ap (λ x. test_bit x o) (omega (arith, pow-suc 2 n, one-le-pow n 2))
    ∙ ones-bits n o (omega arith)
