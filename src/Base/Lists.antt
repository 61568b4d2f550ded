-- ===== src/Base/Lists.antt =====
-- Lists measured by native numbers, under the library's names, and lists of distinct addresses.
use Prim.Native.Nat.{ℕ, zero, suc, ◌+◌}
use mathlib.Core.Path.{◌≡◌, refl}
use mathlib.Core.Bool.{Bool, false, ◌&&◌, ◌||◌}
use mathlib.Core.List.{List, [], ◌∷◌, ◌++◌}
use native.Mathlib.Omega.{arith}
use li_nos.Base.Tests.{ltb, ◌==◌, if◌then◌else◌}

module _ {ℓ} {A : Type ℓ} where
  abbrev pub length : List A → ℕ
  length [] = 0
  length (_ ∷ xs) = suc (length xs)

abbrev pub replicate {ℓ} : {A : Type ℓ} → ℕ → A → List A
replicate zero a = []
replicate (suc n) a = a ∷ replicate n a

abbrev pub All {ℓ κ} : {A : Type ℓ} → (A → Type κ) → List A → Type κ
All P [] = Unit
All P (x ∷ xs) = P x × All P xs

-- Membership of an address in a list, as the test that the models compute.
abbrev pub has : ℕ → List ℕ → Bool
has a [] = false
has a (x ∷ xs) = (a == x) || has a xs

pub has-append : (p : ℕ) (us vs : List ℕ) → has p (us ++ vs) ≡ (has p us || has p vs)
has-append p [] vs = refl
has-append p (u ∷ us) vs = ground (arith, has-append p us vs)

abbrev pub Distinct : List ℕ → Type 0
Distinct [] = Unit
Distinct (x ∷ xs) = (has x xs ≡ false) × Distinct xs

-- The list without its first occurrence of `a`.
abbrev pub erase : ℕ → List ℕ → List ℕ
erase a [] = []
erase a (x ∷ xs) = if a == x then xs else x ∷ erase a xs

-- How often an address stands in a list.
abbrev pub count : ℕ → List ℕ → ℕ
count a [] = 0
count a (x ∷ xs) = (if a == x then 1 else 0) + count a xs

pub count-append : (p : ℕ) (us vs : List ℕ) → count p (us ++ vs) ≡ count p us + count p vs
count-append p [] vs = omega arith
count-append p (u ∷ us) vs = omega (arith, count-append p us vs)

pub count-erase :
    (a b : ℕ) (xs : List ℕ)
    → count a (erase b xs) + (if (a == b) && has b xs then 1 else 0) ≡ count a xs
count-erase a b [] = ground arith
count-erase a b (x ∷ xs) = ground (arith, count-erase a b xs)

pub has-count : (a : ℕ) (xs : List ℕ) → has a xs ≡ ltb 0 (count a xs)
has-count a [] = ground arith
has-count a (x ∷ xs) = ground (arith, has-count a xs)
