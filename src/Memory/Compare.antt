-- ===== src/Memory/Compare.antt =====
-- strcmp of libs/string.c.
use li_nos.Base.{
  ℕ, zero, suc, ◌+◌, ◌<◌, Bool, true, false, not, ◌&&◌, ◌||◌, ◌≡◌, ◌≢◌, ◌∙◌, refl, ap₂, arith, inl,
  inr, ◌↔◌, ◌==◌, ltb, Bool-cases, ==_refl, ==_ne, ==_iff, List, [], ◌∷◌, length, Option, some, ℤ,
  pos, negsuc, sub_ℕ,
}
use li_nos.Memory.{Bytes, strcmp}
use li_nos.Memory.Texts.{Text}

-- The order of a dictionary.
abbrev pub precedes : List ℕ → List ℕ → Bool
precedes [] [] = false
precedes [] (d ∷ ds) = true
precedes (c ∷ cs) [] = false
precedes (c ∷ cs) (d ∷ ds) = ltb c d || (c == d) && precedes cs ds

abbrev pub is_negative : ℤ → Bool
is_negative (pos n) = false
is_negative (negsuc n) = true

abbrev pub Compares : List ℕ → List ℕ → Option ℤ → Type 0
Compares cs ds o =
    (r : ℤ) × (o ≡ some r) × ((r ≡ pos 0) ↔ (cs ≡ ds)) × (is_negative r ≡ precedes cs ds)

stops :
    (k : ℕ) (t : Bytes) (a b : ℕ)
    → (not (t a == 0) && t a == t b) ≡ false
    → strcmp (suc k) t a b ≡ some (sub_ℕ (t a) (t b))
unfolding strcmp
stops k t a b e = rw e refl

goes_on :
    (k : ℕ) (t : Bytes) (a b : ℕ)
    → (not (t a == 0) && t a == t b) ≡ true
    → strcmp (suc k) t a b ≡ strcmp k t (a + 1) (b + 1)
unfolding strcmp
goes_on k t a b e = rw e refl

differ : (c d : ℕ) → c ≢ d → (sub_ℕ c d ≢ pos 0) × (is_negative (sub_ℕ c d) ≡ ltb c d)
differ c d h = ground arith

-- The texts differ where the loop stands.
differ-Compares :
    (k : ℕ) (t : Bytes) (a b : ℕ) (cs ds : List ℕ)
    → t a ≢ t b
    → cs ≢ ds
    → ltb (t a) (t b) ≡ precedes cs ds
    → Compares cs ds (strcmp (suc k) t a b)
differ-Compares k t a b cs ds h n p =
    let (nz, neg) = differ (t a) (t b) h in
    (
      sub_ℕ (t a) (t b),
      stops k t a b (ground (arith, ==_ne (t a) (t b) h)),
      ((λ e. absurd (nz e)), λ e. absurd (n e)),
      neg ∙ p,
    )

-- strcmp of two texts returns with fuel above the length of the first: zero exactly when the texts are
-- the same, and a negative number exactly when the first comes before the second in the order of a
-- dictionary.
pub strcmp-Compares :
    (k : ℕ) (t : Bytes) (a b : ℕ) (cs ds : List ℕ)
    → Text t a cs
    → Text t b ds
    → length cs < k
    → Compares cs ds (strcmp k t a b)
strcmp-Compares zero t a b cs ds x y l = ground arith
strcmp-Compares (suc k) t a b [] [] x y l =
    (pos 0, stops k t a b (ground arith) ∙ ground arith, ((λ e. refl), λ e. refl), refl)
strcmp-Compares (suc k) t a b [] (d ∷ ds) x (e, n, y) l =
    differ-Compares k t a b [] (d ∷ ds) (ground arith) (λ i. cc) (ground arith)
strcmp-Compares (suc k) t a b (c ∷ cs) [] (e, n, x) y l =
    differ-Compares k t a b (c ∷ cs) [] (ground arith) (λ i. cc) (ground arith)
strcmp-Compares (suc k) t a b (c ∷ cs) (d ∷ ds) (e, n, x) (f, m, y) l = elim (Bool-cases (c == d)) [
  | inl i ↦
      let j = (==_iff c d).0 i in
      let (r, g, (to, from), h) = strcmp-Compares k t (a + 1) (b + 1) cs ds x y (omega arith) in
      (
        r,
        goes_on k t a b (ground (arith, ==_ne (t a) 0, ==_refl d)) ∙ g,
        ((λ z. ap₂ (λ u v. u ∷ v) j (to z)), λ z. from (cc)),
        h ∙ ground (arith, ==_refl d),
      )
  | inr i ↦
      differ-Compares k t a b (c ∷ cs) (d ∷ ds) (ground arith) (λ z. ground arith) (ground arith)
]
