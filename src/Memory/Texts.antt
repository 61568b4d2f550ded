-- ===== src/Memory/Texts.antt =====
-- Texts that end at a null byte: strlen, strcpy and strcat of libs/string.c.
use li_nos.Base.{
  ℕ, zero, suc, ◌+◌, ◌≤◌, ◌<◌, true, false, ◌≡◌, ◌≢◌, ◌∙◌, refl, subst, ap, arith, inl, inr, ◌⊎◌,
  ◌==◌, update, ==_refl, ==_ne, List, [], ◌∷◌, ◌++◌, length, Option, some,
}
use li_nos.Memory.{Bytes, strlen_loop, strlen, strcpy, strcat}

-- The memory holds the bytes from an address on, then a null byte.
abbrev pub Text : Bytes → ℕ → List ℕ → Type 0
Text t s [] = t s ≡ 0
Text t s (c ∷ cs) = (t s ≡ c) × (c ≢ 0) × Text t (s + 1) cs

pub Text-frame :
    (t u : Bytes) (s : ℕ) (cs : List ℕ)
    → ((q : ℕ) → s ≤ q → q ≤ s + length cs → u q ≡ t q)
    → Text t s cs
    → Text u s cs
Text-frame t u s [] f h = f s (omega arith) (omega arith) ∙ h
Text-frame t u s (c ∷ cs) f (e, n, h) = (
  f s (omega arith) (omega arith) ∙ e,
  n,
  Text-frame t u (s + 1) cs (λ q a b. f q (omega arith) (omega arith)) h,
)

strlen_loop-length :
    (k : ℕ) (t : Bytes) (s cnt : ℕ) (cs : List ℕ)
    → Text t s cs
    → length cs < k
    → strlen_loop k t s cnt ≡ some (cnt + length cs)
unfolding strlen_loop
strlen_loop-length zero t s cnt cs h l = ground arith
strlen_loop-length (suc k) t s cnt [] h l = ground arith
strlen_loop-length (suc k) t s cnt (c ∷ cs) (e, n, h) l =
    ground (arith, strlen_loop-length k t (s + 1) (cnt + 1) cs h (omega arith), ==_ne (t s) 0)

unwritten : (t : Bytes) (d v n q : ℕ) → (q < d) ⊎ (d + n < q) → update t d v q ≡ t q
unwritten t d v n q (inl i) = ground (arith, ==_ne q d)
unwritten t d v n q (inr i) = ground (arith, ==_ne q d)

-- What a copy of a text to `d` leaves: the text there, and all other bytes.
abbrev pub Copied : Bytes → (d : ℕ) → List ℕ → Option Bytes → Type 0
Copied t d cs r =
    (u : Bytes) × (r ≡ some u) × Text u d cs × ((q : ℕ) → (q < d) ⊎ (d + length cs < q) → u q ≡ t q)

pub strcpy-Copied :
    (k : ℕ) (d s : ℕ) (t : Bytes) (cs : List ℕ)
    → Text t s cs
    → (s + length cs < d) ⊎ (d + length cs < s)
    → length cs < k
    → Copied t d cs (strcpy k d s t)
unfolding strcpy
strcpy-Copied zero d s t cs h a l = ground arith
strcpy-Copied (suc k) d s t [] h a l =
    let t' = update t d (t s) in
    let end : (t' d == 0) ≡ true = ground (arith, ==_refl d) in
    (t', rw end refl, ground (arith, ==_refl d), λ q o. unwritten t d (t s) 0 q o)
strcpy-Copied (suc k) d s t (c ∷ cs) (e, n, h) a l =
    let t' = update t d (t s) in
    let more : (t' d == 0) ≡ false = ground (arith, ==_refl d, ==_ne c 0) in
    let (u, eu, tu, fu) =
      strcpy-Copied k (d + 1) (s + 1) t' cs (Text-frame t t' (s + 1) cs (λ q i j. source a q i j) h)
        (apart a) (omega arith) in
    (
      u,
      rw more eu,
      (fu d (inl (omega arith)) ∙ ground (arith, ==_refl d), n, tu),
      λ q o. fu q (later o) ∙ unwritten t d (t s) (suc (length cs)) q o,
    )
  where
    source :
        (s + suc (length cs) < d) ⊎ (d + suc (length cs) < s)
        → (q : ℕ) → s + 1 ≤ q
        → q ≤ s + 1 + length cs
        → update t d (t s) q ≡ t q
    source (inl i) q x y = ground (arith, ==_ne q d)
    source (inr i) q x y = ground (arith, ==_ne q d)

    apart :
        (s + suc (length cs) < d) ⊎ (d + suc (length cs) < s)
        → (s + 1 + length cs < d + 1) ⊎ (d + 1 + length cs < s + 1)
    apart (inl i) = inl (omega arith)
    apart (inr i) = inr (omega arith)

    later : {q : ℕ} → (q < d) ⊎ (d + suc (length cs) < q) → (q < d + 1) ⊎ (d + 1 + length cs < q)
    later (inl i) = inl (omega arith)
    later (inr i) = inr (omega arith)

strcat_runs :
    (k n : ℕ) (d s : ℕ) (t : Bytes) → strlen k t d ≡ some n → strcat k d s t ≡ strcpy k (d + n) s t
unfolding strcat
strcat_runs k n d s t e = rw e refl

-- A text that ends where another starts.
Text-append :
    (t u : Bytes) (d : ℕ) (cs ds : List ℕ)
    → Text t d cs
    → ((q : ℕ) → d ≤ q → q < d + length cs → u q ≡ t q)
    → Text u (d + length cs) ds
    → Text u d (cs ++ ds)
Text-append t u d [] ds h f g = subst (λ x. Text u x ds) (omega arith) g
Text-append t u d (c ∷ cs) ds (e, n, h) f g = (
  f d (omega arith) (omega arith) ∙ e,
  n,
  Text-append t u (d + 1) cs ds h (λ q a b. f q (omega arith) (omega arith))
      (subst (λ x. Text u x ds) (omega arith) g),
)

-- strcat of two texts that do not overlap, nor would the longer text the source, returns with fuel
-- above both lengths: the destination holds the one text followed by the other, and no byte before
-- the destination, nor one behind the new text, is written.
pub strcat-append :
    (k : ℕ) (d s : ℕ) (t : Bytes) (cs ds : List ℕ)
    → Text t d cs
    → Text t s ds
    → (s + length ds < d) ⊎ (d + length cs + length ds < s)
    → length cs < k
    → length ds < k
    → (u : Bytes) × (strcat k d s t ≡ some u)
      × Text u d (cs ++ ds)
      × ((q : ℕ) → (q < d) ⊎ (d + length cs + length ds < q) → u q ≡ t q)
unfolding strlen
strcat-append k d s t cs ds hc hd a lc ld =
    let (u, e, g, f) = strcpy-Copied k (d + length cs) s t ds hd (apart a) ld in
    (
      u,
      strcat_runs k (length cs) d s t (strlen_loop-length k t d 0 cs hc lc ∙ ap some (omega arith))
          ∙ e,
      Text-append t u d cs ds hc (λ q i j. f q (inl j)) g,
      λ q o. f q (outside o),
    )
  where
    apart :
        (s + length ds < d) ⊎ (d + length cs + length ds < s)
        → (s + length ds < d + length cs) ⊎ (d + length cs + length ds < s)
    apart (inl i) = inl (omega arith)
    apart (inr i) = inr i

    outside :
        {q : ℕ}
        → (q < d) ⊎ (d + length cs + length ds < q)
        → (q < d + length cs) ⊎ (d + length cs + length ds < q)
    outside (inl i) = inl (omega arith)
    outside (inr i) = inr i
