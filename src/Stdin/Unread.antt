-- ===== src/Stdin/Unread.antt =====
-- The bytes that wait in the buffer of kern/fs/devs/dev_stdin.c, in the order in which they came.
use li_nos.Base.{
  ℕ, zero, suc, ◌+◌, ◌-◌, ◌%◌, ◌≤◌, ◌<◌, Bool, true, false, not, ◌≡◌, ◌≢◌, ◌∙◌, refl, sym, ap, ap₂,
  arith, inl, inr, List, [], ◌∷◌, ◌++◌, ltb, update, ==_refl, ==_ne, Bool-cases,
}
use li_nos.Stdin.{Stdin, store_byte}

-- `n` bytes of the buffer from a position on.
abbrev pub bytes_from : (n : ℕ) → (ℕ → ℕ) → (pos : ℕ) → List ℕ
bytes_from zero b p = []
bytes_from (suc n) b p = b (p % 4096) ∷ bytes_from n b (p + 1)

abbrev pub unread : Stdin → List ℕ
unread s = bytes_from (s.p_wpos - s.p_rpos) s.stdin_buffer s.p_rpos

-- The buffer holds at most as many bytes as it has room for.
abbrev pub IsBounded : Stdin → Type 0
IsBounded s = (s.p_rpos ≤ s.p_wpos) × (s.p_wpos ≤ s.p_rpos + 4096)

-- A byte written outside.
bytes_from-update :
    (n : ℕ) (b : ℕ → ℕ) (p i c : ℕ)
    → ((q : ℕ) → p ≤ q → q < p + n → q % 4096 ≢ i)
    → bytes_from n (update b i c) p ≡ bytes_from n b p
bytes_from-update zero b p i c f = refl
bytes_from-update (suc n) b p i c f =
    ap₂ (λ x y. x ∷ y) (rw (==_ne (p % 4096) i (f p (omega arith) (omega arith))) refl)
      (bytes_from-update n b (p + 1) i c (λ q l m. f q (omega arith) (omega arith)))

-- One byte more at the end.
bytes_from-suc :
    (n : ℕ) (b : ℕ → ℕ) (p : ℕ)
    → bytes_from (suc n) b p ≡ bytes_from n b p ++ b ((p + n) % 4096) ∷ []
bytes_from-suc zero b p = ap (λ x. b (x % 4096) ∷ []) (omega arith)
bytes_from-suc (suc n) b p =
    ap (λ l. b (p % 4096) ∷ l)
      (bytes_from-suc n b (p + 1)
        ∙ ap (λ x. bytes_from n b (p + 1) ++ b (x % 4096) ∷ []) (omega arith))

-- What a write leaves: the byte at the end; or, of a full buffer, in place of the oldest byte.
abbrev pub stored : ℕ → List ℕ → (full : Bool) → List ℕ
stored c l false = l ++ c ∷ []
stored c [] true = []
stored c (x ∷ xs) true = c ∷ xs

room :
    (n : ℕ) (b : ℕ → ℕ) (r w c : ℕ)
    → w ≡ r + n
    → n < 4096
    → bytes_from (suc n) (update b (w % 4096) c) r ≡ bytes_from n b r ++ c ∷ []
room n b r w c e l =
    bytes_from-suc n (update b (w % 4096) c) r
    ∙ ap₂ (λ x y. x ++ y ∷ []) (bytes_from-update n b r (w % 4096) c (λ q i j. apart q i j))
        (rw (sym e) (rw (==_refl (w % 4096)) refl))
  where
    apart : (q : ℕ) → r ≤ q → q < r + n → q % 4096 ≢ w % 4096
    apart q i j h = omega arith

no_room :
    (n : ℕ) (b : ℕ → ℕ) (r w c : ℕ)
    → w ≡ r + suc n
    → n ≡ 4095
    → bytes_from (suc n) (update b (w % 4096) c) r ≡ stored c (bytes_from (suc n) b r) true
no_room n b r w c e h =
    let same : r % 4096 ≡ w % 4096 = omega arith in
    ap₂ (λ x y. x ∷ y) (rw same (rw (==_refl (w % 4096)) refl))
      (bytes_from-update n b (r + 1) (w % 4096) c (λ q i j x. omega arith))

pub unread-store_byte :
    (c : ℕ) (s : Stdin)
    → IsBounded s
    → unread (store_byte c s) ≡ stored c (unread s) (not (ltb (s.p_wpos - s.p_rpos) 4096))
unfolding store_byte
unread-store_byte c s (l, u) = elim (Bool-cases (ltb (s.p_wpos - s.p_rpos) 4096)) [
  | inl e ↦ rw e (
      ap (λ n. bytes_from n (update s.stdin_buffer (s.p_wpos % 4096) c) s.p_rpos)
        {y = suc (s.p_wpos - s.p_rpos)} (omega arith)
      ∙ room (s.p_wpos - s.p_rpos) s.stdin_buffer s.p_rpos s.p_wpos c (omega arith) (ground arith))
  | inr e ↦
      let n = s.p_wpos - s.p_rpos - 1 in
      let m : s.p_wpos - s.p_rpos ≡ suc n = ground arith in
      rw e (
        ap (λ y. bytes_from y (update s.stdin_buffer (s.p_wpos % 4096) c) s.p_rpos) m
        ∙ no_room n s.stdin_buffer s.p_rpos s.p_wpos c (omega arith) (ground arith)
        ∙ ap (λ y. stored c (bytes_from y s.stdin_buffer s.p_rpos) true) (sym m))
]

pub store_byte-IsBounded : (c : ℕ) (s : Stdin) → IsBounded s → IsBounded (store_byte c s)
unfolding store_byte
store_byte-IsBounded c s (l, u) = (ground arith, ground arith)
