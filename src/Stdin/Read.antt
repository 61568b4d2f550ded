-- ===== src/Stdin/Read.antt =====
-- The loop of dev_stdin_read in kern/fs/devs/dev_stdin.c.
use li_nos.Base.{
  ℕ, zero, suc, ◌+◌, ◌-◌, ◌%◌, true, false, ◌≡◌, ◌∙◌, refl, sym, ap, arith, inl, inr, List, [], ◌∷◌,
  ltb, Bool-cases,
}
use li_nos.Stdin.{Stdin, read_bytes}
use li_nos.Stdin.Unread.{bytes_from, unread}

-- Reading takes bytes from the front.
abbrev pub first_bytes : (len : ℕ) → List ℕ → List ℕ
first_bytes zero l = []
first_bytes (suc n) [] = []
first_bytes (suc n) (x ∷ xs) = x ∷ first_bytes n xs

abbrev pub later_bytes : (len : ℕ) → List ℕ → List ℕ
later_bytes zero l = l
later_bytes (suc n) [] = []
later_bytes (suc n) (x ∷ xs) = later_bytes n xs

reads :
    (n : ℕ) (s : Stdin)
    → ltb s.p_rpos s.p_wpos ≡ true
    → read_bytes (suc n) s ≡ (
      s.stdin_buffer (s.p_rpos % 4096) ∷ (read_bytes n (record s { p_rpos = s.p_rpos + 1 })).0,
      (read_bytes n (record s { p_rpos = s.p_rpos + 1 })).1,
    )
unfolding read_bytes
reads n s e = rw e refl

stops : (n : ℕ) (s : Stdin) → ltb s.p_rpos s.p_wpos ≡ false → read_bytes (suc n) s ≡ ([], s)
unfolding read_bytes
stops n s e = rw e refl

unread-more :
    (s : Stdin)
    → ltb s.p_rpos s.p_wpos ≡ true
    → unread s ≡ s.stdin_buffer (s.p_rpos % 4096) ∷ unread (record s { p_rpos = s.p_rpos + 1 })
unread-more s e =
    ap (λ n. bytes_from n s.stdin_buffer s.p_rpos) {y = suc (s.p_wpos - (s.p_rpos + 1))}
      (ground arith)

unread-none : (s : Stdin) → ltb s.p_rpos s.p_wpos ≡ false → unread s ≡ []
unread-none s e = ap (λ n. bytes_from n s.stdin_buffer s.p_rpos) {y = 0} (ground arith)

-- The loop of dev_stdin_read takes the oldest bytes that are not read yet, in the order in which they
-- came, up to the length that was asked for, and leaves the later ones.
pub read_bytes-unread :
    (len : ℕ) (s : Stdin)
    → ((read_bytes len s).0 ≡ first_bytes len (unread s))
      × (unread (read_bytes len s).1 ≡ later_bytes len (unread s))
unfolding read_bytes
read_bytes-unread zero s = (refl, refl)
read_bytes-unread (suc n) s = elim (Bool-cases (ltb s.p_rpos s.p_wpos)) [
  | inl e ↦
      let (f, g) = read_bytes-unread n (record s { p_rpos = s.p_rpos + 1 }) in
      (
        ap (λ x. x.0) (reads n s e)
            ∙ ap (λ l. s.stdin_buffer (s.p_rpos % 4096) ∷ l) f
            ∙ ap (first_bytes (suc n)) (sym (unread-more s e)),
        ap (λ x. unread x.1) (reads n s e) ∙ g ∙ ap (later_bytes (suc n)) (sym (unread-more s e)),
      )
  | inr e ↦ (
    ap (λ x. x.0) (stops n s e) ∙ ap (first_bytes (suc n)) (sym (unread-none s e)),
    ap (λ x. unread x.1) (stops n s e)
        ∙ unread-none s e
        ∙ ap (later_bytes (suc n)) (sym (unread-none s e)),
  )
]
