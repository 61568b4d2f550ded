-- ===== src/Swap/Pass.antt =====
-- One round of the clock in kern/mm/swap_clock.c.
use li_nos.Base.{
  ℕ, Bool, true, false, ◌||◌, ◌≡◌, ◌≢◌, ◌∙◌, refl, sym, ap, subst, arith, inl, inr, Option, none,
  some, List, [], ◌∷◌, if◌then◌else◌, ◌==◌, update, has, Distinct, ==_refl, ==_ne, ==_iff,
  Bool-cases,
}
use li_nos.Swap.{Pte, clear_flag, is_clean, clock_pass}

-- The first page with a property.
abbrev pub first_such : (ℕ → Bool) → List ℕ → Option ℕ
first_such f [] = none
first_such f (p ∷ ps) = if f p then some p else first_such f ps

-- The entries of the pages of a list.
abbrev pub entries : (ℕ → ℕ) → List ℕ → List ℕ
entries get_pte [] = []
entries get_pte (p ∷ ps) = get_pte p ∷ entries get_pte ps

abbrev pub clean_in : (ℕ → ℕ) → (ℕ → Pte) → ℕ → Bool
clean_in get_pte t p = is_clean (t (get_pte p))

pub first_such-same :
    (f g : ℕ → Bool) (l : List ℕ)
    → ((p : ℕ) → has p l ≡ true → f p ≡ g p)
    → first_such f l ≡ first_such g l
first_such-same f g [] h = refl
first_such-same f g (p ∷ ps) h =
    rw (h p (ground (arith, ==_refl p)))
      (ap (λ x. if g p then some p else x) (first_such-same f g ps (λ q i. h q (ground arith))))

-- A round when no pointer to an entry is null.
abbrev pub pass : (ℕ → ℕ) → (i : ℕ) → List ℕ → (ℕ → Pte) → Option ℕ × (ℕ → Pte)
pass e i [] t = (none, t)
pass e i (p ∷ ps) t =
    let rest = pass e i ps (update t (e p) (clear_flag i (t (e p)))) in
    if is_clean (t (e p)) then (some p, t) else rest

pub clock_pass-pass :
    (e : ℕ → ℕ) (i : ℕ) (l : List ℕ) (t : ℕ → Pte)
    → ((p : ℕ) → has p l ≡ true → e p ≢ 0)
    → clock_pass e i l t ≡ some (pass e i l t)
unfolding clock_pass
clock_pass-pass e i [] t f = refl
clock_pass-pass e i (p ∷ ps) t f =
    rw (==_ne (e p) 0 (f p (ground (arith, ==_refl p)))) (elim (Bool-cases (is_clean (t (e p)))) [
      | inl c ↦ rw c refl
      | inr c ↦ rw c (
          clock_pass-pass e i ps (update t (e p) (clear_flag i (t (e p))))
            (λ q h. f q (ground arith)))
    ])

pub has-entries :
    (e : ℕ → ℕ) (q : ℕ) (ps : List ℕ) → has q ps ≡ true → has (e q) (entries e ps) ≡ true
has-entries e q [] h = cc
has-entries e q (p ∷ ps) h = elim (Bool-cases (q == p)) [
  | inl i ↦ rw ((==_iff q p).0 i) (ground (arith, ==_refl (e p)))
  | inr i ↦ ground (arith, has-entries e q ps (ground arith))
]

not_in : (p q : ℕ) (ps : List ℕ) → has p ps ≡ false → has q ps ≡ true → q ≢ p
not_in p q ps a b e = let c : has p ps ≡ true = subst (λ y. has y ps ≡ true) e b in cc

-- A round finds the first page whose entry has neither flag, in the order of the walk.
pub pass-first_such :
    (e : ℕ → ℕ) (i : ℕ) (l : List ℕ) (t : ℕ → Pte)
    → Distinct (entries e l)
    → (pass e i l t).0 ≡ first_such (clean_in e t) l
pass-first_such e i [] t d = refl
pass-first_such e i (p ∷ ps) t (a, d) = elim (Bool-cases (is_clean (t (e p)))) [
  | inl c ↦ rw c refl
  | inr c ↦
      let t' = update t (e p) (clear_flag i (t (e p))) in
      rw c (
        pass-first_such e i ps t' d
        ∙ first_such-same (clean_in e t') (clean_in e t) ps (λ q h.
          rw (==_ne (e q) (e p) (not_in (e p) (e q) (entries e ps) a (has-entries e q ps h))) refl))
]

-- A round that finds no page has cleared its flag of every entry of the list, and of no other.
pub pass-cleared :
    (e : ℕ → ℕ) (i : ℕ) (l : List ℕ) (t : ℕ → Pte)
    → Distinct (entries e l)
    → first_such (clean_in e t) l ≡ none
    → (a : ℕ) → (pass e i l t).1 a ≡ (if has a (entries e l) then clear_flag i (t a) else t a)
pass-cleared e i [] t d n q = refl
pass-cleared e i (p ∷ ps) t (a, d) n q = elim (Bool-cases (is_clean (t (e p)))) [
  | inl c ↦ absurd (found (rw c at n))
  | inr c ↦
      let t' = update t (e p) (clear_flag i (t (e p))) in
      let m : first_such (clean_in e t') ps ≡ none =
        first_such-same (clean_in e t') (clean_in e t) ps (λ r h.
          rw (==_ne (e r) (e p) (not_in (e p) (e r) (entries e ps) a (has-entries e r ps h))) refl)
        ∙ (rw c at n) in
      rw c (pass-cleared e i ps t' d m q ∙ cleared c)
]
  where
    found : some p ≢ none
    found x = cc

    cleared :
        is_clean (t (e p)) ≡ false
        → (if has q (entries e ps)
            then clear_flag i (update t (e p) (clear_flag i (t (e p))) q)
            else update t (e p) (clear_flag i (t (e p))) q)
          ≡ (if (q == e p) || has q (entries e ps) then clear_flag i (t q) else t q)
    cleared c = elim (Bool-cases (q == e p)) [
      | inl h ↦
          let k : q ≡ e p = (==_iff q (e p)).0 h in
          let o : has q (entries e ps) ≡ false =
            subst (λ y. has y (entries e ps) ≡ false) (sym k) a in
          rw h (rw o (ap (λ y. clear_flag i (t y)) (sym k)))
      | inr h ↦ rw h refl
    ]
