-- ===== src/Swap/Tests.antt =====
-- Runs on three pages, of which 5 is the oldest.
use li_nos.Base.{
  ◌*◌, ◌≢◌, has, arith, inl, inr, Bool-cases, subst, ==_iff, ℕ, ◌≡◌, true, refl, some, [], ◌∷◌,
  ◌==◌,
}
use li_nos.Swap.{Pte, clock_swap_out_victim, fifo_swap_out_victim}
use li_nos.Swap.Clock.{Chooses, clock_swap_out_victim-second_chance}

-- All were used, and 5, whose entry stands at 20, was written.
abbrev used : ℕ → Pte
used p = record { accessed = true; dirty = p == 20 }

fifo_oldest : fifo_swap_out_victim (7 ∷ 6 ∷ 5 ∷ []) ≡ some (5, 7 ∷ 6 ∷ [])
unfolding fifo_swap_out_victim
fifo_oldest = refl

-- The entry of a page stands at four times its number.
abbrev entry_at : ℕ → ℕ
entry_at p = 4 * p

filled : (p : ℕ) → has p (7 ∷ 6 ∷ 5 ∷ []) ≡ true → entry_at p ≢ 0
filled p h = elim (Bool-cases (p == 0)) [
  | inl e ↦ absurd (out (subst (λ y. has y (7 ∷ 6 ∷ 5 ∷ []) ≡ true) ((==_iff p 0).0 e) h))
  | inr e ↦ λ z. ground arith
]
  where
    out : has 0 (7 ∷ 6 ∷ 5 ∷ []) ≢ true
    out e = cc

clock_swap_out_victim-second_chance_example :
    Chooses entry_at (7 ∷ 6 ∷ 5 ∷ []) used (clock_swap_out_victim entry_at (7 ∷ 6 ∷ 5 ∷ []) used)
clock_swap_out_victim-second_chance_example =
    clock_swap_out_victim-second_chance entry_at (7 ∷ 6 ∷ 5 ∷ []) used filled
      (refl, (refl, (refl, tt))) refl
