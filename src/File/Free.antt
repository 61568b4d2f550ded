-- ===== src/File/Free.antt =====
-- The search for a free entry in fd_array_alloc of kern/fs/file.c.
use li_nos.Base.{
  ℕ, zero, suc, ◌+◌, ◌≤◌, ◌<◌, true, false, ◌≡◌, ◌∙◌, ◌⊎◌, inl, inr, refl, arith, none, some, ◌==◌,
  ==_iff, Bool-cases,
}
use li_nos.File.{File, is_none, first_free}

-- The first free entry among `n` from `fd` on.
abbrev pub FirstFree : (n : ℕ) → (ℕ → File) → (fd : ℕ) → ℕ → Type 0
FirstFree n a fd i =
    (first_free n a fd ≡ some i)
    × (fd ≤ i)
    × (i < fd + n)
    × (is_none (a i).status ≡ true)
    × ((j : ℕ) → fd ≤ j → j < i → is_none (a j).status ≡ false)

abbrev pub NoneFree : (n : ℕ) → (ℕ → File) → (fd : ℕ) → Type 0
NoneFree n a fd =
    (first_free n a fd ≡ none) × ((j : ℕ) → fd ≤ j → j < fd + n → is_none (a j).status ≡ false)

takes :
    (n : ℕ) (a : ℕ → File) (fd : ℕ)
    → is_none (a fd).status ≡ true
    → first_free (suc n) a fd ≡ some fd
unfolding first_free
takes n a fd e = rw e refl

passes :
    (n : ℕ) (a : ℕ → File) (fd : ℕ)
    → is_none (a fd).status ≡ false
    → first_free (suc n) a fd ≡ first_free n a (fd + 1)
unfolding first_free
passes n a fd e = rw e refl

earlier_used :
    (a : ℕ → File) (fd j : ℕ)
    → is_none (a fd).status ≡ false
    → (fd + 1 ≤ j → is_none (a j).status ≡ false)
    → fd ≤ j
    → is_none (a j).status ≡ false
earlier_used a fd j e f l = elim (Bool-cases (j == fd)) [
  | inl i ↦ rw ((==_iff j fd).0 i) e
  | inr i ↦ f (ground arith)
]

pub FirstFree-cases :
    (n : ℕ) (a : ℕ → File) (fd : ℕ) → ((i : ℕ) × FirstFree n a fd i) ⊎ NoneFree n a fd
unfolding first_free
FirstFree-cases zero a fd = inr (refl, λ j x y. absurd (omega arith))
FirstFree-cases (suc n) a fd = elim (Bool-cases (is_none (a fd).status)) [
  | inl e ↦ inl (fd, (takes n a fd e, omega arith, omega arith, e, λ j x y. absurd (omega arith)))
  | inr e ↦ elim (FirstFree-cases n a (fd + 1)) [
    | inl (i, (r, x, y, t, f)) ↦ inl (
      i,
      (
        passes n a fd e ∙ r,
        omega arith,
        omega arith,
        t,
        λ j c d. earlier_used a fd j e (λ g. f j g d) c,
      ),
    )
    | inr (r, f) ↦
        inr (passes n a fd e ∙ r, λ j c d. earlier_used a fd j e (λ g. f j g (omega arith)) c)
  ]
]
