-- ===== src/Process/Siblings.antt =====
-- Lists of siblings in the fields of kern/process/proc.h, with the null pointer at both ends.
use li_nos.Base.{
  ℕ, true, false, List, [], ◌∷◌, ◌==◌, ◌≡◌, ◌∙◌, arith, has, refl, sym, subst, inl, inr, ◌⊎◌,
  ==_iff, ==_ne, ==_refl, Bool-cases, ap, All, if◌then◌else◌, erase, ◌≢◌, Distinct,
}

-- From `first` on, the siblings are those of the list, behind `younger`.
abbrev pub Siblings : (yptr optr : ℕ → ℕ) → (younger first : ℕ) → List ℕ → Type 0
Siblings y o prev first [] = first ≡ 0
Siblings y o prev first (c ∷ cs) = (first ≡ c) × (c ≢ 0) × (y c ≡ prev) × Siblings y o c (o c) cs

pub Siblings-frame :
    (y o y' o' : ℕ → ℕ) (prev first : ℕ) (cs : List ℕ)
    → All (λ c. (y' c ≡ y c) × (o' c ≡ o c)) cs
    → Siblings y o prev first cs
    → Siblings y' o' prev first cs
Siblings-frame y o y' o' prev first [] f h = h
Siblings-frame y o y' o' prev first (c ∷ cs) ((e, g), f) (a, b, d, h) = (
  a,
  b,
  e ∙ d,
  subst (λ x. Siblings y' o' c x cs) (sym g) (Siblings-frame y o y' o' c (o c) cs f h),
)

-- A new youngest sibling.
pub Siblings-cons :
    (y o y' o' : ℕ → ℕ) (p first : ℕ) (cs : List ℕ)
    → p ≢ 0
    → has p cs ≡ false
    → Distinct cs
    → Siblings y o 0 first cs
    → y' p ≡ 0
    → o' p ≡ first
    → ((x : ℕ) → x ≢ 0 → (x == p) ≡ false → y' x ≡ (if x == first then p else y x))
    → ((x : ℕ) → (x == p) ≡ false → o' x ≡ o x)
    → Siblings y' o' 0 p (p ∷ cs)
Siblings-cons y o y' o' p first [] np n d h yp op fy fo = (refl, np, yp, op ∙ h)
Siblings-cons y o y' o' p first (c ∷ cs) np n (dc, d) (a, b, e, h) yp op fy fo = (
  refl,
  np,
  yp,
  (
    op ∙ a,
    b,
    fy c b (ground (arith, ==_ne c p)) ∙ ground (arith, ==_refl c),
    Siblings-frame y o y' o' c (o' c) cs (later cs c (o c) n' dc h)
        (subst (λ x. Siblings y o c x cs) (sym (fo c (ground (arith, ==_ne c p)))) h),
  ),
)
  where
    n' : has p cs ≡ false
    n' = ground arith

    later :
        (ds : List ℕ) (prev first' : ℕ)
        → has p ds ≡ false
        → has c ds ≡ false
        → Siblings y o prev first' ds
        → All (λ x. (y' x ≡ y x) × (o' x ≡ o x)) ds
    later [] prev first' i j k = tt
    later (x ∷ ds) prev first' i j (k, l, m, w) = (
      (
        fy x l (ground (arith, ==_ne x p)) ∙ ground (arith, a, ==_ne x c),
        fo x (ground (arith, ==_ne x p)),
      ),
      later ds x (o x) (ground arith) (ground arith) w,
    )

-- The next older sibling of a member stands in the list, and is not the first.
older_in :
    (y o : ℕ → ℕ) (prev first p : ℕ) (cs : List ℕ)
    → Siblings y o prev first cs
    → has p cs ≡ true
    → (o p ≡ 0) ⊎ (has (o p) cs ≡ true)
older_in y o prev first p [] h m = cc
older_in y o prev first p (c ∷ cs) (a, b, e, h) m = elim (Bool-cases (p == c)) [
  | inl i ↦
      let j = (==_iff p c).0 i in
      subst (λ x. (o x ≡ 0) ⊎ (has (o x) (c ∷ cs) ≡ true)) (sym j) (next cs h)
  | inr i ↦ elim (older_in y o c (o c) p cs h (ground arith)) [
    | inl j ↦ inl j
    | inr j ↦ inr (ground arith)
  ]
]
  where
    next : (ds : List ℕ) → Siblings y o c (o c) ds → (o c ≡ 0) ⊎ (has (o c) (c ∷ ds) ≡ true)
    next [] w = inl w
    next (d ∷ ds) (i, u, v, w) = inr (ground (arith, i, ==_refl d))

-- The next younger sibling of a member is the one before it.
pub younger_in :
    (y o : ℕ → ℕ) (prev first p : ℕ) (cs : List ℕ)
    → Siblings y o prev first cs
    → Distinct cs
    → has p cs ≡ true
    → ((first ≡ p) × (y p ≡ prev)) ⊎ (((first == p) ≡ false) × (has (y p) cs ≡ true))
younger_in y o prev first p [] h d m = cc
younger_in y o prev first p (c ∷ cs) (a, b, e, h) (n, d) m = elim (Bool-cases (p == c)) [
  | inl i ↦ let j = (==_iff p c).0 i in inl (a ∙ sym j, ap y j ∙ e)
  | inr i ↦ inr (
    ground (arith, ==_ne first p),
    elim (younger_in y o c (o c) p cs h d (ground arith)) [
      | inl (k, l) ↦ ground (arith, ==_refl c)
      | inr (k, l) ↦ ground arith
    ],
  )
]

has-erase : (a b : ℕ) (xs : List ℕ) → has a xs ≡ false → has a (erase b xs) ≡ false
has-erase a b [] h = refl
has-erase a b (x ∷ xs) h = ground (arith, has-erase a b xs)

pub Distinct-erase : (a : ℕ) (xs : List ℕ) → Distinct xs → Distinct (erase a xs)
Distinct-erase a [] d = tt
Distinct-erase a (x ∷ xs) (n, d) = elim (Bool-cases (a == x)) [
  | inl e ↦ rw e d
  | inr e ↦ rw e (has-erase x a xs n, Distinct-erase a xs d)
]

-- The siblings behind the first one, when that is taken out.
Siblings-tail :
    (y o y' o' : ℕ → ℕ) (p prev : ℕ) (ds : List ℕ)
    → ((x : ℕ) → x ≢ 0 → y' x ≡ (if x == o p then y p else y x))
    → ((x : ℕ) → x ≢ 0 → o' x ≡ (if x == y p then o p else o x))
    → Siblings y o p (o p) ds
    → Distinct ds
    → y p ≡ prev
    → has prev ds ≡ false
    → Siblings y' o' prev (o p) ds
Siblings-tail y o y' o' p prev [] fy fo h d e n = h
Siblings-tail y o y' o' p prev (c ∷ ds) fy fo (k, l, m, w) (dc, d) e n = (
  k,
  l,
  fy c l ∙ ground (arith, ==_refl c),
  Siblings-frame y o y' o' c (o' c) ds (later ds c (o c) dc (ground arith) w)
      (subst (λ x. Siblings y o c x ds) (sym same) w),
)
  where
    same : o' c ≡ o c
    same = fo c l ∙ ground (arith, ==_ne c prev)

    later :
        (es : List ℕ) (prev' first' : ℕ)
        → has c es ≡ false
        → has prev es ≡ false
        → Siblings y o prev' first' es
        → All (λ x. (y' x ≡ y x) × (o' x ≡ o x)) es
    later [] prev' first' i j u = tt
    later (x ∷ es) prev' first' i j (u, v, q, r) = (
      (fy x v ∙ ground (arith, ==_ne x c), fo x v ∙ ground (arith, ==_ne x prev)),
      later es x (o x) (ground arith) (ground arith) r,
    )

-- `p` is taken out between its neighbours.
pub Siblings-erase :
    (y o y' o' : ℕ → ℕ) (p prev first : ℕ) (cs : List ℕ)
    → ((x : ℕ) → x ≢ 0 → y' x ≡ (if x == o p then y p else y x))
    → ((x : ℕ) → x ≢ 0 → o' x ≡ (if x == y p then o p else o x))
    → Siblings y o prev first cs
    → Distinct cs
    → has prev cs ≡ false
    → has p cs ≡ true
    → Siblings y' o' prev (if first == p then o p else first) (erase p cs)
Siblings-erase y o y' o' p prev first [] fy fo h d n m = cc
Siblings-erase y o y' o' p prev first (c ∷ cs) fy fo (a, b, e, h) (dc, d) n m =
    elim (Bool-cases (p == c)) [
      | inl i ↦
          let j = (==_iff p c).0 i in
          let f : (first == p) ≡ true = ground (arith, ==_refl c) in
          rw i (
            rw f (
              Siblings-tail y o y' o' p prev cs fy fo
                (subst (λ x. Siblings y o x (o x) cs) (sym j) h) d (ap y j ∙ e) (ground arith)))
      | inr i ↦
          let f : (first == p) ≡ false = ground (arith, ==_ne first p) in
          let member : has p cs ≡ true = ground arith in
          let next = Siblings-erase y o y' o' p c (o c) cs fy fo h d dc member in
          rw i (
            rw f (
              a,
              b,
              fy c b ∙ older (older_in y o c (o c) p cs h member) ∙ e,
              subst (λ x. Siblings y' o' c x (erase p cs))
                  (sym (fo c b ∙ younger (younger_in y o c (o c) p cs h d member))) next,
            ))
    ]
  where
    older : (o p ≡ 0) ⊎ (has (o p) cs ≡ true) → (if c == o p then y p else y c) ≡ y c
    older (inl k) = ground (arith, b, ==_ne c (o p))
    older (inr k) = elim (Bool-cases (c == o p)) [
      | inl l ↦ let q = (==_iff c (o p)).0 l in ground arith
      | inr l ↦ ground arith
    ]

    younger :
        ((o c ≡ p) × (y p ≡ c)) ⊎ (((o c == p) ≡ false) × (has (y p) cs ≡ true))
        → (if c == y p then o p else o c) ≡ (if o c == p then o p else o c)
    younger (inl (k, l)) = ground (arith, ==_refl p, ==_refl c)
    younger (inr (k, l)) = elim (Bool-cases (c == y p)) [
      | inl q ↦ let r = (==_iff c (y p)).0 q in ground arith
      | inr q ↦ ground arith
    ]
