-- ===== src/Process/Passes.antt =====
-- The passes of get_pid over the list of processes, in kern/process/proc.c.
use li_nos.Base.{
  ℕ, zero, suc, ◌+◌, ◌-◌, ◌≤◌, ◌<◌, Bool, true, false, ◌&&◌, List, [], ◌∷◌, Option, some, ltb, leb,
  ◌==◌, ◌≡◌, arith, has, map, All, refl, inl, inr, ◌⊎◌, Bool-cases, if◌then◌else◌,
}
use li_nos.Process.{Scan, found, again, scan, repeat, max_pid}

-- Whether a process of the list has the number.
abbrev pub is_used : (ℕ → ℕ) → List ℕ → ℕ → Bool
is_used pid ps x = has x (map pid ps)

-- No process has a number strictly between.
abbrev pub Safe : (ℕ → ℕ) → (last next : ℕ) → List ℕ → Type 0
Safe pid l n ps = All (λ p. (pid p ≤ l) ⊎ (n ≤ pid p)) ps

-- No process has a number from `last` up to `next`.
abbrev pub Free : (ℕ → ℕ) → (last next : ℕ) → List ℕ → Type 0
Free pid l n ps = All (λ p. (pid p < l) ⊎ (n ≤ pid p)) ps

-- What one pass over the list finds out, from `last` and `next` on.
abbrev Scanned : (ℕ → ℕ) → List ℕ → (last next : ℕ) → Scan → Type 0
Scanned pid ps l n (found l' n') = (l ≤ l') × (l' < n') × (n' ≤ n) × Free pid l' n' ps
Scanned pid ps l n (again l') =
    (m : ℕ) × (l < m)
    × (m ≤ n)
    × ((x : ℕ) → l ≤ x → x < m → is_used pid ps x ≡ true)
    × (l' ≡ (if leb max_pid m then 1 else m))

-- A process that the pass has stepped over.
Scanned-cons :
    (pid : ℕ → ℕ) (p : ℕ) (ps : List ℕ) (l l2 n n2 : ℕ) (r : Scan)
    → l ≤ l2
    → n2 ≤ n
    → (pid p < l2) ⊎ (n2 ≤ pid p)
    → ((x : ℕ) → l ≤ x → x < l2 → x ≡ pid p)
    → Scanned pid ps l2 n2 r
    → Scanned pid (p ∷ ps) l n r
Scanned-cons pid p ps l l2 n n2 (found l' n') a b c d (e, f, g, h) =
    (omega arith, f, omega arith, (outside c, h))
  where
    outside : ((pid p < l2) ⊎ (n2 ≤ pid p)) → (pid p < l') ⊎ (n' ≤ pid p)
    outside (inl i) = inl (omega arith)
    outside (inr i) = inr (omega arith)
Scanned-cons pid p ps l l2 n n2 (again l') a b c d (m, e, f, g, h) =
    (m, omega arith, omega arith, used, h)
  where
    used : (x : ℕ) → l ≤ x → x < m → is_used pid (p ∷ ps) x ≡ true
    used x i j = elim (Bool-cases (ltb x l2)) [
      | inl k ↦ let y = d x i (ground arith) in ground arith
      | inr k ↦ let y = g x (ground arith) j in ground arith
    ]

scan-Scanned : (pid : ℕ → ℕ) (ps : List ℕ) (l n : ℕ) → l < n → Scanned pid ps l n (scan ps pid l n)
unfolding scan
scan-Scanned pid [] l n h = (omega arith, h, omega arith, tt)
scan-Scanned pid (p ∷ ps) l n h = elim (Bool-cases (pid p == l)) [
  | inl e ↦ rw e (elim (Bool-cases (leb n (l + 1))) [
    | inl f ↦ rw f (l + 1, omega arith, omega arith, (λ x a b. ground arith), refl)
    | inr f ↦ rw f (
        Scanned-cons pid p ps l (l + 1) n n (scan ps pid (l + 1) n) (omega arith) (omega arith)
          (inl (ground arith)) (λ x a b. ground arith)
          (scan-Scanned pid ps (l + 1) n (ground arith)))
  ])
  | inr e ↦ rw e (elim (Bool-cases (ltb l (pid p) && ltb (pid p) n)) [
    | inl f ↦ rw f (
        Scanned-cons pid p ps l l n (pid p) (scan ps pid l (pid p)) (omega arith) (ground arith)
          (inr (omega arith)) (λ x a b. omega arith) (scan-Scanned pid ps l (pid p) (ground arith)))
    | inr f ↦ rw f (
        Scanned-cons pid p ps l l n n (scan ps pid l n) (omega arith) (omega arith)
          (elim (Bool-cases (ltb (pid p) l)) [
            | inl g ↦ inl (ground arith)
            | inr g ↦ inr (ground arith)
          ])
          (λ x a b. omega arith) (scan-Scanned pid ps l n h))
  ])
]

-- How far the passes are from a number that is free: they go up to it, or around past the end.
abbrev pub distance : (last free : ℕ) → ℕ
distance l f = if leb l f then f - l else (max_pid - l) + f

-- After a pass that found nothing, the next one starts nearer to the free number.
again-distance :
    (pid : ℕ → ℕ) (ps : List ℕ) (f l l' : ℕ)
    → is_used pid ps f ≡ false
    → 1 ≤ f
    → f < max_pid
    → l < max_pid
    → Scanned pid ps l max_pid (again l')
    → (1 ≤ l') × (l' < max_pid) × (distance l' f < distance l f)
again-distance pid ps f l l' u a b c (m, d, e, g, h) = elim (Bool-cases (leb max_pid m)) [
  | inl i ↦ elim (Bool-cases (leb l f)) [
    | inl j ↦ let w = g f (ground arith) (ground arith) in ground arith
    | inr j ↦ ground arith
  ]
  | inr i ↦ elim (Bool-cases (leb l f && ltb f m)) [
    | inl j ↦ let w = g f (ground arith) (ground arith) in ground arith
    | inr j ↦ ground arith
  ]
]

-- A pass that ended with a number that is free.
abbrev pub Ends : (ℕ → ℕ) → List ℕ → Option (ℕ × ℕ) → Type 0
Ends pid ps o =
    (l : ℕ) × (n : ℕ) × (o ≡ some (l, n)) × (1 ≤ l) × (l < n) × (n ≤ max_pid) × Free pid l n ps

pass-Ends :
    (k : ℕ) (pid : ℕ → ℕ) (ps : List ℕ) (f l : ℕ) (r : Scan)
    → is_used pid ps f ≡ false
    → 1 ≤ f
    → f < max_pid
    → 1 ≤ l
    → l < max_pid
    → distance l f < suc k
    → Scanned pid ps l max_pid r
    → ((l' : ℕ) → 1 ≤ l' → l' < max_pid → distance l' f < k → Ends pid ps (repeat k ps pid l'))
    → Ends pid ps (elim r as (λ _. Option (ℕ × ℕ)) [
      | found l2 n2 ↦ some (l2, n2)
      | again l2 ↦ repeat k ps pid l2
    ])
pass-Ends k pid ps f l (found l2 n2) u a b c d h (i, j, m, w) ih =
    (l2, n2, refl, omega arith, j, m, w)
pass-Ends k pid ps f l (again l2) u a b c d h w ih =
    let (i, j, m) = again-distance pid ps f l l2 u a b d w in ih l2 i j (omega arith)

pub repeat-Ends :
    (k : ℕ) (pid : ℕ → ℕ) (ps : List ℕ) (f l : ℕ)
    → is_used pid ps f ≡ false
    → 1 ≤ f
    → f < max_pid
    → 1 ≤ l
    → l < max_pid
    → distance l f < k
    → Ends pid ps (repeat k ps pid l)
unfolding repeat
repeat-Ends zero pid ps f l u a b c d h = ground arith
repeat-Ends (suc k) pid ps f l u a b c d h =
    pass-Ends k pid ps f l (scan ps pid l max_pid) u a b c d h (scan-Scanned pid ps l max_pid d)
      (λ l' i j m. repeat-Ends k pid ps f l' u a b i j m)
