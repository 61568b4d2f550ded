-- ===== src/Process/Hash.antt =====
-- The table of processes by their numbers: hash_proc, unhash_proc and find_proc of
-- kern/process/proc.c.
use li_nos.Base.{
  ℕ, ◌<◌, Bool, true, false, List, [], ◌∷◌, ◌==◌, ◌≡◌, arith, has, map, refl, sym, subst, inl, inr,
  ==_iff, ==_ne, ==_refl, Bool-cases, ap, if◌then◌else◌, erase, Distinct,
}
use li_nos.Process.{Procs, max_pid, pid_hashfn, hash_proc, unhash_proc, search_hash, find_proc}

-- No two processes of a list of the table have one number.
abbrev pub IsHashed : Procs → Type 0
IsHashed s = (b : ℕ) → Distinct (map s.pid (s.hash_list b))

search_hash-erase_ne :
    (pid : ℕ → ℕ) (p x : ℕ) (ps : List ℕ)
    → (pid p == x) ≡ false
    → search_hash pid x (erase p ps) ≡ search_hash pid x ps
unfolding search_hash
search_hash-erase_ne pid p x [] n = refl
search_hash-erase_ne pid p x (q ∷ ps) n = elim (Bool-cases (p == q)) [
  | inl e ↦
      let i = (==_iff p q).0 e in
      rw e (sym (let m = subst (λ y. (pid y == x) ≡ false) i n in rw m refl))
  | inr e ↦ rw e (ground (arith, search_hash-erase_ne pid p x ps n))
]

search_hash-absent :
    (pid : ℕ → ℕ) (x : ℕ) (ps : List ℕ) → has x (map pid ps) ≡ false → search_hash pid x ps ≡ 0
unfolding search_hash
search_hash-absent pid x [] h = refl
search_hash-absent pid x (q ∷ ps) h = ground (arith, search_hash-absent pid x ps)

search_hash-erase :
    (pid : ℕ → ℕ) (p : ℕ) (ps : List ℕ)
    → Distinct (map pid ps)
    → has p ps ≡ true
    → search_hash pid (pid p) (erase p ps) ≡ 0
unfolding search_hash
search_hash-erase pid p [] d h = cc
search_hash-erase pid p (q ∷ ps) (n, d) h = elim (Bool-cases (p == q)) [
  | inl e ↦ rw e (
      search_hash-absent pid (pid p) ps
        (subst (λ y. has (pid y) (map pid ps) ≡ false) (sym ((==_iff p q).0 e)) n))
  | inr e ↦ rw e (ground (arith, search_hash-erase pid p ps d, has-map pid p ps))
]
  where
    has-map : (g : ℕ → ℕ) (a : ℕ) (xs : List ℕ) → has a xs ≡ true → has (g a) (map g xs) ≡ true
    has-map g a [] h = cc
    has-map g a (x ∷ xs) h = elim (Bool-cases (a == x)) [
      | inl e ↦ let i = ap g ((==_iff a x).0 e) in ground arith
      | inr e ↦ ground (arith, has-map g a xs)
    ]

hash_proc_find :
    (p : ℕ) (s : Procs)
    → 0 < s.pid p
    → s.pid p < max_pid
    → (x : ℕ) → find_proc x (hash_proc p s) ≡ (if x == s.pid p then p else find_proc x s)
unfolding find_proc hash_proc search_hash
hash_proc_find p s a b x = elim (Bool-cases (x == s.pid p)) [
  | inl e ↦
      let i = (==_iff x (s.pid p)).0 e in
      subst (λ y. find_proc y (hash_proc p s) ≡ (if y == s.pid p then p else find_proc y s)) (sym i)
        (ground (arith, ==_refl (s.pid p), ==_refl (pid_hashfn (s.pid p))))
  | inr e ↦ ground arith
]

-- A process in the table, by its number.
abbrev pub is_hashed : ℕ → Procs → Bool
is_hashed p s = has p (s.hash_list (pid_hashfn (s.pid p)))

-- After hash_proc of a process whose number is from 1 up to MAX_PID and is that of no process in its
-- list, still no two processes of a list have one number, its number finds the process, and every
-- other number finds what it found before.
pub hash_proc-find_proc :
    (p : ℕ) (s : Procs)
    → 0 < s.pid p
    → s.pid p < max_pid
    → IsHashed s
    → has (s.pid p) (map s.pid (s.hash_list (pid_hashfn (s.pid p)))) ≡ false
    → IsHashed (hash_proc p s)
      × ((x : ℕ) → find_proc x (hash_proc p s) ≡ (if x == s.pid p then p else find_proc x s))
unfolding hash_proc
hash_proc-find_proc p s a b h n = (
  (λ c. elim (Bool-cases (c == pid_hashfn (s.pid p))) [
    | inl e ↦ rw e (n, h (pid_hashfn (s.pid p)))
    | inr e ↦ rw e (h c)
  ]),
  hash_proc_find p s a b,
)

has-map-erase :
    (g : ℕ → ℕ) (p a : ℕ) (xs : List ℕ)
    → has a (map g xs) ≡ false
    → has a (map g (erase p xs)) ≡ false
has-map-erase g p a [] h = refl
has-map-erase g p a (x ∷ xs) h = elim (Bool-cases (p == x)) [
  | inl e ↦ rw e (ground arith)
  | inr e ↦ rw e (ground (arith, has-map-erase g p a xs (ground arith)))
]

Distinct-erase :
    (g : ℕ → ℕ) (p : ℕ) (xs : List ℕ) → Distinct (map g xs) → Distinct (map g (erase p xs))
Distinct-erase g p [] d = tt
Distinct-erase g p (x ∷ xs) (n, d) = elim (Bool-cases (p == x)) [
  | inl e ↦ rw e d
  | inr e ↦ rw e (has-map-erase g p (g x) xs n, Distinct-erase g p xs d)
]

unhash_proc_find :
    (p : ℕ) (s : Procs)
    → Distinct (map s.pid (s.hash_list (pid_hashfn (s.pid p))))
    → is_hashed p s ≡ true
    → (x : ℕ) → find_proc x (unhash_proc p s) ≡ (if x == s.pid p then 0 else find_proc x s)
unfolding find_proc unhash_proc search_hash
unhash_proc_find p s d h x = elim (Bool-cases (x == s.pid p)) [
  | inl e ↦
      let i = (==_iff x (s.pid p)).0 e in
      subst (λ y. find_proc y (unhash_proc p s) ≡ (if y == s.pid p then 0 else find_proc y s))
        (sym i)
        (ground (
          arith,
          ==_refl (s.pid p),
          search_hash-erase s.pid p (s.hash_list (pid_hashfn (s.pid p))) d h,
        ))
  | inr e ↦ ground (
    arith,
    search_hash-erase_ne s.pid p x (s.hash_list (pid_hashfn x)) (==_ne (s.pid p) x (ground arith)),
  )
]

-- After unhash_proc of a process in the table, its number finds nothing, every other number finds
-- what it found before, and still no two processes of a list have one number.
pub unhash_proc-find_proc :
    (p : ℕ) (s : Procs)
    → IsHashed s
    → is_hashed p s ≡ true
    → IsHashed (unhash_proc p s)
      × ((x : ℕ) → find_proc x (unhash_proc p s) ≡ (if x == s.pid p then 0 else find_proc x s))
unfolding unhash_proc
unhash_proc-find_proc p s h i = (
  (λ c. Distinct-erase s.pid p (s.hash_list c) (h c)),
  unhash_proc_find p s (h (pid_hashfn (s.pid p))) i,
)
