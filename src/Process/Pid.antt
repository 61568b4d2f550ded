-- ===== src/Process/Pid.antt =====
-- get_pid of kern/process/proc.c: a number that no process has, found in a bounded number of passes.
use li_nos.Base.{
  ℕ, zero, suc, ◌+◌, ◌*◌, ◌≤◌, ◌<◌, true, false, List, [], ◌∷◌, Option, some, leb, ◌≡◌, arith, has,
  length, map, refl, inl, inr, Bool-cases, erase,
}
use li_nos.Process.{Procs, repeat, renumber, search_pid, get_pid, max_pid, max_process}
use li_nos.Process.Passes.{is_used, Safe, Free, repeat-Ends}

length-erase : (a : ℕ) (xs : List ℕ) → has a xs ≡ true → suc (length (erase a xs)) ≡ length xs
length-erase a [] h = cc
length-erase a (x ∷ xs) h = ground (arith, length-erase a xs)

has-erase_ne : (a b : ℕ) (xs : List ℕ) → a < b → has a (erase b xs) ≡ false → has a xs ≡ false
has-erase_ne a b [] l h = refl
has-erase_ne a b (x ∷ xs) l h = ground (arith, has-erase_ne a b xs l)

-- Among n + 1 numbers one is missing in a list of at most n.
missing : (n : ℕ) (xs : List ℕ) → length xs < n → (f : ℕ) × (1 ≤ f) × (f ≤ n) × (has f xs ≡ false)
missing zero xs h = absurd (omega arith)
missing (suc n) xs h = elim (Bool-cases (has (suc n) xs)) [
  | inl e ↦
      let (f, a, b, c) = missing n (erase (suc n) xs) (omega (arith, length-erase (suc n) xs e)) in
      (f, a, omega arith, has-erase_ne f (suc n) xs (omega arith) c)
  | inr e ↦ (suc n, omega arith, omega arith, e)
]

length-map : (g : ℕ → ℕ) (xs : List ℕ) → length (map g xs) ≡ length xs
length-map g [] = refl
length-map g (x ∷ xs) = omega (arith, length-map g xs)

Free-is_used :
    (pid : ℕ → ℕ) (l n : ℕ) (ps : List ℕ) → l < n → Free pid l n ps → is_used pid ps l ≡ false
Free-is_used pid l n [] h f = refl
Free-is_used pid l n (p ∷ ps) h (inl a, f) = ground (arith, Free-is_used pid l n ps h f)
Free-is_used pid l n (p ∷ ps) h (inr a, f) = ground (arith, Free-is_used pid l n ps h f)

Free-Safe : (pid : ℕ → ℕ) (l n : ℕ) (ps : List ℕ) → Free pid l n ps → Safe pid l n ps
Free-Safe pid l n [] f = tt
Free-Safe pid l n (p ∷ ps) (inl a, f) = (inl (omega arith), Free-Safe pid l n ps f)
Free-Safe pid l n (p ∷ ps) (inr a, f) = (inr a, Free-Safe pid l n ps f)

Safe-Free : (pid : ℕ → ℕ) (l n : ℕ) (ps : List ℕ) → Safe pid l n ps → Free pid (l + 1) n ps
Safe-Free pid l n [] f = tt
Safe-Free pid l n (p ∷ ps) (inl a, f) = (inl (omega arith), Safe-Free pid l n ps f)
Safe-Free pid l n (p ∷ ps) (inr a, f) = (inr a, Safe-Free pid l n ps f)

-- Between two calls: the numbers strictly between the two static variables are free.
abbrev pub IsNumbered : Procs → Type 0
IsNumbered s = (s.next_safe ≤ max_pid) × Safe s.pid s.last_pid s.next_safe s.proc_list

-- The number, and the static variables that `get_pid` leaves.
abbrev pub Numbers : Procs → Option (ℕ × Procs) → Type 0
Numbers s o =
    (x : ℕ) × (n : ℕ) × (o ≡ some (x, record s { last_pid = x; next_safe = n }))
    × (1 ≤ x)
    × (x < max_pid)
    × (is_used s.pid s.proc_list x ≡ false)
    × IsNumbered (record s { last_pid = x; next_safe = n })

search_pid_runs :
    (k l x n : ℕ) (s : Procs)
    → repeat k s.proc_list s.pid l ≡ some (x, n)
    → search_pid k l s ≡ some (x, record s { last_pid = x; next_safe = n })
unfolding search_pid renumber
search_pid_runs k l x n s e = rw (e, search_pid) refl

search_pid-Numbers :
    (k l : ℕ) (s : Procs)
    → length s.proc_list < max_process
    → 2 * max_pid < k
    → 1 ≤ l
    → l < max_pid
    → Numbers s (search_pid k l s)
search_pid-Numbers k l s few fuel a b =
    let (f, fa, fb, fc) =
      missing max_process (map s.pid s.proc_list) (omega (arith, length-map s.pid s.proc_list)) in
    let (x, n, e, xa, xn, nm, w) =
      repeat-Ends k s.pid s.proc_list f l fc fa (omega arith) a b (ground arith) in
    (
      x,
      n,
      search_pid_runs k l x n s e,
      xa,
      omega arith,
      Free-is_used s.pid x n s.proc_list xn w,
      (nm, Free-Safe s.pid x n s.proc_list w),
    )

-- With fewer than MAX_PROCESS processes, and while no process has a number strictly between the two
-- static variables, get_pid ends within 2 * MAX_PID + 1 passes over the list: with a number from 1 up
-- to MAX_PID that no process of the list has. Again no process has a number strictly between the
-- static variables, and nothing else changes.
pub get_pid-Numbers :
    (s : Procs)
    → length s.proc_list < max_process
    → IsNumbered s
    → Numbers s (get_pid (2 * max_pid + 1) s)
unfolding get_pid renumber
get_pid-Numbers s few (nm, safe) = elim (Bool-cases (leb max_pid (s.last_pid + 1))) [
  | inl e ↦
      rw e (search_pid-Numbers (2 * max_pid + 1) 1 s few (omega arith) (omega arith) (omega arith))
  | inr e ↦ rw e (elim (Bool-cases (leb s.next_safe (s.last_pid + 1))) [
    | inl f ↦ rw f (
        search_pid-Numbers (2 * max_pid + 1) (s.last_pid + 1) s few (omega arith) (omega arith)
          (ground arith))
    | inr f ↦ rw f (
        let w = Safe-Free s.pid s.last_pid s.next_safe s.proc_list safe in
        (
          s.last_pid + 1,
          s.next_safe,
          refl,
          omega arith,
          ground arith,
          Free-is_used s.pid (s.last_pid + 1) s.next_safe s.proc_list (ground arith) w,
          (nm, Free-Safe s.pid (s.last_pid + 1) s.next_safe s.proc_list w),
        ))
  ])
]
