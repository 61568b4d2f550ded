-- ===== src/Process/Tests.antt =====
-- Runs on a process at 5 with two children, at 10 and 20, and a new process at 30.
use li_nos.Base.{
  ℕ, ◌+◌, ◌*◌, ◌≡◌, false, List, [], ◌∷◌, refl, arith, ◌==◌, if◌then◌else◌, inl, inr, has,
  Bool-cases,
}
use li_nos.Process.{
  Procs, hash_proc, unhash_proc, find_proc, set_links, remove_links, get_pid, max_pid, pid_hashfn,
}
use li_nos.Process.Pid.{Numbers, get_pid-Numbers}
use li_nos.Process.Hash.{IsHashed, hash_proc-find_proc, unhash_proc-find_proc}
use li_nos.Process.Family.{Children, set_links-Children, remove_links-Children}

abbrev family : Procs
family = record {
  proc_list = 20 ∷ 10 ∷ [];
  hash_list = λ b. if b == 632 then 10 ∷ [] else if b == 241 then 20 ∷ [] else [];
  nr_process = 3;
  pid = λ p. if p == 10 then 1 else if p == 20 then 2 else 3;
  parent = λ p. 5;
  cptr = λ p. if p == 5 then 20 else 0;
  yptr = λ p. if p == 10 then 20 else 0;
  optr = λ p. if p == 20 then 10 else 0;
  last_pid = 8191;
  next_safe = 8192;
}

get_pid-Numbers_example : Numbers family (get_pid (2 * max_pid + 1) family)
get_pid-Numbers_example =
    get_pid-Numbers family (omega arith) (omega arith, (inl (omega arith), (inl (omega arith), tt)))

family-IsHashed : IsHashed family
family-IsHashed b = elim (Bool-cases (b == 632)) [
  | inl e ↦ rw e (refl, tt)
  | inr e ↦ rw e (elim (Bool-cases (b == 241)) [ inl f ↦ rw f (refl, tt) | inr f ↦ rw f tt ])
]

hash_proc-find_proc_example :
    IsHashed (hash_proc 30 family)
    × ((x : ℕ) → find_proc x (hash_proc 30 family) ≡ (if x == 3 then 30 else find_proc x family))
unfolding pid_hashfn li_nos.Process.hash32
hash_proc-find_proc_example =
    hash_proc-find_proc 30 family (omega arith) (omega arith) family-IsHashed refl

unhash_proc-find_proc_example :
    IsHashed (unhash_proc 10 family)
    × ((x : ℕ) → find_proc x (unhash_proc 10 family) ≡ (if x == 1 then 0 else find_proc x family))
unfolding pid_hashfn li_nos.Process.hash32
unhash_proc-find_proc_example = unhash_proc-find_proc 10 family family-IsHashed refl

set_links-Children_example :
    Children (set_links 30 family) 5 (30 ∷ 20 ∷ 10 ∷ [])
    × ((q : ℕ) (ds : List ℕ)
        → (q == 5) ≡ false
        → has 30 ds ≡ false
        → has 20 ds ≡ false
        → Children family q ds
        → Children (set_links 30 family) q ds)
set_links-Children_example =
    set_links-Children 30 family (20 ∷ 10 ∷ []) (omega arith) refl
      ((refl, omega arith, refl, (refl, omega arith, refl, refl)), (refl, (refl, tt)))

remove_links-Children_example :
    Children (remove_links 20 family) 5 (10 ∷ [])
    × ((q : ℕ) (ds : List ℕ)
        → (q == 5) ≡ false
        → has 10 ds ≡ false
        → has 0 ds ≡ false
        → Children family q ds
        → Children (remove_links 20 family) q ds)
remove_links-Children_example =
    remove_links-Children 20 family (20 ∷ 10 ∷ []) refl
      ((refl, omega arith, refl, (refl, omega arith, refl, refl)), (refl, (refl, tt)))
