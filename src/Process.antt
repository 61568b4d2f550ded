-- ===== src/Process.antt =====
-- kern/process/proc.c: the set of processes, their numbers, and the links between relatives. A process
-- is named by the address of its `proc_struct`, with `NULL` as 0.
pub mod Passes
pub mod Pid
pub mod Hash
pub mod Siblings
pub mod Family
mod Tests
use li_nos.Base.{
  ℕ, zero, suc, ◌+◌, ◌-◌, ◌*◌, ◌/◌, ◌%◌, ◌^◌, Bool, true, false, ◌&&◌, Option, none, some, List, [],
  ◌∷◌, if◌then◌else◌, ◌==◌, ltb, leb, update, erase,
}

abbrev pub max_process : ℕ
max_process = 4096

abbrev pub max_pid : ℕ
max_pid = 8192

-- `proc_list` with the processes in its order, `hash_list` likewise, the fields of `proc_struct` that
-- these functions use, and the two static variables of `get_pid`.
pub record Procs : Type 0 where
  pub proc_list : List ℕ
  pub hash_list : ℕ → List ℕ
  pub nr_process : ℕ
  pub pid : ℕ → ℕ
  pub parent : ℕ → ℕ
  pub cptr : ℕ → ℕ
  pub yptr : ℕ → ℕ
  pub optr : ℕ → ℕ
  pub last_pid : ℕ
  pub next_safe : ℕ

-- How the loop over `proc_list` ends: with a number, or by `goto repeat`.
pub data Scan : Type 0 where
  found : (last_pid next_safe : ℕ) → Scan
  again : (last_pid : ℕ) → Scan

pub scan : List ℕ → (pid : ℕ → ℕ) → (last next : ℕ) → Scan
scan [] pid l n = found l n
scan (p ∷ ps) pid l n =
    let taken =
      if leb n (l + 1)
      then again (if leb max_pid (l + 1) then 1 else l + 1)
      else scan ps pid (l + 1) n in
    let closer = scan ps pid l (pid p) in
    let other = scan ps pid l n in
    if pid p == l then taken else if ltb l (pid p) && ltb (pid p) n then closer else other

pub repeat : (fuel : ℕ) → List ℕ → (pid : ℕ → ℕ) → (last : ℕ) → Option (ℕ × ℕ)
unfolding scan
repeat zero ps pid l = none
repeat (suc k) ps pid l = elim (scan ps pid l max_pid) [
  | found l' n ↦ some (l', n)
  | again l' ↦ repeat k ps pid l'
]

pub renumber : ℕ → ℕ → Procs → ℕ × Procs
renumber l n s = (l, record s { last_pid = l; next_safe = n })

-- The part of `get_pid` behind the label `inside`.
pub search_pid : (fuel : ℕ) → (last : ℕ) → Procs → Option (ℕ × Procs)
unfolding repeat renumber
search_pid k l s = elim (repeat k s.proc_list s.pid l) [
  | none ↦ none
  | some (l', n) ↦ some (renumber l' n s)
]

pub get_pid : (fuel : ℕ) → Procs → Option (ℕ × Procs)
unfolding search_pid renumber
get_pid k s =
    let l = s.last_pid + 1 in
    if leb max_pid l
    then search_pid k 1 s
    else if leb s.next_safe l
    then search_pid k l s
    else some (renumber l s.next_safe s)

-- libs/hash.c
pub hash32 : (val bits : ℕ) → ℕ
hash32 val bits = ((val * 0x9E370001) % 2 ^ 32) / 2 ^ (32 - bits)

pub pid_hashfn : ℕ → ℕ
unfolding hash32
pid_hashfn x = hash32 x 10

pub hash_proc : ℕ → Procs → Procs
unfolding pid_hashfn
hash_proc p s =
    let b = pid_hashfn (s.pid p) in
    record s { hash_list = update s.hash_list b (p ∷ s.hash_list b) }

-- `list_del` takes the process out of the list that it is in.
pub unhash_proc : ℕ → Procs → Procs
unhash_proc p s = record s { hash_list = λ b. erase p (s.hash_list b) }

pub search_hash : (pid : ℕ → ℕ) → ℕ → List ℕ → ℕ
search_hash pid x [] = 0
search_hash pid x (p ∷ ps) = if pid p == x then p else search_hash pid x ps

pub find_proc : ℕ → Procs → ℕ
unfolding search_hash pid_hashfn
find_proc x s =
    if ltb 0 x && ltb x max_pid then search_hash s.pid x (s.hash_list (pid_hashfn x)) else 0

pub set_links : ℕ → Procs → Procs
set_links p s =
    let old = s.cptr (s.parent p) in
    let y = update s.yptr p 0 in
    record s {
      proc_list = p ∷ s.proc_list;
      yptr = if old == 0 then y else update y old p;
      optr = update s.optr p old;
      cptr = update s.cptr (s.parent p) p;
      nr_process = s.nr_process + 1;
    }

pub remove_links : ℕ → Procs → Procs
remove_links p s =
    let older = s.optr p in
    let younger = s.yptr p in
    record s {
      proc_list = erase p s.proc_list;
      yptr = if older == 0 then s.yptr else update s.yptr older younger;
      optr = if younger == 0 then s.optr else update s.optr younger older;
      cptr = if younger == 0 then update s.cptr (s.parent p) older else s.cptr;
      nr_process = s.nr_process - 1;
    }
