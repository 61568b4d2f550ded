-- ===== src/Swap/Clock.antt =====
-- The clock of kern/mm/swap_clock.c against a description of the page that it chooses.
use li_nos.Base.{
  ℕ, suc, ◌≢◌, subst, ◌+◌, Bool, true, false, not, ◌≡◌, ◌∙◌, refl, sym, ap, arith, inl, inr, Option,
  none, some, List, [], ◌∷◌, ◌++◌, has, has-append, erase, Distinct, Option-cases, ==_refl,
}
use li_nos.Swap.{
  Pte, clear_flag, is_clean, is_empty, reversed, first_of, clock_pass, clock_search,
  clock_swap_out_victim,
}
use li_nos.Swap.Pass.{
  first_such, clean_in, entries, first_such-same, pass, clock_pass-pass, has-entries,
  pass-first_such, pass-cleared,
}

abbrev pub or_else : Option ℕ → Option ℕ → Option ℕ
or_else (some p) o = some p
or_else none o = o

-- The first page that was neither used nor written; else the first that was not written; else the first.
abbrev pub second_chance : (get_pte : ℕ → ℕ) → (ℕ → Pte) → List ℕ → Option ℕ
second_chance get_pte t l =
    or_else (first_such (clean_in get_pte t) l)
      (or_else (first_such (λ p. not (t (get_pte p)).dirty) l) (first_of l))

has-reversed : (p : ℕ) (l : List ℕ) → has p (reversed l) ≡ has p l
has-reversed p [] = refl
has-reversed p (x ∷ xs) = has-append p (reversed xs) (x ∷ []) ∙ ground (arith, has-reversed p xs)

Distinct-end : (w : ℕ) (xs : List ℕ) → Distinct xs → has w xs ≡ false → Distinct (xs ++ w ∷ [])
Distinct-end w [] d h = (refl, tt)
Distinct-end w (x ∷ xs) (a, d) h =
    (has-append x xs (w ∷ []) ∙ ground arith, Distinct-end w xs d (ground arith))

Distinct-reversed : (l : List ℕ) → Distinct l → Distinct (reversed l)
Distinct-reversed [] d = tt
Distinct-reversed (x ∷ xs) (a, d) =
    Distinct-end x (reversed xs) (Distinct-reversed xs d) (has-reversed x xs ∙ a)

entries-append : (e : ℕ → ℕ) (l m : List ℕ) → entries e (l ++ m) ≡ entries e l ++ entries e m
entries-append e [] m = refl
entries-append e (p ∷ ps) m = ap (λ y. e p ∷ y) (entries-append e ps m)

entries-reversed : (e : ℕ → ℕ) (l : List ℕ) → entries e (reversed l) ≡ reversed (entries e l)
entries-reversed e [] = refl
entries-reversed e (p ∷ ps) =
    entries-append e (reversed ps) (p ∷ []) ∙ ap (λ y. y ++ e p ∷ []) (entries-reversed e ps)

search_found :
    (e : ℕ → ℕ) (n i p : ℕ) (l : List ℕ) (t t' : ℕ → Pte)
    → is_empty l ≡ false
    → clock_pass e i (reversed l) t ≡ some (some p, t')
    → clock_search e (suc n) i l t ≡ some (some p, t')
unfolding clock_search
search_found e n i p l t t' h f = rw h (rw f refl)

search_next :
    (e : ℕ → ℕ) (n i : ℕ) (l : List ℕ) (t t' : ℕ → Pte)
    → is_empty l ≡ false
    → clock_pass e i (reversed l) t ≡ some (none, t')
    → clock_search e (suc n) i l t ≡ clock_search e n (i + 1) l t'
unfolding clock_search
search_next e n i l t t' h f = rw h (rw f refl)

first_such-all :
    (f : ℕ → Bool) (l : List ℕ)
    → ((p : ℕ) → has p l ≡ true → f p ≡ true)
    → first_such f l ≡ first_of l
first_such-all f [] h = refl
first_such-all f (p ∷ ps) h = rw (h p (ground (arith, ==_refl p))) refl

-- The entries after a round without a page.
module _ (e : ℕ → ℕ) (l : List ℕ) (t : ℕ → Pte) (d : Distinct (entries e (reversed l)))
    (n0 : first_such (clean_in e t) (reversed l) ≡ none) where
  abbrev first_round : ℕ → Pte
  first_round = (pass e 0 (reversed l) t).1

  once_cleared : (p : ℕ) → has p (reversed l) ≡ true → first_round (e p) ≡ clear_flag 0 (t (e p))
  once_cleared p h =
      pass-cleared e 0 (reversed l) t d n0 (e p) ∙ rw (has-entries e p (reversed l) h) refl

  clean_first : (p : ℕ) → has p (reversed l) ≡ true → clean_in e first_round p ≡ not (t (e p)).dirty
  clean_first p h = ap is_clean (once_cleared p h)

  second_found :
      first_such (clean_in e first_round) (reversed l)
      ≡ first_such (λ p. not (t (e p)).dirty) (reversed l)
  second_found =
      first_such-same (clean_in e first_round) (λ p. not (t (e p)).dirty) (reversed l) clean_first

  abbrev second_round : ℕ → Pte
  second_round = (pass e 1 (reversed l) first_round).1

  twice_cleared :
      first_such (clean_in e first_round) (reversed l) ≡ none
      → (p : ℕ) → has p (reversed l) ≡ true
      → second_round (e p) ≡ clear_flag 1 (clear_flag 0 (t (e p)))
  twice_cleared n1 p h =
      pass-cleared e 1 (reversed l) first_round d n1 (e p)
      ∙ rw (has-entries e p (reversed l) h) (ap (clear_flag 1) (once_cleared p h))

  clean_second :
      first_such (clean_in e first_round) (reversed l) ≡ none
      → (p : ℕ) → has p (reversed l) ≡ true
      → clean_in e second_round p ≡ true
  clean_second n1 p h = ap is_clean (twice_cleared n1 p h)

  third_found :
      first_such (clean_in e first_round) (reversed l) ≡ none
      → first_such (clean_in e second_round) (reversed l) ≡ first_of (reversed l)
  third_found n1 = first_such-all (clean_in e second_round) (reversed l) (clean_second n1)

-- What the clock chooses, and the list that is left.
abbrev pub Chooses : (ℕ → ℕ) → List ℕ → (ℕ → Pte) → Option (Option ℕ × List ℕ × (ℕ → Pte)) → Type 0
Chooses e l t o =
    (p : ℕ) × (t' : ℕ → Pte) × (second_chance e t (reversed l) ≡ some p)
    × (o ≡ some (some p, erase p l, t'))

swaps :
    (e : ℕ → ℕ) (l : List ℕ) (t t' : ℕ → Pte) (p : ℕ)
    → clock_search e 3 0 l t ≡ some (some p, t')
    → second_chance e t (reversed l) ≡ some p
    → Chooses e l t (clock_swap_out_victim e l t)
unfolding clock_swap_out_victim
swaps e l t t' p r c = (p, t', c, rw r refl)

filled_end : (xs : List ℕ) (x : ℕ) → (p : ℕ) × (first_of (xs ++ x ∷ []) ≡ some p)
filled_end [] x = (x, refl)
filled_end (y ∷ ys) x = (y, refl)

last : (l : List ℕ) → is_empty l ≡ false → (p : ℕ) × (first_of (reversed l) ≡ some p)
last [] e = cc
last (x ∷ xs) e = filled_end (reversed xs) x

-- A round that finds what `o` says.
round_runs :
    (e : ℕ → ℕ) (i : ℕ) (l : List ℕ) (t : ℕ → Pte) (o : Option ℕ)
    → ((p : ℕ) → has p l ≡ true → e p ≢ 0)
    → (pass e i (reversed l) t).0 ≡ o
    → clock_pass e i (reversed l) t ≡ some (o, (pass e i (reversed l) t).1)
round_runs e i l t o f h =
    clock_pass-pass e i (reversed l) t (λ p m. f p (sym (has-reversed p l) ∙ m))
    ∙ ap (λ x. some (x, (pass e i (reversed l) t).1)) h

-- From a list of pages that is not empty, whose page table entries in the address space at hand exist
-- and are different ones, the clock follows no null pointer, fails no assertion and always finds a page,
-- at the latest in its third round, and takes it out of the list: going from the oldest page on, the
-- first that was neither used nor written by its entry; if there is none, the first that was not
-- written; if there is none, the oldest.
pub clock_swap_out_victim-second_chance :
    (get_pte : ℕ → ℕ) (l : List ℕ) (t : ℕ → Pte)
    → ((p : ℕ) → has p l ≡ true → get_pte p ≢ 0)
    → Distinct (entries get_pte l)
    → is_empty l ≡ false
    → Chooses get_pte l t (clock_swap_out_victim get_pte l t)
clock_swap_out_victim-second_chance e l t filled d ne =
    let r = reversed l in
    let dr = subst Distinct (sym (entries-reversed e l)) (Distinct-reversed (entries e l) d) in
    let f0 = pass-first_such e 0 r t dr in
    let t1 = (pass e 0 r t).1 in
    elim (Option-cases (first_such (clean_in e t) r)) [
      | inr (p, s0) ↦
          swaps e l t t1 p
            (search_found e 2 0 p l t t1 ne (round_runs e 0 l t (some p) filled (f0 ∙ s0)))
            (rw s0 refl)
      | inl n0 ↦
          let step0 = search_next e 2 0 l t t1 ne (round_runs e 0 l t none filled (f0 ∙ n0)) in
          let f1 = pass-first_such e 1 r t1 dr in
          let same1 = second_found e l t dr n0 in
          let t2 = (pass e 1 r t1).1 in
          elim (Option-cases (first_such (clean_in e t1) r)) [
            | inr (p, s1) ↦
                swaps e l t t2 p
                  (step0
                    ∙ search_found e 1 1 p l t1 t2 ne
                        (round_runs e 1 l t1 (some p) filled (f1 ∙ s1)))
                  (rw n0 (rw (sym same1 ∙ s1) refl))
            | inl n1 ↦
                let step1 =
                  search_next e 1 1 l t1 t2 ne (round_runs e 1 l t1 none filled (f1 ∙ n1)) in
                let (p, h) = last l ne in
                let f2 = pass-first_such e 2 r t2 dr ∙ third_found e l t dr n0 n1 ∙ h in
                swaps e l t (pass e 2 r t2).1 p
                  (step0
                    ∙ step1
                    ∙ search_found e 0 2 p l t2 (pass e 2 r t2).1 ne
                        (round_runs e 2 l t2 (some p) filled f2))
                  (rw n0 (rw (sym same1 ∙ n1) h))
          ]
    ]
