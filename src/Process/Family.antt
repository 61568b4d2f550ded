-- ===== src/Process/Family.antt =====
-- set_links and remove_links of kern/process/proc.c: the children of a process, the youngest first,
-- through `cptr` of the parent, `optr` to the next older and `yptr` to the next younger one.
use li_nos.Base.{
  ℕ, true, false, List, [], ◌∷◌, ◌==◌, ◌≡◌, arith, has, refl, sym, subst, inl, inr, ◌⊎◌, ==_iff,
  ==_ne, ==_refl, Bool-cases, All, if◌then◌else◌, erase, ◌≢◌, Distinct,
}
use li_nos.Process.{Procs, set_links, remove_links}
use li_nos.Process.Siblings.{
  Siblings, Siblings-frame, Siblings-cons, younger_in, Distinct-erase, Siblings-erase,
}

abbrev pub Children : Procs → ℕ → List ℕ → Type 0
Children s q cs = Siblings s.yptr s.optr 0 (s.cptr q) cs × Distinct cs

-- Two entries that a list does not have.
unwritten :
    (y o y' o' : ℕ → ℕ) (a b prev first : ℕ) (cs : List ℕ)
    → ((x : ℕ) → x ≢ 0 → (x == a) ≡ false → (x == b) ≡ false → (y' x ≡ y x) × (o' x ≡ o x))
    → has a cs ≡ false
    → has b cs ≡ false
    → Siblings y o prev first cs
    → All (λ c. (y' c ≡ y c) × (o' c ≡ o c)) cs
unwritten y o y' o' a b prev first [] f h k s = tt
unwritten y o y' o' a b prev first (c ∷ cs) f h k (e, g, i, s) = (
  f c g (ground (arith, ==_ne c a)) (ground (arith, ==_ne c b)),
  unwritten y o y' o' a b c (o c) cs f (ground arith) (ground arith) s,
)

-- No member is the null pointer.
has-null :
    (y o : ℕ → ℕ) (prev first : ℕ) (cs : List ℕ) → Siblings y o prev first cs → has 0 cs ≡ false
has-null y o prev first [] s = refl
has-null y o prev first (c ∷ cs) (e, g, i, s) = ground (arith, has-null y o c (o c) cs s, ==_ne 0 c)

-- set_links makes a process that is in no list the youngest child of its parent, before the others in
-- their order, and keeps the children of every other process whose list has neither the new process
-- nor the youngest child of that parent.
pub set_links-Children :
    (p : ℕ) (s : Procs) (cs : List ℕ)
    → p ≢ 0
    → has p cs ≡ false
    → Children s (s.parent p) cs
    → Children (set_links p s) (s.parent p) (p ∷ cs)
      × ((q : ℕ) (ds : List ℕ)
          → (q == s.parent p) ≡ false
          → has p ds ≡ false
          → has (s.cptr (s.parent p)) ds ≡ false
          → Children s q ds
          → Children (set_links p s) q ds)
unfolding set_links
set_links-Children p s cs np n (h, d) =
    let first = s.cptr (s.parent p) in
    let y' = (set_links p s).yptr in
    let o' = (set_links p s).optr in
    let yp : y' p ≡ 0 = not_first cs h n in
    let op : o' p ≡ first = ground (arith, ==_refl p) in
    (
      (
        subst (λ x. Siblings y' o' 0 x (p ∷ cs)) (ground (arith, ==_refl (s.parent p)))
            (Siblings-cons s.yptr s.optr y' o' p first cs np n d h yp op
              (λ x z k. ground (arith, ==_ne x 0)) (λ x k. ground arith)),
        (n, d),
      ),
      λ q ds k np' nf (w, dd). (
        Siblings-frame s.yptr s.optr y' o' 0 ((set_links p s).cptr q) ds
            (unwritten s.yptr s.optr y' o' p first 0 (s.cptr q) ds
              (λ x z i j. (ground arith, ground arith)) np' nf w)
            (subst (λ x. Siblings s.yptr s.optr 0 x ds) (ground arith) w),
        dd,
      ),
    )
  where
    not_first :
        (es : List ℕ)
        → Siblings s.yptr s.optr 0 (s.cptr (s.parent p)) es
        → has p es ≡ false
        → (set_links p s).yptr p ≡ 0
    not_first [] w k = ground (arith, ==_refl p)
    not_first (e ∷ es) (i, w, v, u) k = ground (arith, ==_refl p)

-- remove_links takes a process out of the children of its parent, the others in their order, and keeps
-- the children of every other process whose list has neither of its two neighbours.
pub remove_links-Children :
    (p : ℕ) (s : Procs) (cs : List ℕ)
    → has p cs ≡ true
    → Children s (s.parent p) cs
    → Children (remove_links p s) (s.parent p) (erase p cs)
      × ((q : ℕ) (ds : List ℕ)
          → (q == s.parent p) ≡ false
          → has (s.optr p) ds ≡ false
          → has (s.yptr p) ds ≡ false
          → Children s q ds
          → Children (remove_links p s) q ds)
unfolding remove_links
remove_links-Children p s cs m (h, d) =
    let first = s.cptr (s.parent p) in
    let y' = (remove_links p s).yptr in
    let o' = (remove_links p s).optr in
    let no_null = has-null s.yptr s.optr 0 first cs h in
    (
      (
        subst (λ x. Siblings y' o' 0 x (erase p cs))
            (sym (new_first (younger_in s.yptr s.optr 0 first p cs h d m) no_null))
            (Siblings-erase s.yptr s.optr y' o' p 0 first cs (λ x z. ground (arith, ==_ne x 0))
              (λ x z. ground (arith, ==_ne x 0)) h d no_null m),
        Distinct-erase p cs d,
      ),
      λ q ds k no ny (w, dd). (
        Siblings-frame s.yptr s.optr y' o' 0 ((remove_links p s).cptr q) ds
            (unwritten s.yptr s.optr y' o' (s.optr p) (s.yptr p) 0 (s.cptr q) ds
              (λ x z i j. (ground arith, ground arith)) no ny w)
            (subst (λ x. Siblings s.yptr s.optr 0 x ds) (ground arith) w),
        dd,
      ),
    )
  where
    new_first :
        ((s.cptr (s.parent p) ≡ p) × (s.yptr p ≡ 0))
          ⊎ (((s.cptr (s.parent p) == p) ≡ false) × (has (s.yptr p) cs ≡ true))
        → has 0 cs ≡ false
        → (remove_links p s).cptr (s.parent p)
          ≡ (if s.cptr (s.parent p) == p then s.optr p else s.cptr (s.parent p))
    new_first (inl (a, b)) z = ground (arith, ==_refl p, ==_refl (s.parent p))
    new_first (inr (a, b)) z = elim (Bool-cases (s.yptr p == 0)) [
      | inl e ↦ let i = (==_iff (s.yptr p) 0).0 e in ground arith
      | inr e ↦ ground (arith, ==_refl (s.parent p))
    ]
