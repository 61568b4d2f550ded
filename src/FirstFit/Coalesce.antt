-- ===== src/FirstFit/Coalesce.antt =====
-- The second loop of firstfit_free_pages of kern/mm/firstfit_pmm.c joins a block with its neighbours.
use li_nos.Base.{
  ℕ, ◌+◌, ◌≤◌, ◌<◌, true, false, List, [], ◌∷◌, ◌==◌, ◌≡◌, ◌∙◌, arith, refl, sym, subst, inl, inr,
  Bool-cases, ==_iff,
}
use li_nos.Pages.{Pages}
use li_nos.FirstFit.{absorb, keep, coalesce}
use li_nos.FirstFit.Blocks.{Sorted, past, Sorted-Agree, Sorted-from}
use li_nos.FirstFit.Joined.{
  Joined, Apart, absorb-Agree, absorb-head, absorb-property, coalesce_later, Joined-last,
  Joined-apart, Joined-after, Joined-before,
}

coalesce_after :
    (b x : ℕ) (t : Pages) (ps : List ℕ)
    → (b + (t b).property == x) ≡ true
    → coalesce (x ∷ ps) b t ≡ coalesce ps b (absorb b x t)
unfolding coalesce
coalesce_after b x t ps e = rw e refl

coalesce_before :
    (b x : ℕ) (t : Pages) (ps : List ℕ)
    → (b + (t b).property == x) ≡ false
    → (x + (t x).property == b) ≡ true
    → coalesce (x ∷ ps) b t ≡ coalesce ps x (absorb x b t)
unfolding coalesce
coalesce_before b x t ps e f = rw e (rw f refl)

coalesce_apart :
    (b x : ℕ) (t : Pages) (ps : List ℕ)
    → (b + (t b).property == x) ≡ false
    → (x + (t x).property == b) ≡ false
    → coalesce (x ∷ ps) b t ≡ keep x (coalesce ps b t)
unfolding coalesce
coalesce_apart b x t ps e f = rw e (rw f refl)

Apart-later :
    (b lo : ℕ) (u : Pages) (ps : List ℕ) → Sorted u lo ps → b + (u b).property ≤ lo → Apart b u ps
Apart-later b lo u [] s l = tt
Apart-later b lo u (p ∷ ps) (a, m, z, s) l =
    (inr (omega arith), Apart-later b (past u p) u ps s (omega arith))

-- Blocks behind the start of `b` do not overlap a block that ends where `b` ends.
Apart-before :
    (b x lo : ℕ) (t u : Pages) (ps : List ℕ)
    → Sorted t lo ps
    → b < lo
    → x + (u x).property ≤ b + (t b).property
    → Apart b t ps
    → Apart x u ps
Apart-before b x lo t u [] s l k h = tt
Apart-before b x lo t u (p ∷ ps) (a, m, z, s) l k (inl e, h) =
    (inr (omega arith), Apart-before b x (past t p) t u ps s (omega arith) k h)
Apart-before b x lo t u (p ∷ ps) (a, m, z, s) l k (inr e, h) =
    (inr (omega arith), Apart-before b x (past t p) t u ps s (omega arith) k h)

pub coalesce-Joined :
    (b lo : ℕ) (t : Pages) (ps : List ℕ)
    → Sorted t lo ps
    → lo ≤ b
    → (t b).head ≡ true
    → 0 < (t b).property
    → Apart b t ps
    → Joined lo b t ps (coalesce ps b t)
unfolding coalesce
coalesce-Joined b lo t [] s l h z d = Joined-last lo b t [] tt l h z
coalesce-Joined b lo t (x ∷ ps) (a, m, zx, s) l h z (dx, d) =
    elim (Bool-cases (b + (t b).property == x)) [
      | inl e ↦
          let ends = (==_iff _ _).0 e in
          let u = absorb b x t in
          let su =
            Sorted-Agree t u (past t x) ps
              (absorb-Agree b x t (past t x) (omega arith) (omega arith)) s in
          let size = absorb-property b x t (ground arith) in
          subst (Joined lo b t (x ∷ ps)) (sym (coalesce_after b x t ps e)) (
            Joined-after lo b x t ps (coalesce ps b u) (a, m, zx, s) z ends
              (coalesce-Joined b lo u ps (Sorted-from u (past t x) lo ps (omega arith) su) l
                (absorb-head b x t (ground arith) ∙ h) (omega arith)
                (Apart-later b (past t x) u ps su (omega arith))))
      | inr e ↦ elim (Bool-cases (x + (t x).property == b)) [
        | inl f ↦
            let ends = (==_iff _ _).0 f in
            let u = absorb x b t in
            let su =
              Sorted-Agree t u (past t x) ps
                (absorb-Agree x b t (past t x) (omega arith) (omega arith)) s in
            let size = absorb-property x b t (ground arith) in
            subst (Joined lo b t (x ∷ ps)) (sym (coalesce_before b x t ps e f)) (
              Joined-before lo b x t ps (coalesce ps x u) (a, m, zx, s) ends
                (coalesce-Joined x lo u ps (Sorted-from u (past t x) lo ps (omega arith) su) a
                  (absorb-head x b t (ground arith) ∙ m) (omega arith)
                  (Apart-before b x (past t x) t u ps s (omega arith) (omega arith) d)))
        | inr f ↦ elim dx [
          | inl i ↦
              let g : x + (t x).property < b = ground arith in
              subst (Joined lo b t (x ∷ ps)) (sym (coalesce_apart b x t ps e f)) (
                Joined-apart lo b x t ps (coalesce ps b t) (a, m, zx, s) g
                  (coalesce-Joined b (past t x) t ps s (omega arith) h z d))
          | inr i ↦
              let g : b + (t b).property < x = ground arith in
              let s' : Sorted t x (x ∷ ps) = (omega arith, m, zx, s) in
              subst (Joined lo b t (x ∷ ps)) (sym (coalesce_later b x t (x ∷ ps) s' g))
                (Joined-last lo b t (x ∷ ps) (omega arith, m, zx, s) l h z)
        ]
      ]
    ]
