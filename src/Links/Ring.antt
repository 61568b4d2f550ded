-- ===== src/Links/Ring.antt =====
-- What a well-formed list of libs/list.h is: a ring of distinct entries through its head.
use li_nos.Base.{ℕ, ◌≢◌, ◌≡◌, true, false, List, [], ◌∷◌, ◌++◌, arith, has, has-append, Distinct}
use li_nos.Links.{Links}

-- `q` follows `p`.
abbrev pub Linked : Links → ℕ → ℕ → Type 0
Linked h p q = (h.next p ≡ q) × (h.prev q ≡ p)

-- From `a` the entries `xs` lead, in this order, to `b`.
abbrev pub Chain : Links → ℕ → List ℕ → ℕ → Type 0
Chain h a [] b = Linked h a b
Chain h a (x ∷ xs) b = Linked h a x × Chain h x xs b

-- The list with head `head` holds the distinct entries `xs`, in this order.
pub record IsRing (h : Links) (head : ℕ) (xs : List ℕ) : Type 0 where
  pub chain : Chain h head xs head
  pub head_out : has head xs ≡ false
  pub distinct : Distinct xs

-- The entry before what follows `xs` in a chain from `a`, and the entry at its front.
abbrev pub last_of : ℕ → List ℕ → ℕ
last_of a [] = a
last_of a (x ∷ xs) = last_of x xs

abbrev pub first_of_list : List ℕ → ℕ → ℕ
first_of_list [] b = b
first_of_list (x ∷ xs) b = x

-- A chain survives what leaves its own fields alone.
pub Chain-frame :
    (g h : Links) (a : ℕ) (xs : List ℕ) (b : ℕ)
    → Chain h a xs b
    → ((p : ℕ) → has p (a ∷ xs) ≡ true → g.next p ≡ h.next p)
    → ((p : ℕ) → has p (xs ++ b ∷ []) ≡ true → g.prev p ≡ h.prev p)
    → Chain g a xs b
Chain-frame g h a [] b c sn sp = ground (arith, sn a, sp b)
Chain-frame g h a (x ∷ xs) b c sn sp = (
  ground (arith, sn a, sp x),
  Chain-frame g h x xs b c.1 (λ p m. sn p (ground arith)) (λ p m. sp p (ground arith)),
)

pub Distinct-append_left : (xs ys : List ℕ) → Distinct (xs ++ ys) → Distinct xs
Distinct-append_left [] ys d = tt
Distinct-append_left (x ∷ xs) ys d =
    (ground (arith, has-append x xs ys), Distinct-append_left xs ys d.1)

pub Distinct-insert :
    (xs ys : List ℕ) (e : ℕ)
    → Distinct (xs ++ ys)
    → has e (xs ++ ys) ≡ false
    → Distinct (xs ++ e ∷ ys)
Distinct-insert [] ys e d out = (out, d)
Distinct-insert (x ∷ xs) ys e d out = (
  ground (arith, has-append x xs ys, has-append x xs (e ∷ ys)),
  Distinct-insert xs ys e d.1 (ground arith),
)

pub Distinct-remove :
    (xs ys : List ℕ) (e : ℕ)
    → Distinct (xs ++ e ∷ ys)
    → Distinct (xs ++ ys) × (has e (xs ++ ys) ≡ false)
Distinct-remove [] ys e d = (d.1, d.0)
Distinct-remove (x ∷ xs) ys e d =
    let ih = Distinct-remove xs ys e d.1 in
    (
      (ground (arith, has-append x xs ys, has-append x xs (e ∷ ys)), ih.0),
      ground (arith, has-append x xs (e ∷ ys), ih),
    )

pub ne-last_of : (a x : ℕ) (xs : List ℕ) → has a (x ∷ xs) ≡ false → a ≢ last_of x xs
ne-last_of a x [] out = ground arith
ne-last_of a x (y ∷ xs) out = ne-last_of a y xs (ground arith)

pub ne-first_of : (a : ℕ) (ys : List ℕ) (b : ℕ) → has a ys ≡ false → a ≢ b → a ≢ first_of_list ys b
ne-first_of a [] b out ne = ne
ne-first_of a (y ∷ ys) b out ne = ground arith

-- The two entries at a point of a chain are linked.
pub prev-first_of :
    (h : Links) (a : ℕ) (xs ys : List ℕ) (b : ℕ)
    → Chain h a (xs ++ ys) b
    → h.prev (first_of_list ys b) ≡ last_of a xs
prev-first_of h a [] [] b c = c.1
prev-first_of h a [] (y ∷ ys) b c = c.0.1
prev-first_of h a (x ∷ xs) ys b c = prev-first_of h x xs ys b c.1

pub next-first_of :
    (h : Links) (a : ℕ) (xs ys : List ℕ) (b : ℕ)
    → Chain h a (xs ++ ys) b
    → h.next (last_of a xs) ≡ first_of_list ys b
next-first_of h a [] [] b c = c.0
next-first_of h a [] (y ∷ ys) b c = c.0.0
next-first_of h a (x ∷ xs) ys b c = next-first_of h x xs ys b c.1
