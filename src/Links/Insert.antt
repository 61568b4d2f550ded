-- ===== src/Links/Insert.antt =====
-- Insertion into a list of libs/list.h: list_init, list_add, list_add_before, list_add_after.
use li_nos.Base.{
  ℕ, ◌≡◌, ◌≢◌, refl, true, false, List, [], ◌∷◌, ◌++◌, ◌∙◌, ◌↔◌, arith, has, has-append, Distinct,
}
use li_nos.Links.{
  Links, list_init, list_add, list_add_before, list_add_after, raw_list_add, list_empty,
}
use li_nos.Links.Ring.{
  Linked, Chain, IsRing, last_of, first_of_list, Chain-frame, Distinct-insert, ne-last_of,
  ne-first_of, next-first_of, prev-first_of,
}

-- The fields after `__list_add`, the entry being none of its neighbours.
module _ (h : Links) (e p n : ℕ) (ep : e ≢ p) (en : e ≢ n) where
  abbrev added : Links
  added = raw_list_add e p n h

  added-next : (q : ℕ) → q ≢ p → q ≢ e → added.next q ≡ h.next q
  unfolding raw_list_add
  added-next q qp qe = ground arith

  added-prev : (q : ℕ) → q ≢ n → q ≢ e → added.prev q ≡ h.prev q
  unfolding raw_list_add
  added-prev q qn qe = ground arith

  added-before : Linked added p e
  unfolding raw_list_add
  added-before = (ground arith, ground arith)

  added-after : Linked added e n
  unfolding raw_list_add
  added-after = (ground arith, ground arith)

front-Chain :
    (h : Links) (a : ℕ) (ys : List ℕ) (b e : ℕ)
    → Chain h a ys b
    → has a ys ≡ false
    → has b ys ≡ false
    → Distinct ys
    → has e ys ≡ false
    → e ≢ a
    → e ≢ b
    → Chain (raw_list_add e a (first_of_list ys b) h) a (e ∷ ys) b
front-Chain h a [] b e c ha hb d he ea eb = (added-before h e a b ea eb, added-after h e a b ea eb)
front-Chain h a (y ∷ ys) b e c ha hb d he ea eb =
    let ey : e ≢ y = ground arith in
    (
      added-before h e a y ea ey,
      (
        added-after h e a y ea ey,
        Chain-frame (raw_list_add e a y h) h y ys b c.1
            (λ q m. added-next h e a y ea ey q (ground arith) (ground arith))
            (λ q m.
              added-prev h e a y ea ey q (ground (arith, has-append q ys (b ∷ [])))
                (ground (arith, has-append q ys (b ∷ [])))),
      ),
    )

insert-Chain :
    (h : Links) (a : ℕ) (xs ys : List ℕ) (b e : ℕ)
    → Chain h a (xs ++ ys) b
    → has a (xs ++ ys) ≡ false
    → has b (xs ++ ys) ≡ false
    → Distinct (xs ++ ys)
    → has e (xs ++ ys) ≡ false
    → e ≢ a
    → e ≢ b
    → Chain (raw_list_add e (last_of a xs) (first_of_list ys b) h) a (xs ++ e ∷ ys) b
insert-Chain h a [] ys b e c ha hb d he ea eb = front-Chain h a ys b e c ha hb d he ea eb
insert-Chain h a (x ∷ xs) ys b e c ha hb d he ea eb =
    let al = ne-last_of a x xs (ground (arith, has-append a xs ys)) in
    let el = ne-last_of e x xs (ground (arith, has-append e xs ys)) in
    let ef = ne-first_of e ys b (ground (arith, has-append e xs ys)) eb in
    let xf = ne-first_of x ys b (ground (arith, has-append x xs ys)) (ground arith) in
    let g = raw_list_add e (last_of x xs) (first_of_list ys b) h in
    let linked : Linked g a x = (
      added-next h e (last_of x xs) (first_of_list ys b) el ef a al (ground arith) ∙ c.0.0,
      added-prev h e (last_of x xs) (first_of_list ys b) el ef x xf (ground arith) ∙ c.0.1,
    ) in
    (linked, insert-Chain h x xs ys b e c.1 d.0 (ground arith) d.1 (ground arith) (ground arith) eb)

-- `list_init` makes a ring without entries, which `list_empty` recognises.
pub list_init-IsRing :
    (h : Links) (head : ℕ)
    → IsRing (list_init head h) head [] × (list_empty head (list_init head h) ≡ true)
unfolding list_init list_empty
list_init-IsRing h head =
    (record { chain = ground arith; head_out = refl; distinct = tt }, ground arith)

-- `list_empty` holds exactly of the ring without entries.
pub list_empty_iff :
    (h : Links) (head : ℕ) (xs : List ℕ) → IsRing h head xs → (list_empty head h ≡ true) ↔ (xs ≡ [])
unfolding list_empty
list_empty_iff h head [] r = (λ _. refl, λ _. ground (arith, r.chain))
list_empty_iff h head (x ∷ xs) r = (λ e. ground (arith, r.chain.0, r.head_out), λ e. cc)

module _ (h : Links) (head : ℕ) where
  insert-IsRing :
      (xs ys : List ℕ) (e : ℕ)
      → IsRing h head (xs ++ ys)
      → has e (xs ++ ys) ≡ false
      → e ≢ head
      → IsRing (raw_list_add e (last_of head xs) (first_of_list ys head) h) head (xs ++ e ∷ ys)
  insert-IsRing xs ys e r out ne = record {
    chain = insert-Chain h head xs ys head e r.chain r.head_out r.head_out r.distinct out ne ne;
    head_out = ground (arith, r.head_out, has-append head xs ys, has-append head xs (e ∷ ys));
    distinct = Distinct-insert xs ys e r.distinct out;
  }

  -- `list_add_after` (and so `list_add`) puts a new entry `e` directly behind the entry that ends
  -- `xs`, or behind the head if `xs` is empty, and keeps the order of all others.
  pub list_add_after-IsRing :
      (xs ys : List ℕ) (e : ℕ)
      → IsRing h head (xs ++ ys)
      → has e (xs ++ ys) ≡ false
      → e ≢ head
      → IsRing (list_add_after (last_of head xs) e h) head (xs ++ e ∷ ys)
        × (list_add (last_of head xs) e h ≡ list_add_after (last_of head xs) e h)
  unfolding list_add_after list_add
  list_add_after-IsRing xs ys e r out ne =
      (rw (next-first_of h head xs ys head r.chain) (insert-IsRing xs ys e r out ne), refl)

  -- `list_add_before` puts a new entry `e` directly before the entry `y`; called on the head it puts
  -- `e` at the end.
  pub list_add_before-IsRing :
      (xs ys : List ℕ) (e : ℕ)
      → IsRing h head (xs ++ ys)
      → has e (xs ++ ys) ≡ false
      → e ≢ head
      → IsRing (list_add_before (first_of_list ys head) e h) head (xs ++ e ∷ ys)
  unfolding list_add_before
  list_add_before-IsRing xs ys e r out ne =
      rw (prev-first_of h head xs ys head r.chain) (insert-IsRing xs ys e r out ne)
