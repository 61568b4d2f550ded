-- ===== src/Links/Delete.antt =====
-- Removal from a list of libs/list.h: list_del and list_del_init.
use li_nos.Base.{
  ℕ, ◌≡◌, ◌≢◌, true, false, List, [], ◌∷◌, ◌++◌, ◌∙◌, arith, has, has-append, Distinct,
}
use li_nos.Links.{Links, list_init, list_del, list_del_init, raw_list_del, list_empty}
use li_nos.Links.Ring.{
  Linked, Chain, IsRing, last_of, first_of_list, Chain-frame, Distinct-remove, ne-last_of,
  ne-first_of, prev-first_of,
}

module _ (h : Links) (p n : ℕ) where
  deleted-next : (q : ℕ) → q ≢ p → (raw_list_del p n h).next q ≡ h.next q
  unfolding raw_list_del
  deleted-next q qp = ground arith

  deleted-prev : (q : ℕ) → q ≢ n → (raw_list_del p n h).prev q ≡ h.prev q
  unfolding raw_list_del
  deleted-prev q qn = ground arith

  deleted-Linked : Linked (raw_list_del p n h) p n
  unfolding raw_list_del
  deleted-Linked = (ground arith, ground arith)

front-Chain :
    (h : Links) (a : ℕ) (ys : List ℕ) (b e : ℕ)
    → Chain h a (e ∷ ys) b
    → has a ys ≡ false
    → has b ys ≡ false
    → Distinct ys
    → Chain (raw_list_del a (first_of_list ys b) h) a ys b
front-Chain h a [] b e c ha hb d = deleted-Linked h a b
front-Chain h a (y ∷ ys) b e c ha hb d = (
  deleted-Linked h a y,
  Chain-frame (raw_list_del a y h) h y ys b c.1.1 (λ q m. deleted-next h a y q (ground arith))
      (λ q m. deleted-prev h a y q (ground (arith, has-append q ys (b ∷ [])))),
)

delete-Chain :
    (h : Links) (a : ℕ) (xs ys : List ℕ) (b e : ℕ)
    → Chain h a (xs ++ e ∷ ys) b
    → has a (xs ++ e ∷ ys) ≡ false
    → has b (xs ++ e ∷ ys) ≡ false
    → Distinct (xs ++ e ∷ ys)
    → Chain (raw_list_del (last_of a xs) (first_of_list ys b) h) a (xs ++ ys) b
delete-Chain h a [] ys b e c ha hb d = front-Chain h a ys b e c (ground arith) (ground arith) d.1
delete-Chain h a (x ∷ xs) ys b e c ha hb d =
    let al = ne-last_of a x xs (ground (arith, has-append a xs (e ∷ ys))) in
    let xf = ne-first_of x ys b (ground (arith, has-append x xs (e ∷ ys))) (ground arith) in
    let g = raw_list_del (last_of x xs) (first_of_list ys b) h in
    let linked : Linked g a x = (
      deleted-next h (last_of x xs) (first_of_list ys b) a al ∙ c.0.0,
      deleted-prev h (last_of x xs) (first_of_list ys b) x xf ∙ c.0.1,
    ) in
    (linked, delete-Chain h x xs ys b e c.1 d.0 (ground arith) d.1)

-- The entry itself: what stands before and after it in a chain.
prev-entry :
    (h : Links) (a : ℕ) (xs ys : List ℕ) (b e : ℕ)
    → Chain h a (xs ++ e ∷ ys) b
    → h.prev e ≡ last_of a xs
prev-entry h a xs ys b e c = prev-first_of h a xs (e ∷ ys) b c

next-entry :
    (h : Links) (a : ℕ) (xs ys : List ℕ) (b e : ℕ)
    → Chain h a (xs ++ e ∷ ys) b
    → h.next e ≡ first_of_list ys b
next-entry h a [] [] b e c = c.1.0
next-entry h a [] (y ∷ ys) b e c = c.1.0.0
next-entry h a (x ∷ xs) ys b e c = next-entry h x xs ys b e c.1

module _ (h : Links) (head : ℕ) (xs ys : List ℕ) (e : ℕ) (r : IsRing h head (xs ++ e ∷ ys)) where
  -- `list_del` takes the entry `e` out of its list and keeps the order of the others.
  pub list_del-IsRing : IsRing (list_del e h) head (xs ++ ys)
  unfolding list_del
  list_del-IsRing =
      rw (prev-entry h head xs ys head e r.chain, next-entry h head xs ys head e r.chain)
        (record {
          chain = delete-Chain h head xs ys head e r.chain r.head_out r.head_out r.distinct;
          head_out = ground (arith, r.head_out, has-append head xs ys, has-append head xs (e ∷ ys));
          distinct = (Distinct-remove xs ys e r.distinct).0;
        })

  -- `list_del_init` does so too, and leaves `e` as a list of its own that `list_empty` recognises.
  pub list_del_init-IsRing :
      IsRing (list_del_init e h) head (xs ++ ys) × (list_empty e (list_del_init e h) ≡ true)
  unfolding list_del_init list_init list_empty
  list_del_init-IsRing =
      let d = list_del-IsRing in
      let out = Distinct-remove xs ys e r.distinct in
      (
        record {
          chain =
              Chain-frame (list_del_init e h) (list_del e h) head (xs ++ ys) head d.chain
                (λ q m. ground (arith, r.head_out, has-append head xs (e ∷ ys), out.1))
                (λ q m. ground (
                  arith,
                  r.head_out,
                  has-append q (xs ++ ys) (head ∷ []),
                  has-append head xs (e ∷ ys),
                  out.1,
                ));
          head_out = d.head_out;
          distinct = d.distinct;
        },
        ground arith,
      )
