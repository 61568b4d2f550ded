-- ===== src/Links/Tests.antt =====
-- The list operations at a list with head 100 and the entries 1 and 2, the theorems applied there.
use li_nos.Base.{ℕ, ◌≡◌, refl, [], ◌∷◌, List, arith, ◌==◌, if◌then◌else◌}
use li_nos.Links.{Links, list_init, list_next, list_prev, list_add_before}
use li_nos.Links.Ring.{IsRing}
use li_nos.Links.Insert.{list_add_before-IsRing}

abbrev two : Links
two = record {
  next = λ a. if a == 100 then 1 else if a == 1 then 2 else 100;
  prev = λ a. if a == 100 then 2 else if a == 2 then 1 else 100;
}

abbrev entries : List ℕ
entries = 1 ∷ 2 ∷ []

two-IsRing : IsRing two 100 entries
two-IsRing = record {
  chain = ((refl, refl), ((refl, refl), (refl, refl)));
  head_out = refl;
  distinct = (refl, (refl, tt));
}

walk_forward : list_next 100 (list_add_before 100 2 (list_add_before 100 1 (list_init 100 two))) ≡ 1
unfolding list_next list_add_before list_init
walk_forward = refl

walk_backward :
    list_prev 100 (list_add_before 100 2 (list_add_before 100 1 (list_init 100 two))) ≡ 2
unfolding list_prev list_add_before list_init
walk_backward = refl

list_add_before-IsRing_example : IsRing (list_add_before 100 7 two) 100 (1 ∷ 2 ∷ 7 ∷ [])
list_add_before-IsRing_example =
    list_add_before-IsRing two 100 entries [] 7 two-IsRing refl (omega arith)
