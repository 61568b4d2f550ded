-- ===== src/Links.antt =====
-- libs/list.h: circular doubly linked lists over an explicit store.
pub mod Ring
pub mod Insert
pub mod Delete
mod Tests
use li_nos.Base.{ℕ, Bool, ◌==◌, update}

-- The `prev` and `next` fields of all `list_entry_t` objects, by address.
pub record Links : Type 0 where
  pub prev : ℕ → ℕ
  pub next : ℕ → ℕ

pub set_prev : ℕ → ℕ → Links → Links
set_prev a v h = record h { prev = update h.prev a v }

pub set_next : ℕ → ℕ → Links → Links
set_next a v h = record h { next = update h.next a v }

-- `elm->prev = elm->next = elm`
pub list_init : ℕ → Links → Links
unfolding set_prev set_next
list_init elm h = set_prev elm elm (set_next elm elm h)

-- `__list_add`: `prev->next = next->prev = elm; elm->next = next; elm->prev = prev`
pub raw_list_add : (elm prev next : ℕ) → Links → Links
unfolding set_prev set_next
raw_list_add elm p n h = set_prev elm p (set_next elm n (set_next p elm (set_prev n elm h)))

-- `__list_del`
pub raw_list_del : (prev next : ℕ) → Links → Links
unfolding set_prev set_next
raw_list_del p n h = set_prev n p (set_next p n h)

pub list_next : ℕ → Links → ℕ
list_next elm h = h.next elm

pub list_prev : ℕ → Links → ℕ
list_prev elm h = h.prev elm

pub list_add_before : (listelm elm : ℕ) → Links → Links
unfolding raw_list_add
list_add_before listelm elm h = raw_list_add elm (h.prev listelm) listelm h

pub list_add_after : (listelm elm : ℕ) → Links → Links
unfolding raw_list_add
list_add_after listelm elm h = raw_list_add elm listelm (h.next listelm) h

pub list_add : (listelm elm : ℕ) → Links → Links
unfolding list_add_after
list_add listelm elm h = list_add_after listelm elm h

pub list_del : ℕ → Links → Links
unfolding raw_list_del
list_del listelm h = raw_list_del (h.prev listelm) (h.next listelm) h

pub list_del_init : ℕ → Links → Links
unfolding list_del list_init
list_del_init listelm h = list_init listelm (list_del listelm h)

pub list_empty : ℕ → Links → Bool
list_empty list h = h.next list == list
