-- ===== src/SkewHeap/Pointers.antt =====
-- libs/skew_heap.h over the store of its nodes: the `parent`, `left` and `right` fields of every
-- `skew_heap_entry_t`, by address, with `NULL` as 0. The calls that return `none` ran out of fuel.
pub mod Shape
pub mod Merge
pub mod Patched
pub mod Remove
use li_nos.Base.{
  ℕ, zero, suc, ◌≡◌, Bool, true, false, Option, none, some, ◌>>=◌, ◌==◌, update, if◌then◌else◌,
}

pub record Nodes : Type 0 where
  pub parent : ℕ → ℕ
  pub left : ℕ → ℕ
  pub right : ℕ → ℕ

pub skew_heap_init : ℕ → Nodes → Nodes
skew_heap_init a h = record {
  parent = update h.parent a 0;
  left = update h.left a 0;
  right = update h.right a 0;
}

-- `a->left = l; a->right = r; if (l) l->parent = a`
pub adopt : (a l r : ℕ) → Nodes → Nodes
adopt a l r h = record {
  parent = if l == 0 then h.parent else update h.parent l a;
  left = update h.left a l;
  right = update h.right a r;
}

module _ (before : ℕ → ℕ → Bool) where
  pub skew_heap_merge : (fuel a b : ℕ) → Nodes → Option (ℕ × Nodes)
  skew_heap_merge zero a b h = none
  skew_heap_merge (suc k) a b h =
      let a_first =
        skew_heap_merge k (h.right a) b h >>= λ (l, g). some (a, adopt a l (h.left a) g) in
      let b_first =
        skew_heap_merge k a (h.right b) h >>= λ (l, g). some (b, adopt b l (h.left b) g) in
      if a == 0
      then some (b, h)
      else if b == 0
      then some (a, h)
      else if before a b
      then a_first
      else b_first

  pub skew_heap_insert : (fuel a b : ℕ) → Nodes → Option (ℕ × Nodes)
  unfolding skew_heap_init
  skew_heap_insert k a b h = skew_heap_merge k a b (skew_heap_init b h)

  -- `if (rep) rep->parent = p`, then the field of `p` that pointed at `b`
  pub replace : (p b rep : ℕ) → Nodes → Nodes
  replace p b rep h =
      let g = record h { parent = if rep == 0 then h.parent else update h.parent rep p } in
      if p == 0
      then g
      else if g.left p == b
      then record g { left = update g.left p rep }
      else record g { right = update g.right p rep }

  pub skew_heap_remove : (fuel a b : ℕ) → Nodes → Option (ℕ × Nodes)
  unfolding replace
  skew_heap_remove k a b h = do
    (rep, g) ← skew_heap_merge k (h.left b) (h.right b) h
    some (if h.parent b == 0 then rep else a, replace (h.parent b) b rep g)
