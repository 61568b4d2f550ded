-- ===== src/SkewHeap.antt =====
-- libs/skew_heap.h: the skew heap that the stride and priority schedulers keep their processes in.
-- An entry is named by its address. `left` and `right` are the subtrees, `NULL` is `leaf`; the parent of
-- an entry is the node that it stands under.
pub mod Order
pub mod Items
pub mod Pointers
mod Tests
use li_nos.Base.{ℕ, Bool, true, false, ◌||◌, if◌then◌else◌, ◌==◌}

pub data Heap : Type 0 where
  leaf : Heap
  node : (left : Heap) (entry : ℕ) (right : Heap) → Heap

unfoldable pub skew_heap_init : ℕ → Heap
skew_heap_init a = node leaf a leaf

-- Whether the entry is in the heap.
abbrev pub holds : ℕ → Heap → Bool
holds b leaf = false
holds b (node l x r) = (b == x) || holds b l || holds b r

-- `before a b` stands for `comp(a, b) == -1`.
module _ (before : ℕ → ℕ → Bool) where
  unfoldable pub skew_heap_merge : Heap → Heap → Heap
  skew_heap_merge leaf b = b
  skew_heap_merge (node l x r) leaf = node l x r
  skew_heap_merge (node l x r) (node l' y r') =
      let a_first = node (skew_heap_merge r (node l' y r')) x l in
      let b_first = node (skew_heap_merge (node l x r) r') y l' in
      if before x y then a_first else b_first

  unfoldable pub skew_heap_insert : Heap → ℕ → Heap
  unfolding skew_heap_init skew_heap_merge
  skew_heap_insert a b = skew_heap_merge a (skew_heap_init b)

  -- The entry `b` is replaced, where it stands, by the merge of its two subtrees.
  pub take_out : Heap → ℕ → Heap
  unfolding skew_heap_merge
  take_out leaf b = leaf
  take_out (node l x r) b =
      let rest = node (take_out l b) x (take_out r b) in
      if x == b then skew_heap_merge l r else rest

  -- An entry that is in no heap has no parent and no subtrees (`skew_heap_init`), and its removal returns
  -- `NULL`, whatever the heap.
  pub skew_heap_remove : Heap → ℕ → Heap
  skew_heap_remove t b = if holds b t then take_out t b else leaf
