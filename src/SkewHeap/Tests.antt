-- ===== src/SkewHeap/Tests.antt =====
-- The skew heap at small heaps of the numbers themselves, the theorems applied there.
use li_nos.Base.{ℕ, ◌≢◌, ◌+◌, ◌≡◌, refl, some, arith, ◌==◌, ltb, if◌then◌else◌}
use li_nos.SkewHeap.{
  Heap, leaf, node, skew_heap_merge, skew_heap_insert, take_out, skew_heap_remove,
}
use li_nos.SkewHeap.Order.{IsHeap, merge-IsHeap, insert-IsHeap}
use li_nos.SkewHeap.Items.{count}
use li_nos.SkewHeap.Pointers
use li_nos.SkewHeap.Pointers.{Nodes}
use li_nos.SkewHeap.Pointers.Shape.{root, Shape, Hangs, SameAt}
use li_nos.SkewHeap.Pointers.Remove.{remove_refines}
use li_nos.SkewHeap.Pointers.Merge.{Merged, merge_refines}

abbrev one_three : Heap
one_three = node (node leaf 3 leaf) 1 leaf

abbrev two_five : Heap
two_five = node (node leaf 5 leaf) 2 leaf

merge_example : skew_heap_merge ltb one_three two_five ≡ node two_five 1 (node leaf 3 leaf)
unfolding skew_heap_merge
merge_example = refl

remove_example :
    skew_heap_remove ltb (node two_five 1 (node leaf 3 leaf)) 2
    ≡ node (node leaf 5 leaf) 1 (node leaf 3 leaf)
unfolding skew_heap_remove take_out
remove_example = refl

merge-IsHeap_example : IsHeap (λ x. x) (skew_heap_merge ltb one_three two_five)
merge-IsHeap_example =
    merge-IsHeap ltb (λ x. x) (λ x. Unit {0}) (λ x y _ _. refl) one_three two_five
      (tt, (tt, tt, tt), tt) (tt, (tt, tt, tt), tt) (omega arith) (omega arith)

insert-IsHeap_example : IsHeap (λ x. x) (skew_heap_insert ltb one_three 2)
insert-IsHeap_example =
    insert-IsHeap ltb (λ x. x) (λ x. Unit {0}) (λ x y _ _. refl) one_three 2 (tt, (tt, tt, tt), tt)
      tt (omega arith)

-- The two heaps in one store: 1 above 3, and 2 above 5.
abbrev store : Nodes
store = record {
  parent = λ a. if a == 3 then 1 else if a == 5 then 2 else 0;
  left = λ a. if a == 1 then 3 else if a == 2 then 5 else 0;
  right = λ a. 0;
}

merge_refines_example :
    let m = skew_heap_merge ltb one_three two_five in
    (g : Nodes) × (Pointers.skew_heap_merge ltb 5 1 2 store ≡ some (root m, g)) × Merged store m g
merge_refines_example =
    merge_refines ltb 5 one_three two_five store (omega arith) (omega arith) (λ c. ground arith)
      (omega arith)

remove_refines_example :
    let m = skew_heap_remove ltb one_three 3 in
    (g : Nodes) × (Pointers.skew_heap_remove ltb 3 1 3 store ≡ some (root m, g))
    × Shape g m
    × Hangs g 0 m
    × ((c : ℕ) → count c m + (if c == 3 then 1 else 0) ≡ count c one_three)
    × ((c : ℕ) → count c one_three ≡ 0 → c ≢ 0 → SameAt g store c)
remove_refines_example =
    remove_refines ltb 3 3 one_three store (omega arith) refl (λ c. ground arith) refl (omega arith)
