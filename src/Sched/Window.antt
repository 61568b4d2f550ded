-- ===== src/Sched/Window.antt =====
-- Stride scheduling, kern/schedule/stride_sched.c: as long as the strides in the queue lie within
-- `BIG_STRIDE` of one another, comparing the 32-bit difference orders them, although they wrap.
use li_nos.Base.{ℕ, ◌+◌, ◌-◌, ◌%◌, ◌^◌, ◌≤◌, ◌<◌, ◌≡◌, sym, subst, fun_ext, ltb, arith}
use li_nos.SkewHeap.{Heap, leaf, node, skew_heap_insert}
use li_nos.SkewHeap.Items
use li_nos.SkewHeap.Order.{AllIn, AllIn-map, AllIn-insert, IsHeap, insert-IsHeap}
use li_nos.Kernel.{Proc, Kernel, sub32, is_less, compare_int32}
use li_nos.Class.Stride.{big_stride, proc_stride_comp_f, stride_before, stride_enqueue}

-- The stride as seen from a base `b`, going round at 2^32.
abbrev pub ahead : ℕ → ℕ → ℕ
ahead b s = (s + 2 ^ 32 - b) % 2 ^ 32

-- A stride, and a process, at most `BIG_STRIDE` ahead of `b`.
abbrev pub Within : ℕ → ℕ → Type 0
Within b s = (s < 2 ^ 32) × (ahead b s ≤ big_stride)

-- Inside a window of `BIG_STRIDE` the comparison function orders by the distance from its base.
compare_ahead :
    (b s t : ℕ)
    → b < 2 ^ 32
    → Within b s
    → Within b t
    → is_less (compare_int32 (sub32 s t)) ≡ ltb (ahead b s) (ahead b t)
compare_ahead b s t hb ws wt = ground arith

-- The queue of the stride class, seen from a base `b`: a heap of processes inside the window.
pub record InWindow (b : ℕ) (k : Kernel) : Type 0 where
  pub base : b < 2 ^ 32
  pub within : AllIn (λ q. Within b (k.procs q).stride) k.rq.lab6_run_pool
  pub heap : IsHeap (λ q. ahead b (k.procs q).stride) k.rq.lab6_run_pool

-- A property of the entries of a tree, from another one.
pub AllIn-in :
    (P Q : ℕ → Type 0) (t : Heap)
    → ((q : ℕ) → 0 < Items.count q t → P q → Q q)
    → AllIn P t
    → AllIn Q t
AllIn-in P Q leaf f a = tt
AllIn-in P Q (node l x r) f a = (
  f x (ground arith) a.0,
  AllIn-in P Q l (λ q i. f q (omega arith)) a.1,
  AllIn-in P Q r (λ q i. f q (omega arith)) a.2,
)

pub AllIn-both : (P Q : ℕ → Type 0) (t : Heap) → AllIn P t → AllIn Q t → AllIn (λ q. P q × Q q) t
AllIn-both P Q leaf a b = tt
AllIn-both P Q (node l x r) a b = ((a.0, b.0), AllIn-both P Q l a.1 b.1, AllIn-both P Q r a.2 b.2)

-- Ranks that order the entries of a tree alike make the same trees heaps.
pub IsHeap-in :
    (f g : ℕ → ℕ) (P : ℕ → Type 0) (t : Heap)
    → ((x y : ℕ) → P x → P y → f x ≤ f y → g x ≤ g y)
    → AllIn P t
    → IsHeap f t
    → IsHeap g t
IsHeap-in f g P leaf m a h = tt
IsHeap-in f g P (node l x r) m a h = (
  AllIn-map l (λ y c. m x y a.0 c.0 c.1) (AllIn-both P _ l a.1 h.0),
  AllIn-map r (λ y c. m x y a.0 c.0 c.1) (AllIn-both P _ r a.2 h.1),
  IsHeap-in f g P l m a.1 h.2,
  IsHeap-in f g P r m a.2 h.3,
)

pub stride_before-agrees :
    (b : ℕ) (procs : ℕ → Proc)
    → b < 2 ^ 32
    → (x y : ℕ) → Within b (procs x).stride
    → Within b (procs y).stride
    → stride_before procs x y ≡ ltb (ahead b (procs x).stride) (ahead b (procs y).stride)
unfolding proc_stride_comp_f
stride_before-agrees b procs h x y = compare_ahead b (procs x).stride (procs y).stride h

-- Strides are all that the window depends on.
InWindow-strides :
    (b : ℕ) (t : Heap) (f g : ℕ → ℕ)
    → ((q : ℕ) → g q ≡ f q)
    → AllIn (λ q. Within b (f q)) t × IsHeap (λ q. ahead b (f q)) t
    → AllIn (λ q. Within b (g q)) t × IsHeap (λ q. ahead b (g q)) t
InWindow-strides b t f g e =
    subst (λ (h : ℕ → ℕ). AllIn (λ q. Within b (h q)) t × IsHeap (λ q. ahead b (h q)) t)
      (sym (fun_ext e))

stride-enqueue :
    (p : ℕ) (k : Kernel) (q : ℕ) → ((stride_enqueue p k).procs q).stride ≡ (k.procs q).stride
unfolding stride_enqueue
stride-enqueue p k q = ground arith

-- Queueing a process inside the window keeps the queue a heap of processes inside the window.
pub stride_enqueue-InWindow :
    (b p : ℕ) (k : Kernel)
    → InWindow b k
    → Within b (k.procs p).stride
    → InWindow b (stride_enqueue p k)
unfolding stride_enqueue
stride_enqueue-InWindow b p k w i =
    let before = stride_before k.procs in
    let t = skew_heap_insert before k.rq.lab6_run_pool p in
    let P = λ (q : ℕ). Within b (k.procs q).stride in
    let agrees = stride_before-agrees b k.procs w.base in
    let all = AllIn-insert before P k.rq.lab6_run_pool p w.within i in
    let sorted = insert-IsHeap before _ P agrees k.rq.lab6_run_pool p w.within i w.heap in
    let (within, heap) =
      InWindow-strides b t (λ q. (k.procs q).stride) _ (stride-enqueue p k) (all, sorted) in
    record { base = w.base; within = within; heap = heap }
