-- ===== src/Sched/Turn.antt =====
-- A turn of stride scheduling: the process with the least stride is picked, moves on, and leaves the
-- queue; the window moves with it.
use li_nos.Base.{
  ℕ, ◌-◌, ◌/◌, ◌^◌, ◌≤◌, ◌<◌, ◌≡◌, ◌≢◌, ◌∙◌, sym, ap, subst, refl, inl, inr, some, ◌==◌, Bool-cases,
  arith,
}
use li_nos.SkewHeap.{Heap, node, skew_heap_merge}
use li_nos.SkewHeap.Items
use li_nos.SkewHeap.Items.{remove-root}
use li_nos.SkewHeap.Order.{AllIn, AllIn-map, AllIn-merge, IsHeap, merge-IsHeap}
use li_nos.Kernel.{Proc, Kernel, add32}
use li_nos.Class.Stride.{
  big_stride, stride_before, next_stride, stride_dequeue, stride_pick_next, stride_pick_root,
}
use li_nos.Sched.Window.{
  ahead, Within, InWindow, AllIn-in, AllIn-both, IsHeap-in, stride_before-agrees,
}

-- The window moves on: what was ahead of `b` by at least as much as `c` is ahead of `c` by the rest.
ahead_rebase :
    (b c s : ℕ)
    → b < 2 ^ 32
    → Within b c
    → Within b s
    → ahead b c ≤ ahead b s
    → ahead c s ≡ ahead b s - ahead b c
ahead_rebase b c s hb wc ws h = ground arith

-- A picked process moves at most `BIG_STRIDE` ahead of where it was.
next_stride-Within : (x : Proc) → x.stride < 2 ^ 32 → Within x.stride (next_stride x)
next_stride-Within x h = elim (Bool-cases (x.priority == 0)) [
  | inl e ↦ rw e (advance x.stride big_stride h (omega arith))
  | inr e ↦ rw e (advance x.stride (big_stride / x.priority) h (omega arith))
]
  where
    advance : (s d : ℕ) → s < 2 ^ 32 → d ≤ big_stride → Within s (add32 s d)
    advance s d hs hd = (ground arith, ground arith)

picked-stride :
    (p : ℕ) (l r : Heap) (k : Kernel) (q : ℕ)
    → q ≢ p
    → ((stride_pick_root (node l p r) k).1.procs q).stride ≡ (k.procs q).stride
unfolding stride_pick_root
picked-stride p l r k q ne = ground arith

picked_self :
    (p : ℕ) (l r : Heap) (k : Kernel)
    → ((stride_pick_root (node l p r) k).1.procs p).stride ≡ next_stride (k.procs p)
unfolding stride_pick_root
picked_self p l r k = ground arith

-- The processes under a root `p` that has moved on, seen from the old stride `c` of `p`.
module _ (b c : ℕ) (old new : ℕ → ℕ) (base : b < 2 ^ 32) (wc : Within b c) where
  abbrev Under : ℕ → Type 0
  Under q = Within b (old q) × (ahead b c ≤ ahead b (old q)) × (new q ≡ old q)

  Under-Within : (q : ℕ) → Under q → Within c (new q)
  Under-Within q (w, h, e) = rw e (w.0, rw (ahead_rebase b c (old q) base wc w h) (omega arith))

  Under-order :
      (x y : ℕ)
      → Under x
      → Under y
      → ahead b (old x) ≤ ahead b (old y)
      → ahead c (new x) ≤ ahead c (new y)
  Under-order x y (w, h, e) (w', h', e') le =
      rw (e, e', ahead_rebase b c (old x) base wc w h, ahead_rebase b c (old y) base wc w' h')
        (omega arith)

  Under-all :
      (p : ℕ) (t : Heap)
      → Items.count p t ≡ 0
      → ((q : ℕ) → q ≢ p → new q ≡ old q)
      → AllIn (λ q. Within b (old q)) t
      → AllIn (λ q. ahead b c ≤ ahead b (old q)) t
      → AllIn Under t
  Under-all p t out same w a =
      AllIn-in _ Under t (λ q i x. (x.0, x.1, same q (apart q i))) (AllIn-both _ _ t w a)
    where
      apart : (q : ℕ) → 0 < Items.count q t → q ≢ p
      apart q i e = ground arith

picked-root : (p : ℕ) (l r : Heap) (k : Kernel) → (stride_pick_root (node l p r) k).0 ≡ some p
unfolding stride_pick_root
picked-root p l r k = refl

picked-pool :
    (p : ℕ) (l r : Heap) (k : Kernel)
    → k.rq.lab6_run_pool ≡ node l p r
    → let k1 = (stride_pick_root (node l p r) k).1 in
      (stride_dequeue p k1).rq.lab6_run_pool ≡ skew_heap_merge (stride_before k1.procs) l r
unfolding stride_pick_root stride_dequeue
picked-pool p l r k e = rw (e, remove-root)

dequeue-procs : (p : ℕ) (k : Kernel) → (stride_dequeue p k).procs ≡ k.procs
unfolding stride_dequeue
dequeue-procs p k = refl

-- Two heaps inside a window merge to one, the queue of `k`.
merged-InWindow :
    (c : ℕ) (l r : Heap) (k : Kernel)
    → c < 2 ^ 32
    → let new = λ (q : ℕ). (k.procs q).stride in
      k.rq.lab6_run_pool ≡ skew_heap_merge (stride_before k.procs) l r
      → AllIn (λ q. Within c (new q)) l
      → AllIn (λ q. Within c (new q)) r
      → IsHeap (λ q. ahead c (new q)) l
      → IsHeap (λ q. ahead c (new q)) r
      → InWindow c k
merged-InWindow c l r k h e wl wr hl hr =
    let P = λ (q : ℕ). Within c (k.procs q).stride in
    record {
      base = h;
      within = rw e (AllIn-merge (stride_before k.procs) P l r wl wr);
      heap = rw e (
          merge-IsHeap (stride_before k.procs) _ P (stride_before-agrees c k.procs h) l r wl wr hl
            hr);
    }

-- From a queue inside the window of `b`, `stride_pick_next` returns the process at the root, none in the
-- queue being nearer to `b`. Its stride moves on by at most `BIG_STRIDE`, and once it is dequeued, it
-- and all that are left lie inside the window of its old stride, and are a heap there.
pub heap_turn :
    (b p : ℕ) (l r : Heap) (k : Kernel)
    → InWindow b k
    → k.rq.lab6_run_pool ≡ node l p r
    → Items.count p k.rq.lab6_run_pool ≤ 1
    → let k1 = (stride_pick_next k).1 in
      let c = (k.procs p).stride in
      ((stride_pick_next k).0 ≡ some p)
      × AllIn (λ q. ahead b c ≤ ahead b (k.procs q).stride) k.rq.lab6_run_pool
      × InWindow c (stride_dequeue p k1)
      × Within c (k1.procs p).stride
unfolding stride_pick_next stride_dequeue
heap_turn b p l r k w e once =
    let c = (k.procs p).stride in
    let k1 = (stride_pick_root (node l p r) k).1 in
    let k2 = stride_dequeue p k1 in
    let inside = rw e at w.within in
    let sorted = rw e at w.heap in
    let alone = rw e at once in
    let old = λ (q : ℕ). (k.procs q).stride in
    let new = λ (q : ℕ). (k1.procs q).stride in
    let ul =
      Under-all b c old new w.base inside.0 p l (ground (arith, alone)) (picked-stride p l r k)
        inside.1 sorted.0 in
    let ur =
      Under-all b c old new w.base inside.0 p r (ground (arith, alone)) (picked-stride p l r k)
        inside.2 sorted.1 in
    let moved = λ (t : Heap).
      IsHeap-in (λ q. ahead b (old q)) (λ q. ahead c (new q)) (Under b c old new w.base inside.0) t
        (Under-order b c old new w.base inside.0) in
    let pick = ap (λ t. stride_pick_root t k) e in
    (
      ap (λ x. x.0) pick ∙ picked-root p l r k,
      subst (λ t. AllIn (λ q. ahead b c ≤ ahead b (old q)) t) (sym e)
          (omega arith, sorted.0, sorted.1),
      subst (λ x. InWindow c (stride_dequeue p x.1)) (sym pick)
          (merged-InWindow c l r k2 inside.0.0 (picked-pool p l r k e)
            (AllIn-map l (Under-Within b c old new w.base inside.0) ul)
            (AllIn-map r (Under-Within b c old new w.base inside.0) ur) (moved l ul sorted.2)
            (moved r ur sorted.3)),
      subst (λ x. Within c (x.1.procs p).stride) (sym pick)
          (subst (Within c) (sym (picked_self p l r k))
            (next_stride-Within (k.procs p) inside.0.0)),
    )
