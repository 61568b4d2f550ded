-- ===== src/Sched/Striding.antt =====
-- The queue of kern/schedule/stride_sched.c over the calls of the class, from stride_init on.
use li_nos.Base.{
  ℕ, ◌^◌, ◌≤◌, ◌<◌, ◌≡◌, ◌≢◌, ◌∙◌, sym, ap, subst, refl, inl, inr, some, none, Bool-cases, arith,
  ◌==◌, ==_refl, ==_ne, ==_iff, ltb, Option-cases,
}
use li_nos.SkewHeap.{Heap, leaf, node}
use li_nos.SkewHeap.Items.{count, count-insert, count-remove}
use li_nos.SkewHeap.Order.{AllIn}
use li_nos.Kernel.{Kernel, stride_sched}
use li_nos.Class.Stride.{
  stride_before, stride_init, stride_enqueue, stride_dequeue, stride_pick_next, stride_pick_root,
  stride_proc_tick,
}
use li_nos.Sched.Window.{ahead, Within, InWindow, AllIn-in, IsHeap-in, stride_enqueue-InWindow}
use li_nos.Sched.Turn.{heap_turn}
use li_nos.Sched.Queue.{Picked, pick-Picked}
use li_nos.Class.{class_pick_next}

-- A kernel that the calls of the class lead to, with the base of the window of strides: a process is
-- queued when it is not in the queue and its stride is inside the window; a pick with its dequeue moves
-- the base to the old stride of the process; the rest of the kernel changes neither the queue nor the
-- strides of the processes in it.
pub data Striding : (b : ℕ) → Kernel → Type 0 where
  inited : (b : ℕ) (k : Kernel) → b < 2 ^ 32 → Striding b (record k { rq = stride_init k.rq })
  queued :
      (b p : ℕ) (k : Kernel)
      → Striding b k
      → count p k.rq.lab6_run_pool ≡ 0
      → Within b (k.procs p).stride
      → Striding b (stride_enqueue p k)
  picked :
      (b p : ℕ) (k : Kernel)
      → Striding b k
      → (stride_pick_next k).0 ≡ some p
      → Striding (k.procs p).stride (stride_dequeue p (stride_pick_next k).1)
  ticked : (b p : ℕ) (k : Kernel) → Striding b k → Striding b (stride_proc_tick p k)
  others :
      (b : ℕ) (k k' : Kernel)
      → Striding b k
      → k'.rq.lab6_run_pool ≡ k.rq.lab6_run_pool
      → ((q : ℕ) → 0 < count q k.rq.lab6_run_pool → (k'.procs q).stride ≡ (k.procs q).stride)
      → Striding b k'

-- The queue is a heap inside the window, and holds no process twice.
abbrev Sound : ℕ → Kernel → Type 0
Sound b k = InWindow b k × ((q : ℕ) → count q k.rq.lab6_run_pool ≤ 1)

inited-Sound : (b : ℕ) (k : Kernel) → b < 2 ^ 32 → Sound b (record k { rq = stride_init k.rq })
unfolding stride_init
inited-Sound b k h = (record { base = h; within = tt; heap = tt }, λ q. omega arith)

queued_once :
    (p : ℕ) (k : Kernel)
    → ((q : ℕ) → count q k.rq.lab6_run_pool ≤ 1)
    → count p k.rq.lab6_run_pool ≡ 0
    → (q : ℕ) → count q (stride_enqueue p k).rq.lab6_run_pool ≤ 1
unfolding stride_enqueue
queued_once p k once out q =
    let c = count-insert (stride_before k.procs) q p k.rq.lab6_run_pool in
    elim (Bool-cases (q == p)) [
      | inl e ↦
          let z : count q k.rq.lab6_run_pool ≡ 0 =
            ap (λ y. count y k.rq.lab6_run_pool) ((==_iff q p).0 e) ∙ out in
          (let d = rw (e, z) at c in omega (arith, d))
      | inr e ↦ let o = once q in (let d = rw e at c in omega (arith, o, d))
    ]

queued-Sound :
    (b p : ℕ) (k : Kernel)
    → Sound b k
    → count p k.rq.lab6_run_pool ≡ 0
    → Within b (k.procs p).stride
    → Sound b (stride_enqueue p k)
queued-Sound b p k (w, once) out i = (stride_enqueue-InWindow b p k w i, queued_once p k once out)

others-Sound :
    (b : ℕ) (k k' : Kernel)
    → Sound b k
    → k'.rq.lab6_run_pool ≡ k.rq.lab6_run_pool
    → ((q : ℕ) → 0 < count q k.rq.lab6_run_pool → (k'.procs q).stride ≡ (k.procs q).stride)
    → Sound b k'
others-Sound b k k' (w, once) e same =
    let t = k.rq.lab6_run_pool in
    let old = λ (q : ℕ). (k.procs q).stride in
    let new = λ (q : ℕ). (k'.procs q).stride in
    let kept =
      AllIn-in (λ q. Within b (old q)) (λ q. new q ≡ old q) t (λ q i x. same q i) w.within in
    (
      record {
        base = w.base;
        within = rw e (AllIn-in _ (λ q. Within b (new q)) t (λ q i x. rw (same q i) x) w.within);
        heap = rw e (
            IsHeap-in (λ q. ahead b (old q)) (λ q. ahead b (new q)) (λ q. new q ≡ old q) t
              (λ x y a c le. rw (a, c) le) kept w.heap);
      },
      λ q. rw e (once q),
    )

pick_root-node :
    (t : Heap) (k : Kernel) (p : ℕ)
    → (stride_pick_root t k).0 ≡ some p
    → (l : Heap) × (r : Heap) × (t ≡ node l p r)
unfolding stride_pick_root
pick_root-node leaf k p e = cc
pick_root-node (node l x r) k p e = (l, r, ap (λ y. node l y r) (cc))

pick_next-node :
    (k : Kernel) (p : ℕ)
    → (stride_pick_next k).0 ≡ some p
    → (l : Heap) × (r : Heap) × (k.rq.lab6_run_pool ≡ node l p r)
unfolding stride_pick_next
pick_next-node k p e = pick_root-node k.rq.lab6_run_pool k p e

-- What is left of the queue after a turn of `p`.
abbrev pub Left : (p : ℕ) (k k' : Kernel) → Type 0
Left p k k' =
    (count p k'.rq.lab6_run_pool ≡ 0)
    × ((q : ℕ) → q ≢ p → count q k'.rq.lab6_run_pool ≡ count q k.rq.lab6_run_pool)

turn-Left :
    (p : ℕ) (k k1 : Kernel)
    → ((q : ℕ) → count q k.rq.lab6_run_pool ≤ 1)
    → 0 < count p k.rq.lab6_run_pool
    → k1.rq ≡ k.rq
    → Left p k (stride_dequeue p k1)
unfolding stride_dequeue
turn-Left p k k1 once i e =
    let t = k1.rq.lab6_run_pool in
    let f : t ≡ k.rq.lab6_run_pool = ap (λ y. y.lab6_run_pool) e in
    let one : count p t ≡ 1 = rw f (let o = once p in omega (arith, o, i)) in
    let c = λ (q : ℕ). count-remove (stride_before k1.procs) q p t one in
    (
      (let d = c p in omega (arith, d ∙ one, rw (==_refl p) at d)),
      λ q n. (let d = c q in omega (arith, rw (==_ne q p n) at d) ∙ ap (count q) f),
    )

-- One turn: the process `p` of the queue has the least stride from the base on, and its new stride lies
-- at most `BIG_STRIDE` ahead of the old one; it alone leaves the queue, and the strides of all that are
-- left lie at most `BIG_STRIDE` ahead of its old one.
abbrev pub Turned : (b p : ℕ) (k : Kernel) → Type 0
Turned b p k =
    let k1 = (stride_pick_next k).1 in
    let k2 = stride_dequeue p k1 in
    let c = (k.procs p).stride in
    ((stride_pick_next k).0 ≡ some p)
    × ((q : ℕ) → 0 < count q k.rq.lab6_run_pool → ahead b c ≤ ahead b (k.procs q).stride)
    × Within c (k1.procs p).stride
    × Left p k k2
    × ((q : ℕ) → 0 < count q k2.rq.lab6_run_pool → Within c (k2.procs q).stride)

AllIn-at : (P : ℕ → Type 0) (t : Heap) (q : ℕ) → AllIn P t → 0 < count q t → P q
AllIn-at P leaf q a i = absurd (omega arith)
AllIn-at P (node l x r) q (a, b, c) i = elim (Bool-cases (q == x)) [
  | inl e ↦ subst P (sym ((==_iff q x).0 e)) a
  | inr e ↦ elim (Bool-cases (ltb 0 (count q l))) [
    | inl f ↦ AllIn-at P l q b (ground arith)
    | inr f ↦ AllIn-at P r q c (ground arith)
  ]
]

stride-Picked : (k : Kernel) → Picked stride_sched k (stride_pick_next k).0 (stride_pick_next k).1
unfolding class_pick_next
stride-Picked k = pick-Picked stride_sched k

Sound-Turned :
    (b p : ℕ) (k : Kernel)
    → Sound b k
    → (stride_pick_next k).0 ≡ some p
    → Turned b p k × Sound (k.procs p).stride (stride_dequeue p (stride_pick_next k).1)
Sound-Turned b p k (w, once) e =
    let k1 = (stride_pick_next k).1 in
    let pick = stride-Picked k in
    let left = turn-Left p k k1 once (pick.some_queued e) pick.queue in
    let (l, r, f) = pick_next-node k p e in
    let (g, least, in_window, near) = heap_turn b p l r k w f (once p) in
    (
      (
        e,
        λ q i. AllIn-at _ k.rq.lab6_run_pool q least i,
        near,
        left,
        λ q i. AllIn-at _ _ q in_window.within i,
      ),
      (
        in_window,
        λ q. elim (Bool-cases (q == p)) [
          | inl h ↦
              subst (λ y. count y (stride_dequeue p k1).rq.lab6_run_pool ≤ 1)
                (sym ((==_iff q p).0 h)) (omega (arith, left.0))
          | inr h ↦
              let o = once q in
              let x = left.1 q (λ y. ground (arith, ==_refl p)) in omega (arith, o, x)
        ],
      ),
    )

tick-same :
    (p : ℕ) (k : Kernel)
    → ((stride_proc_tick p k).rq.lab6_run_pool ≡ k.rq.lab6_run_pool)
      × ((q : ℕ) → ((stride_proc_tick p k).procs q).stride ≡ (k.procs q).stride)
unfolding stride_proc_tick
tick-same p k = (refl, λ q. ground arith)

Striding-Sound : (b : ℕ) (k : Kernel) → Striding b k → Sound b k
Striding-Sound _ _ (inited b k h) = inited-Sound b k h
Striding-Sound _ _ (queued b p k s out i) = queued-Sound b p k (Striding-Sound b k s) out i
Striding-Sound _ _ (picked b p k s e) = (Sound-Turned b p k (Striding-Sound b k s) e).1
Striding-Sound _ _ (ticked b p k s) =
    let (e, same) = tick-same p k in
    others-Sound b k (stride_proc_tick p k) (Striding-Sound b k s) e (λ q i. same q)
Striding-Sound _ _ (others b k k' s e same) = others-Sound b k k' (Striding-Sound b k s) e same

stride_pick_none :
    (k : Kernel) (q : ℕ) → 0 < count q k.rq.lab6_run_pool → (stride_pick_next k).0 ≢ none
stride_pick_none k q i e = let z = (stride-Picked k).none_empty e q in omega (arith, i, z)

-- In a kernel that the calls of the stride class lead to from stride_init on, where each process is queued
-- with a stride at most `BIG_STRIDE` ahead of the base, which is the old stride of the process picked
-- last: if a process is in the queue, stride_pick_next returns one, which has the least stride from
-- the base on. Its new stride lies at most `BIG_STRIDE` ahead of its old one; stride_dequeue takes it
-- and no other out of the queue, and the strides of all that are left lie at most `BIG_STRIDE` ahead of
-- its old stride.
pub stride_pick_next-Turned :
    (b q : ℕ) (k : Kernel) → Striding b k → 0 < count q k.rq.lab6_run_pool → (p : ℕ) × Turned b p k
stride_pick_next-Turned b q k s i = elim (Option-cases (stride_pick_next k).0) [
  | inl e ↦ absurd (stride_pick_none k q i e)
  | inr (p, e) ↦ (p, (Sound-Turned b p k (Striding-Sound b k s) e).0)
]
