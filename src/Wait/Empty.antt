-- ===== src/Wait/Empty.antt =====
-- wakeup_queue of kern/sync/wait.c, with `del`.
use li_nos.Base.{
  ℕ, zero, suc, ◌<◌, true, false, ◌≡◌, ◌≢◌, ◌∙◌, ◌⊎◌, inl, inr, refl, sym, ap, subst, arith, some,
  List, [], ◌∷◌, length, ◌==◌, has, erase, Distinct, Bool-cases, ==_refl, ==_ne, ==_iff,
}
use li_nos.Kernel.{runnable}
use li_nos.Wait.{Sync, wakeup_wait, wakeup_all, wakeup_queue}
use li_nos.Wait.Waiting.{IsWaiting}
use li_nos.Wait.Wake.{Woken, wakeup_wait-IsWaiting}

-- The entries of the list have left the queue, each with its process woken, and no other entry, queue
-- or process is touched.
pub record Emptied (q flags : ℕ) (l : List ℕ) (s s' : Sync) : Type 0 where
  pub empty : s'.queues q ≡ []
  pub others : (r : ℕ) → r ≢ q → s'.queues r ≡ s.queues r
  pub flagged : (u : ℕ) → has u l ≡ true → (s'.waits u).wakeup_flags ≡ flags
  pub awake : (u : ℕ) → has u l ≡ true → (s'.kernel.procs (s.waits u).proc).state ≡ runnable
  pub same_wait : (u : ℕ) → has u l ≡ false → s'.waits u ≡ s.waits u
  pub same_proc :
      (p : ℕ)
      → ((u : ℕ) → has u l ≡ true → p ≢ (s.waits u).proc)
      → s'.kernel.procs p ≡ s.kernel.procs p

all_done : (k q flags : ℕ) (s : Sync) → s.queues q ≡ [] → wakeup_all (suc k) q flags s ≡ some s
unfolding wakeup_all
all_done k q flags s e = rw (e, wakeup_all) refl

all_step :
    (k q flags w : ℕ) (ws : List ℕ) (s s' : Sync)
    → s.queues q ≡ w ∷ ws
    → wakeup_wait q w flags true s ≡ some s'
    → wakeup_all (suc k) q flags s ≡ wakeup_all k q flags s'
unfolding wakeup_all
all_step k q flags w ws s s' e f = rw (e, f, wakeup_all) refl

-- The first is woken, then the others.
module _ (kind : ℕ → ℕ) (q flags w : ℕ) (ws : List ℕ) (s s1 s' : Sync) (v : IsWaiting kind s)
    (e : s.queues q ≡ w ∷ ws) (x : Woken w q flags s s1) (y : Emptied q flags ws s1 s') where
  w_out : has w ws ≡ false
  w_out = let d : Distinct (w ∷ ws) = subst Distinct e (v.once q) in d.0

  later : (u : ℕ) → has u ws ≡ true → u ≢ w
  later u h i = let k : has w ws ≡ true = subst (λ z. has z ws ≡ true) i h in ground (arith, w_out)

  apart_procs : (u : ℕ) → has u ws ≡ true → (s.waits w).proc ≢ (s.waits u).proc
  apart_procs u h same =
      let mu : has u (s.queues q) ≡ true = rw e (ground (arith)) in
      let mw : has w (s.queues q) ≡ true = rw e (ground (arith, ==_refl w)) in
      later u h (sym (v.apart w u (v.member q w mw).is_linked (v.member q u mu).is_linked same))

  now_proc : (u : ℕ) → has u ws ≡ true → (s1.waits u).proc ≡ (s.waits u).proc
  now_proc u h = ap (λ z. z.proc) (x.others u (later u h))

  first_flagged : (s'.waits w).wakeup_flags ≡ flags
  first_flagged = ap (λ z. z.wakeup_flags) (y.same_wait w w_out) ∙ x.flagged

  first_awake : (s'.kernel.procs (s.waits w).proc).state ≡ runnable
  first_awake =
      ap (λ z. z.state) (y.same_proc (s.waits w).proc (λ u h i. apart_procs u h (i ∙ now_proc u h)))
      ∙ x.awake

  in_first : (u : ℕ) → has u (w ∷ ws) ≡ true → (u ≡ w) ⊎ (has u ws ≡ true)
  in_first u h = elim (Bool-cases (u == w)) [
    | inl i ↦ inl ((==_iff u w).0 i)
    | inr i ↦ inr (rw i at h)
  ]

  out_first : (u : ℕ) → has u (w ∷ ws) ≡ false → (u ≢ w) × (has u ws ≡ false)
  out_first u h = ((λ i. ground (arith, ==_refl w)), ground arith)

  Emptied-after : Emptied q flags (w ∷ ws) s s'
  Emptied-after = record {
    empty = y.empty;
    others = λ r n. y.others r n ∙ x.queue r ∙ rw (==_ne r q n) refl;
    flagged = λ u h. elim (in_first u h) [ inl i ↦ rw i first_flagged | inr k ↦ y.flagged u k ];
    awake = λ u h. elim (in_first u h) [
      | inl i ↦ rw i first_awake
      | inr k ↦ subst (λ z. (s'.kernel.procs z).state ≡ runnable) (now_proc u k) (y.awake u k)
    ];
    same_wait = λ u h. let (n, k) = out_first u h in y.same_wait u k ∙ x.others u n;
    same_proc = λ p h.
        y.same_proc p (λ u k i. h u (ground arith) (i ∙ now_proc u k))
        ∙ x.rest.procs p (h w (ground (arith, ==_refl w)));
  }

pub rest_queue :
    (q flags w : ℕ) (ws : List ℕ) (s s1 : Sync)
    → s.queues q ≡ w ∷ ws
    → Woken w q flags s s1
    → s1.queues q ≡ ws
rest_queue q flags w ws s s1 e x = x.queue q ∙ rw (==_refl q) (ap (erase w) e ∙ rw (==_refl w) refl)

pub Emptied-nothing : (q flags : ℕ) (s : Sync) → s.queues q ≡ [] → Emptied q flags [] s s
Emptied-nothing q flags s e = record {
  empty = e;
  others = λ r n. refl;
  flagged = λ u h. cc;
  awake = λ u h. cc;
  same_wait = λ u h. refl;
  same_proc = λ p h. refl;
}

wakeup_all-Emptied :
    (kind : ℕ → ℕ) (k q flags : ℕ) (l : List ℕ) (s : Sync)
    → IsWaiting kind s
    → s.queues q ≡ l
    → length l < k
    → (s' : Sync) × (wakeup_all k q flags s ≡ some s') × IsWaiting kind s' × Emptied q flags l s s'
wakeup_all-Emptied kind zero q flags l s v e f = ground arith
wakeup_all-Emptied kind (suc k) q flags [] s v e f =
    (s, all_done k q flags s e, v, Emptied-nothing q flags s e)
wakeup_all-Emptied kind (suc k) q flags (w ∷ ws) s v e f =
    let (s1, r, v1, x) =
      wakeup_wait-IsWaiting kind w q flags s v (rw e (ground (arith, ==_refl w))) in
    let (s', t, v', y) =
      wakeup_all-Emptied kind k q flags ws s1 v1 (rest_queue q flags w ws s s1 e x) (omega arith) in
    (s', all_step k q flags w ws s s1 e r ∙ t, v', Emptied-after kind q flags w ws s s1 s' v e x y)

queue_runs :
    (k q flags : ℕ) (s : Sync) (l : List ℕ)
    → s.queues q ≡ l
    → wakeup_queue (suc k) q flags true s ≡ wakeup_all (suc k) q flags s
unfolding wakeup_queue
queue_runs k q flags s [] e = rw (e, wakeup_queue) (sym (all_done k q flags s e))
queue_runs k q flags s (w ∷ ws) e = rw (e, wakeup_queue) refl

-- From a state in which no process that can run is lost to the scheduler and those in the queues sleep, each in one
-- place, wakeup_queue with `del`, with fuel above the number of waits in the queue, returns and keeps
-- that state: the queue is empty, each process that waited in it can run and has the flags, and no
-- other wait, queue or process is touched.
pub wakeup_queue-Emptied :
    (kind : ℕ → ℕ) (k q flags : ℕ) (s : Sync)
    → IsWaiting kind s
    → length (s.queues q) < k
    → (s' : Sync) × (wakeup_queue k q flags true s ≡ some s')
      × IsWaiting kind s'
      × Emptied q flags (s.queues q) s s'
wakeup_queue-Emptied kind zero q flags s v f = ground arith
wakeup_queue-Emptied kind (suc k) q flags s v f =
    let (s', r, v', y) = wakeup_all-Emptied kind (suc k) q flags (s.queues q) s v refl f in
    (s', queue_runs k q flags s (s.queues q) refl ∙ r, v', y)
