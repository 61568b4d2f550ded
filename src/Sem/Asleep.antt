-- ===== src/Sem/Asleep.antt =====
-- The state after wait_current_set in __down of kern/sync/sem.c.
use li_nos.Base.{
  ℕ, ◌<◌, true, false, ◌≡◌, ◌≢◌, ◌∙◌, ◌⊎◌, inl, inr, refl, sym, ap, subst, arith, some, List, [],
  ◌∷◌, ◌++◌, ◌==◌, update, has, has-append, Distinct, Bool-cases, ==_refl, ==_ne, ==_iff,
}
use li_nos.Kernel.{Proc, runnable, sleeping, Kernel, set_proc, wt_ksem, wt_interrupted}
use li_nos.Sched.Invariant.{queued, IsSched}
use li_nos.Wait.{Sync, wait_init, wait_queue_add, wait_current_set}
use li_nos.Wait.Waiting.{IsMember, IsWaiting}

-- The current process may change in any way.
set_current-IsSched : (k : Kernel) (x : Proc) → IsSched k → IsSched (set_proc k.current x k)
set_current-IsSched k x v = record {
  waiting = record {
    once = v.waiting.once;
    idle_out = v.waiting.idle_out;
    ready = λ p h.
        let n : p ≢ k.current =
          λ e. ground (arith, v.current_out, subst (λ y. 0 < queued k y) e h) in
        rw (==_ne p k.current n) (v.waiting.ready p h);
    none_lost = λ p r n i. v.waiting.none_lost p (rw (==_ne p k.current n) at r) n i;
  };
  current_out = v.current_out;
}

-- The state with the current process asleep at the end of the queue.
abbrev pub asleep : (sem w : ℕ) → Sync → Sync
asleep sem w s =
    let c = s.kernel.current in
    record {
      waits =
          update
            (update s.waits w
              (record (s.waits w) { proc = c; wakeup_flags = wt_interrupted; is_linked = false }))
            w
            (record (s.waits w) {
              proc = c;
              wakeup_flags = wt_interrupted;
              wait_queue = sem;
              is_linked = true;
            });
      queues = update s.queues sem (s.queues sem ++ w ∷ []);
      kernel =
          set_proc c (record (s.kernel.procs c) { state = sleeping; wait_state = wt_ksem })
            s.kernel;
    }

pub current_set_runs :
    (sem w : ℕ) (s : Sync)
    → s.kernel.current ≢ 0
    → wait_current_set sem w wt_ksem s ≡ some (asleep sem w s)
unfolding wait_current_set wait_queue_add wait_init
current_set_runs sem w s n =
    rw (==_ne s.kernel.current 0 n) (rw (==_refl w) (rw (==_ne s.kernel.current 0 n) refl))

-- The current process, which can run, goes to sleep with a wait_t that is in no queue.
module _ (kind : ℕ → ℕ) (sem w : ℕ) (s : Sync) (v : IsWaiting kind s) (k : kind sem ≡ wt_ksem)
    (run : (s.kernel.procs s.kernel.current).state ≡ runnable)
    (new : (s.waits w).is_linked ≡ false) where
  old : (r u : ℕ) → has u (s.queues r) ≡ true → u ≢ w
  old r u h e = ground (arith, (v.member r u h).is_linked, ap (λ y. (s.waits y).is_linked) e)

  same_wait : (u : ℕ) → u ≢ w → (asleep sem w s).waits u ≡ s.waits u
  same_wait u n = rw (==_ne u w n) refl

  pub own_wait : ((asleep sem w s).waits w).proc ≡ s.kernel.current
  own_wait = rw (==_refl w) refl

  -- A process that waits is not the current one.
  other_proc : (r u : ℕ) → has u (s.queues r) ≡ true → (s.waits u).proc ≢ s.kernel.current
  other_proc r u h e =
      let a = (v.member r u h).asleep in differ (sym a ∙ ap (λ y. (s.kernel.procs y).state) e ∙ run)
    where
      differ : sleeping ≢ runnable
      differ i = cc

  old-IsMember : (r u : ℕ) → has u (s.queues r) ≡ true → IsMember kind (asleep sem w s) r u
  old-IsMember r u h =
      let i = v.member r u h in
      let e = same_wait u (old r u h) in
      let p : (asleep sem w s).kernel.procs (s.waits u).proc ≡ s.kernel.procs (s.waits u).proc =
        rw (==_ne (s.waits u).proc s.kernel.current (other_proc r u h)) refl in
      record {
        is_linked = ap (λ y. y.is_linked) e ∙ i.is_linked;
        wait_queue = ap (λ y. y.wait_queue) e ∙ i.wait_queue;
        asleep =
            ap (λ y. ((asleep sem w s).kernel.procs y.proc).state) e
            ∙ ap (λ y. y.state) p
            ∙ i.asleep;
        wait_state =
            ap (λ y. ((asleep sem w s).kernel.procs y.proc).wait_state) e
            ∙ ap (λ y. y.wait_state) p
            ∙ i.wait_state;
      }

  new-IsMember : IsMember kind (asleep sem w s) sem w
  new-IsMember = record {
    is_linked = rw (==_refl w) refl;
    wait_queue = rw (==_refl w) refl;
    asleep = rw (==_refl w) (rw (==_refl s.kernel.current) refl);
    wait_state = rw (==_refl w) (rw (==_refl s.kernel.current) (sym k));
  }

  in_queue :
      (r u : ℕ)
      → has u ((asleep sem w s).queues r) ≡ true
      → (has u (s.queues r) ≡ true) ⊎ ((u ≡ w) × (r ≡ sem))
  in_queue r u h = elim (Bool-cases (r == sem)) [
    | inl e ↦
        let i = (==_iff r sem).0 e in
        let g = sym (has-append u (s.queues sem) (w ∷ [])) ∙ (rw e at h) in
        elim (Bool-cases (u == w)) [
          | inl f ↦ inr ((==_iff u w).0 f, i)
          | inr f ↦ inl (subst (λ y. has u (s.queues y) ≡ true) (sym i) (ground arith))
        ]
    | inr e ↦ inl (rw e at h)
  ]

  linked_before :
      (u : ℕ) → u ≢ w → ((asleep sem w s).waits u).is_linked ≡ true → (s.waits u).is_linked ≡ true
  linked_before u n l = ap (λ y. y.is_linked) (sym (same_wait u n)) ∙ l

  more : (r u : ℕ) → has u (s.queues r) ≡ true → has u ((asleep sem w s).queues r) ≡ true
  more r u h = elim (Bool-cases (r == sem)) [
    | inl e ↦ rw e (
        has-append u (s.queues sem) (w ∷ [])
        ∙ ground (arith, subst (λ y. has u (s.queues y) ≡ true) ((==_iff r sem).0 e) h))
    | inr e ↦ rw e h
  ]

  at_end : has w ((asleep sem w s).queues sem) ≡ true
  at_end = rw (==_refl sem) (has-append w (s.queues sem) (w ∷ []) ∙ ground (arith, ==_refl w))

  all_queued :
      (u : ℕ)
      → ((asleep sem w s).waits u).is_linked ≡ true
      → has u ((asleep sem w s).queues ((asleep sem w s).waits u).wait_queue) ≡ true
  all_queued u l = elim (Bool-cases (u == w)) [
    | inl e ↦
        subst (λ y. has y ((asleep sem w s).queues ((asleep sem w s).waits y).wait_queue) ≡ true)
          (sym ((==_iff u w).0 e))
          (ap (λ y. has w ((asleep sem w s).queues y)) new-IsMember.wait_queue ∙ at_end)
    | inr e ↦
        let n : u ≢ w = λ i. ground (arith, ==_refl w) in
        ap (λ y. has u ((asleep sem w s).queues y.wait_queue)) (same_wait u n)
        ∙ more (s.waits u).wait_queue u (v.queued u (linked_before u n l))
  ]

  new_proc :
      (u : ℕ)
      → ((asleep sem w s).waits u).is_linked ≡ true
      → u ≢ w
      → ((asleep sem w s).waits u).proc ≢ ((asleep sem w s).waits w).proc
  new_proc u l n e =
      other_proc (s.waits u).wait_queue u (v.queued u (linked_before u n l))
        (ap (λ y. y.proc) (sym (same_wait u n)) ∙ e ∙ own_wait)

  Distinct-end : (xs : List ℕ) → Distinct xs → has w xs ≡ false → Distinct (xs ++ w ∷ [])
  Distinct-end [] d h = (refl, tt)
  Distinct-end (x ∷ xs) (a, d) h =
      (has-append x xs (w ∷ []) ∙ ground (arith), Distinct-end xs d (ground arith))

  w_new : (r : ℕ) → has w (s.queues r) ≡ false
  w_new r = elim (Bool-cases (has w (s.queues r))) [ inl h ↦ absurd (old r w h refl) | inr h ↦ h ]

  pub asleep-IsWaiting : IsWaiting kind (asleep sem w s)
  asleep-IsWaiting = record {
    sched = set_current-IsSched s.kernel _ v.sched;
    member = λ r u h. elim (in_queue r u h) [
      | inl i ↦ old-IsMember r u i
      | inr i ↦ rw i.0 (rw i.1 new-IsMember)
    ];
    queued = all_queued;
    once = λ r. elim (Bool-cases (r == sem)) [
      | inl e ↦ rw e (Distinct-end (s.queues sem) (v.once sem) (w_new sem))
      | inr e ↦ rw e (v.once r)
    ];
    apart = λ a b la lb e. one_wait a b la lb e (Bool-cases (a == w)) (Bool-cases (b == w));
  }
    where
      other : {u : ℕ} → (u == w) ≡ false → u ≢ w
      other {u} f i = ground (arith)

      one_wait :
          (a b : ℕ)
          → ((asleep sem w s).waits a).is_linked ≡ true
          → ((asleep sem w s).waits b).is_linked ≡ true
          → ((asleep sem w s).waits a).proc ≡ ((asleep sem w s).waits b).proc
          → ((a == w) ≡ true) ⊎ ((a == w) ≡ false)
          → ((b == w) ≡ true) ⊎ ((b == w) ≡ false)
          → a ≡ b
      one_wait a b la lb e (inl i) (inl j) = ground arith
      one_wait a b la lb e (inl i) (inr j) = absurd (
          new_proc b lb (other j)
            (sym e ∙ ap (λ y. ((asleep sem w s).waits y).proc) ((==_iff a w).0 i)))
      one_wait a b la lb e (inr i) (inl j) = absurd (
          new_proc a la (other i)
            (e ∙ ap (λ y. ((asleep sem w s).waits y).proc) ((==_iff b w).0 j)))
      one_wait a b la lb e (inr i) (inr j) =
          v.apart a b (linked_before a (other i) la) (linked_before b (other j) lb) (
            ap (λ y. y.proc) (sym (same_wait a (other i)))
            ∙ e
            ∙ ap (λ y. y.proc) (same_wait b (other j)))
