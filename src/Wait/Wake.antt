-- ===== src/Wait/Wake.antt =====
-- wakeup_wait and wakeup_queue of kern/sync/wait.c.
use li_nos.Base.{
  ℕ, true, false, ◌≡◌, ◌≢◌, ◌∙◌, inl, inr, refl, sym, ap, subst, arith, some, if◌then◌else◌, ◌==◌,
  update, has, erase, Distinct, Bool-cases, ==_refl, ==_ne, ==_iff,
}
use li_nos.Kernel.{sleeping, runnable, zombie, Kernel, ProcState}
use li_nos.Sched.{wakeup_proc}
use li_nos.Sched.Invariant.{IsSched}
use li_nos.Sched.Wakeup.{wakeup-IsSched}
use li_nos.Sched.Frame.{Others, wakeup-Others}
use li_nos.Wait.{Sync, wake, wakeup_wait, wait_queue_del}
use li_nos.Wait.Waiting.{IsMember, IsWaiting, has-erase_self, has-erase_ne, Distinct-erase}

-- The first of a queue is taken out and its process woken with the flags; nothing else changes.
pub record Woken (w q flags : ℕ) (s s' : Sync) : Type 0 where
  pub unlinked : (s'.waits w).is_linked ≡ false
  pub flagged : (s'.waits w).wakeup_flags ≡ flags
  pub owner : (s'.waits w).proc ≡ (s.waits w).proc
  pub others : (v : ℕ) → v ≢ w → s'.waits v ≡ s.waits v
  pub queue : (r : ℕ) → s'.queues r ≡ (if r == q then erase w (s.queues q) else s.queues r)
  pub awake : (s'.kernel.procs (s.waits w).proc).state ≡ runnable
  pub rest : Others (s.waits w).proc s.kernel s'.kernel

abbrev unlinked : (q w : ℕ) → Sync → Sync
unlinked q w s = record s {
  waits = update s.waits w (record (s.waits w) { is_linked = false });
  queues = update s.queues q (erase w (s.queues q));
}

abbrev flagged : (w flags : ℕ) → Kernel → Sync → Sync
flagged w flags k s = record s {
  waits = update s.waits w (record (s.waits w) { wakeup_flags = flags });
  kernel = k;
}

del_runs :
    (q w : ℕ) (s : Sync)
    → (s.waits w).is_linked ≡ true
    → (s.waits w).wait_queue ≡ q
    → wait_queue_del q w s ≡ some (unlinked q w s)
unfolding wait_queue_del
del_runs q w s l e = rw (l, e, ==_refl q) refl

wake_runs :
    (w flags : ℕ) (s : Sync) (k : Kernel)
    → wakeup_proc (s.waits w).proc s.kernel ≡ some k
    → wake w flags s ≡ some (flagged w flags k s)
unfolding wake
wake_runs w flags s k r = rw r refl

wakeup_runs :
    (q w flags : ℕ) (s : Sync) (k : Kernel)
    → (s.waits w).is_linked ≡ true
    → (s.waits w).wait_queue ≡ q
    → wakeup_proc (s.waits w).proc s.kernel ≡ some k
    → wakeup_wait q w flags true s ≡ some (flagged w flags k (unlinked q w s))
unfolding wakeup_wait
wakeup_runs q w flags s k l e r =
    rw (del_runs q w s l e) (wake_runs w flags (unlinked q w s) k (rw (==_refl w) r))

unlink_flag-Woken :
    (q w flags : ℕ) (s : Sync) (k : Kernel)
    → (k.procs (s.waits w).proc).state ≡ runnable
    → Others (s.waits w).proc s.kernel k
    → Woken w q flags s (flagged w flags k (unlinked q w s))
unlink_flag-Woken q w flags s k r o = record {
  unlinked = ground (arith, ==_refl w);
  flagged = ground (arith, ==_refl w);
  owner = ground (arith, ==_refl w);
  others = λ v n. ground (arith, ==_ne v w n);
  queue = λ r. refl;
  awake = r;
  rest = o;
}

module _ (kind : ℕ → ℕ) (w q flags : ℕ) (s s' : Sync) (v : IsWaiting kind s)
    (m : has w (s.queues q) ≡ true) (x : Woken w q flags s s') where
  not_woken : (u : ℕ) → (s'.waits u).is_linked ≡ true → u ≢ w
  not_woken u l e = false_true (sym x.unlinked ∙ ap (λ y. (s'.waits y).is_linked) (sym e) ∙ l)
    where
      false_true : false ≢ true
      false_true i = cc

  elsewhere : (r u : ℕ) → (r == q) ≡ false → has u (s.queues r) ≡ true → u ≢ w
  elsewhere r u e k i =
      let f : r ≡ q =
        sym (v.member r u k).wait_queue
        ∙ ap (λ y. (s.waits y).wait_queue) i
        ∙ (v.member q w m).wait_queue in
      ground (arith, ==_refl q)

  -- An entry that still waits waited there before.
  waited : (r u : ℕ) → has u (s'.queues r) ≡ true → (u ≢ w) × (has u (s.queues r) ≡ true)
  waited r u h = elim (Bool-cases (r == q)) [
    | inl e ↦
        let k = rw e at (ap (has u) (sym (x.queue r)) ∙ h) in
        let n : u ≢ w = λ i. ground (arith, has-erase_self w (s.queues q) (v.once q)) in
        (
          n,
          subst (λ y. has u (s.queues y) ≡ true) (sym ((==_iff r q).0 e))
              (sym (has-erase_ne u w (s.queues q) n) ∙ k),
        )
    | inr e ↦ let k = rw e at (ap (has u) (sym (x.queue r)) ∙ h) in (elsewhere r u e k, k)
  ]

  same-IsMember : (r u : ℕ) → u ≢ w → IsMember kind s r u → IsMember kind s' r u
  same-IsMember r u n i =
      let e = x.others u n in
      let p : s'.kernel.procs (s'.waits u).proc ≡ s.kernel.procs (s.waits u).proc =
        ap (λ y. s'.kernel.procs y.proc) e
        ∙ x.rest.procs (s.waits u).proc
            (λ same. n (v.apart u w i.is_linked (v.member q w m).is_linked same)) in
      record {
        is_linked = ap (λ y. y.is_linked) e ∙ i.is_linked;
        wait_queue = ap (λ y. y.wait_queue) e ∙ i.wait_queue;
        asleep = ap (λ y. y.state) p ∙ i.asleep;
        wait_state = ap (λ y. y.wait_state) p ∙ i.wait_state;
      }

  still_queued :
      (u : ℕ) → (s'.waits u).is_linked ≡ true → has u (s'.queues (s'.waits u).wait_queue) ≡ true
  still_queued u l =
      let n = not_woken u l in
      let e = x.others u n in
      let h = v.queued u (ap (λ y. y.is_linked) (sym e) ∙ l) in
      ap (λ y. has u (s'.queues y.wait_queue)) e
      ∙ ap (has u) (x.queue (s.waits u).wait_queue)
      ∙ kept (s.waits u).wait_queue n h
    where
      kept :
          (r : ℕ)
          → u ≢ w
          → has u (s.queues r) ≡ true
          → has u (if r == q then erase w (s.queues q) else s.queues r) ≡ true
      kept r n h = elim (Bool-cases (r == q)) [
        | inl e ↦ rw e (
            has-erase_ne u w (s.queues q) n
            ∙ subst (λ y. has u (s.queues y) ≡ true) ((==_iff r q).0 e) h)
        | inr e ↦ rw e h
      ]

  woken-IsWaiting : IsSched s'.kernel → IsWaiting kind s'
  woken-IsWaiting i = record {
    sched = i;
    member = λ r u h. let (n, k) = waited r u h in same-IsMember r u n (v.member r u k);
    queued = still_queued;
    once = λ r. subst Distinct (sym (x.queue r)) (distinct r);
    apart = λ a b la lb e.
        let ea = x.others a (not_woken a la) in
        let eb = x.others b (not_woken b lb) in
        v.apart a b (ap (λ y. y.is_linked) (sym ea) ∙ la) (ap (λ y. y.is_linked) (sym eb) ∙ lb)
          (ap (λ y. y.proc) (sym ea) ∙ e ∙ ap (λ y. y.proc) eb);
  }
    where
      distinct : (r : ℕ) → Distinct (if r == q then erase w (s.queues q) else s.queues r)
      distinct r = elim (Bool-cases (r == q)) [
        | inl e ↦ rw e (Distinct-erase w (s.queues q) (v.once q))
        | inr e ↦ rw e (v.once r)
      ]

-- wakeup_wait, with `del`, of an entry of a queue returns: the entry has left the queue, its process
-- can run, and all others wait as before.
pub wakeup_wait-IsWaiting :
    (kind : ℕ → ℕ) (w q flags : ℕ) (s : Sync)
    → IsWaiting kind s
    → has w (s.queues q) ≡ true
    → (s' : Sync) × (wakeup_wait q w flags true s ≡ some s')
      × IsWaiting kind s'
      × Woken w q flags s s'
wakeup_wait-IsWaiting kind w q flags s v m =
    let i = v.member q w m in
    let (k, r, j, a) = wakeup-IsSched (s.waits w).proc s.kernel v.sched (alive i.asleep) in
    let s' = flagged w flags k (unlinked q w s) in
    let x = unlink_flag-Woken q w flags s k a (wakeup-Others (s.waits w).proc s.kernel k r) in
    (
      s',
      wakeup_runs q w flags s k i.is_linked i.wait_queue r,
      woken-IsWaiting kind w q flags s s' v m x j,
      x,
    )
  where
    alive : {x : ProcState} → x ≡ sleeping → x ≢ zombie
    alive e f = cc
