-- ===== src/Monitor/CondWait.antt =====
-- cond_wait of kern/sync/monitor.c, up to the switch to another process.
use li_nos.Base.{
  ℕ, ◌+◌, Bool, true, false, ◌≡◌, ◌≢◌, ◌∙◌, refl, sym, ap, arith, inl, inr, Option, some, [], ◌∷◌,
  ◌++◌, update, ==_refl, ==_ne, has, List, ◌⊎◌,
}
use li_nos.Kernel.{Kernel, runnable, sleeping, wt_ksem}
use li_nos.Wait.{Sync}
use li_nos.Wait.Waiting.{IsWaiting}
use li_nos.Wait.Wake.{Woken}
use li_nos.Sem.{Sems, up, down}
use li_nos.Sem.Up.{Upped, up-Upped}
use li_nos.Sem.Down.{Switched, SameRest, Downed, down-Downed}
use li_nos.Monitor.{Monitor, leaving, cond_wait}

-- What up leaves for the process that calls it.
abbrev pub Running : Sems → (w : ℕ) → Type 0
Running s w =
    (s.sync.kernel.current ≢ 0)
    × ((s.sync.kernel.procs s.sync.kernel.current).state ≡ runnable)
    × ((s.sync.waits w).is_linked ≡ false)

-- The process that is woken is another one, since it slept.
Woken-other :
    (kind : ℕ → ℕ) (sem u : ℕ) (y y' : Sync) (w : ℕ)
    → IsWaiting kind y
    → has u (y.queues sem) ≡ true
    → Woken u sem wt_ksem y y'
    → (y.kernel.current ≢ 0)
    → ((y.kernel.procs y.kernel.current).state ≡ runnable)
    → ((y.waits w).is_linked ≡ false)
    → (y'.kernel.current ≡ y.kernel.current)
      × (y'.kernel.idleproc ≡ y.kernel.idleproc)
      × ((y'.kernel.procs y'.kernel.current).state ≡ runnable)
      × ((y'.waits w).is_linked ≡ false)
Woken-other kind sem u y y' w v m x n r l =
    let i = v.member sem u m in
    let differ : y.kernel.current ≢ (y.waits u).proc =
      λ e. apart (sym i.asleep ∙ ap (λ p. (y.kernel.procs p).state) (sym e) ∙ r) in
    let other : w ≢ u = λ e. clash (sym l ∙ ap (λ z. (y.waits z).is_linked) e ∙ i.is_linked) in
    (
      x.rest.current,
      x.rest.idleproc,
      ap (λ p. (y'.kernel.procs p).state) x.rest.current
          ∙ ap (λ p. p.state) (x.rest.procs y.kernel.current differ)
          ∙ r,
      ap (λ z. z.is_linked) (x.others w other) ∙ l,
    )
  where
    apart : sleeping ≢ runnable
    apart e = cc

    clash : false ≢ true
    clash e = cc

-- After up of another semaphore: the caller still runs, and the semaphore `cv` is as it was.
abbrev Released : (kind : ℕ → ℕ) (cv w : ℕ) (s s1 : Sems) → Type 0
Released kind cv w s s1 =
    IsWaiting kind s1.sync
    × (s1.sync.kernel.current ≡ s.sync.kernel.current)
    × (s1.sync.kernel.idleproc ≡ s.sync.kernel.idleproc)
    × ((s1.sync.kernel.procs s1.sync.kernel.current).state ≡ runnable)
    × ((s1.sync.waits w).is_linked ≡ false)
    × (s1.value cv ≡ s.value cv)
    × (s1.sync.queues cv ≡ s.sync.queues cv)

up-Released :
    (kind : ℕ → ℕ) (sem cv w : ℕ) (s : Sems)
    → IsWaiting kind s.sync
    → cv ≢ sem
    → Running s w
    → Upped kind sem s (up sem s)
    → (s1 : Sems) × (up sem s ≡ some s1) × Released kind cv w s s1
up-Released kind sem cv w s v n (c, r, l) (s1, e, v1, inl (q, same)) = (
  s1,
  e,
  (
    v1,
    ap (λ z. z.sync.kernel.current) same,
    ap (λ z. z.sync.kernel.idleproc) same,
    ap (λ z. (z.sync.kernel.procs z.sync.kernel.current).state) same ∙ r,
    ap (λ z. (z.sync.waits w).is_linked) same ∙ l,
    ap (λ z. z.value cv) same ∙ rw (==_ne cv sem n) refl,
    ap (λ z. z.sync.queues cv) same,
  ),
)
up-Released kind sem cv w s v n (c, r, l) (s1, e, v1, inr (u, us, q, q1, val, x, back)) =
    let m : has u (s.sync.queues sem) ≡ true = rw q (ground (arith, ==_refl u)) in
    let (a, j, b, d) = Woken-other kind sem u s.sync s1.sync w v m x c r l in
    (s1, e, (v1, a, j, b, d, ap (λ f. f cv) val, x.queue cv ∙ rw (==_ne cv sem n) refl))

wait_runs :
    (cv w : ℕ) (m : Monitor) (s1 s2 : Sems) (taken : Bool)
    → up (leaving m) m.sems ≡ some s1
    → down cv w s1 ≡ some (taken, s2)
    → cond_wait cv w m
      ≡ some (taken, record m { count = update m.count cv (m.count cv + 1); sems = s2 })
unfolding cond_wait
wait_runs cv w m s1 s2 taken e f = rw e (rw f refl)

-- Of the state `s'` after the switch, one process can go on in the monitor: the semaphore `sem` is one
-- higher if nobody slept on it, else the first that slept there has left its queue, woken by it.
abbrev pub LetOn : (sem : ℕ) (s s' : Sems) → Type 0
LetOn sem s s' =
    ((s.sync.queues sem ≡ []) × (s'.sync.queues sem ≡ []) × (s'.value sem ≡ s.value sem + 1))
    ⊎ ((u : ℕ) × (us : List ℕ) × (s.sync.queues sem ≡ u ∷ us)
        × (s'.sync.queues sem ≡ us)
        × (s'.value sem ≡ s.value sem)
        × ((s'.sync.waits u).is_linked ≡ false)
        × ((s'.sync.waits u).wakeup_flags ≡ wt_ksem)
        × ((s'.sync.kernel.procs (s.sync.waits u).proc).state ≡ runnable))

-- What cond_wait does up to the switch: one process can go on in the monitor, and the caller sleeps at the
-- end of the queue of the condition variable.
abbrev pub CondWaited : (kind : ℕ → ℕ) (cv w : ℕ) → Monitor → Option (Bool × Monitor) → Type 0
CondWaited kind cv w m o =
    (m' : Monitor) × (o ≡ some (false, m'))
    × IsWaiting kind m'.sems.sync
    × (m'.count cv ≡ m.count cv + 1)
    × (m'.sems.sync.queues cv ≡ m.sems.sync.queues cv ++ w ∷ [])
    × ((m'.sems.sync.waits w).proc ≡ m.sems.sync.kernel.current)
    × ((m'.sems.sync.kernel.procs m.sems.sync.kernel.current).state ≡ sleeping)
    × LetOn (leaving m) m.sems m'.sems
    × Switched m.sems.sync.kernel m'.sems.sync.kernel

Switched-same :
    (k k1 k' : Kernel)
    → k1.current ≡ k.current
    → k1.idleproc ≡ k.idleproc
    → Switched k1 k'
    → Switched k k'
Switched-same k k1 k' c i (inl (n, m, r)) = inl (λ e. n (e ∙ sym c), λ e. m (e ∙ sym i), r)
Switched-same k k1 k' c i (inr (n, o)) = inr (n ∙ i, λ q r. o q r ∙ i)

-- What up does for the process that goes on is left so by down of another semaphore.
LetOn-after :
    (kind : ℕ → ℕ) (sem cv w : ℕ) (s s1 s2 : Sems)
    → IsWaiting kind s.sync
    → cv ≢ sem
    → Running s w
    → up sem s ≡ some s1
    → Upped kind sem s (up sem s)
    → s1.sync.kernel.current ≡ s.sync.kernel.current
    → s2.value ≡ s1.value
    → SameRest cv w s1.sync s2.sync
    → LetOn sem s s2
LetOn-after kind sem cv w s s1 s2 v n run e (x, f, v1, inl (q, same)) c val (queue, wait, state) =
    let g : s1 ≡ record s { value = update s.value sem (s.value sem + 1) } = agree ∙ same in
    inl (
      q,
      queue sem (λ i. n (sym i)) ∙ ap (λ z. z.sync.queues sem) g ∙ q,
      ap (λ h. h sem) val ∙ ap (λ z. z.value sem) g ∙ rw (==_refl sem) refl,
    )
  where
    agree : s1 ≡ x
    agree = cc
LetOn-after kind sem cv w s s1 s2 v n run e (x, f, v1, inr (u, us, q, q1, val1, k, back)) c val
      (queue, wait, state) =
    let m : has u (s.sync.queues sem) ≡ true = rw q (ground (arith, ==_refl u)) in
    let i = v.member sem u m in
    let other : u ≢ w =
      λ j. clash (sym run.2 ∙ ap (λ z. (s.sync.waits z).is_linked) (sym j) ∙ i.is_linked) in
    let differ : (s.sync.waits u).proc ≢ s1.sync.kernel.current =
      λ j. apart (sym i.asleep ∙ ap (λ p. (s.sync.kernel.procs p).state) (j ∙ c) ∙ run.1) in
    inr (
      u,
      us,
      q,
      queue sem (λ j. n (sym j)) ∙ ap (λ z. z.sync.queues sem) agree ∙ q1,
      ap (λ h. h sem) val ∙ ap (λ z. z.value sem) agree ∙ ap (λ h. h sem) val1,
      ap (λ z. z.is_linked) (wait u other ∙ ap (λ z. z.sync.waits u) agree) ∙ k.unlinked,
      ap (λ z. z.wakeup_flags) (wait u other ∙ ap (λ z. z.sync.waits u) agree) ∙ k.flagged,
      state (s.sync.waits u).proc differ
          ∙ ap (λ z. (z.sync.kernel.procs (s.sync.waits u).proc).state) agree
          ∙ k.awake,
    )
  where
    agree : s1 ≡ x
    agree = cc

    apart : sleeping ≢ runnable
    apart e = cc

    clash : false ≢ true
    clash e = cc

slept :
    (kind : ℕ → ℕ) (cv w : ℕ) (m : Monitor) (s1 : Sems)
    → IsWaiting kind m.sems.sync
    → cv ≢ leaving m
    → m.sems.value cv ≡ 0
    → Running m.sems w
    → up (leaving m) m.sems ≡ some s1
    → Upped kind (leaving m) m.sems (up (leaving m) m.sems)
    → Released kind cv w m.sems s1
    → Downed kind cv w s1 (down cv w s1)
    → CondWaited kind cv w m (cond_wait cv w m)
slept kind cv w m s1 v n z run e u (v1, c, j, r, l, val, q) (s2, inl (pos, f, same), v2) =
    absurd (omega arith)
slept kind cv w m s1 v n z run e u (v1, c, j, r, l, val, q)
      (s2, inr (zero', f, same, q2, p, a, switched, rest), v2) =
    (
      record m { count = update m.count cv (m.count cv + 1); sems = s2 },
      wait_runs cv w m s1 s2 false e f,
      v2,
      rw (==_refl cv) refl,
      q2 ∙ ap (λ y. y ++ w ∷ []) q,
      p ∙ c,
      ap (λ y. (s2.sync.kernel.procs y).state) (sym c) ∙ a,
      LetOn-after kind (leaving m) cv w m.sems s1 s2 v n run e u c same rest,
      Switched-same m.sems.sync.kernel s1.sync.kernel s2.sync.kernel c j switched,
    )

-- From a state in which no process that can run is lost to the scheduler and those in the queues
-- sleep, each in one place, cond_wait by the current process, which can run, with a wait_t that is in no
-- queue, on a condition variable whose semaphore is at zero and is not the one it raises, never
-- panics and keeps that state: after the switch, the semaphore of the signallers, or that of the monitor
-- if no signaller sleeps, is one higher, or the first that slept on it has left its queue and can
-- run; the count is one more, the caller sleeps at the end of the queue of the condition variable, and
-- another process runs, which can run, or the idle one if no other can.
pub cond_wait-CondWaited :
    (kind : ℕ → ℕ) (cv w : ℕ) (m : Monitor)
    → IsWaiting kind m.sems.sync
    → kind cv ≡ wt_ksem
    → kind (leaving m) ≡ wt_ksem
    → cv ≢ leaving m
    → m.sems.value cv ≡ 0
    → Running m.sems w
    → CondWaited kind cv w m (cond_wait cv w m)
cond_wait-CondWaited kind cv w m v kc kl n z run =
    let u = up-Upped kind (leaving m) m.sems v kl in
    let (s1, e, rel) = up-Released kind (leaving m) cv w m.sems v n run u in
    slept kind cv w m s1 v n z run e u rel
      (down-Downed kind cv w s1 rel.0 kc (λ x. run.0 (sym rel.1 ∙ x)) rel.3 rel.4)
