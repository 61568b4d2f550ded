-- ===== src/Sched/Wakeup.antt =====
-- `wakeup_proc` of kern/schedule/sched.c keeps the scheduler's invariant.
use li_nos.Base.{
  ℕ, ◌≡◌, ◌≢◌, ◌∙◌, ◌⊎◌, not, subst, sym, ap, refl, inl, inr, some, ◌==◌, ==_iff, Bool-cases, false,
  true, arith,
}
use native.Mathlib.Decide.{ℕ_discrete}
use li_nos.Kernel.{runnable, zombie, is_runnable, is_zombie, Kernel}
use li_nos.Sched.{woken, wakeup_proc}
use li_nos.Sched.Invariant.{queued, IsQueued, IsSched, sched_enqueue-IsQueued, widen-IsQueued}

-- A process that cannot run is in no queue.
not_queued :
    (p : ℕ) (k : Kernel) → IsSched k → is_runnable (k.procs p).state ≡ false → queued k p ≡ 0
not_queued p k v e = ground (arith, v.waiting.ready p)

woken-state : (p : ℕ) (k : Kernel) (q : ℕ) → q ≢ p → ((woken p k).procs q).state ≡ (k.procs q).state
woken-state p k q ne = ground arith

woken_self : (p : ℕ) (k : Kernel) → ((woken p k).procs p).state ≡ runnable
woken_self p k = ground arith

woken-rq : (p : ℕ) (k : Kernel) (q : ℕ) → ((woken p k).procs q).rq ≡ (k.procs q).rq
woken-rq p k q = ground arith

-- The process that wakes up is the only one that may have to be queued now.
woken-IsQueued :
    (p : ℕ) (k : Kernel) → IsSched k → IsQueued (woken p k) (λ q. (q ≡ p) ⊎ (q ≡ k.current))
woken-IsQueued p k v = record {
  once = v.waiting.once;
  idle_out = v.waiting.idle_out;
  ready = λ q h.
      let r = v.waiting.ready q h in
      elim (ℕ_discrete q p) [
        | yes e ↦ (
          subst (λ x. ((woken p k).procs x).state ≡ runnable) (sym e) (woken_self p k),
          woken-rq p k q ∙ r.1,
        )
        | no n ↦ (woken-state p k q n ∙ r.0, woken-rq p k q ∙ r.1)
      ];
  none_lost = λ q r x i.
      v.waiting.none_lost q (sym (woken-state p k q (λ e. x (inl e))) ∙ r) (λ c. x (inr c)) i;
}

-- In every scheduling class, `wakeup_proc` of a process that is no zombie returns, the process can
-- run afterwards, and the invariant holds: a process that could run before was queued already and is
-- not queued twice, the current process is not queued, and every other one is.
pub wakeup-IsSched :
    (p : ℕ) (k : Kernel)
    → IsSched k
    → (k.procs p).state ≢ zombie
    → (k' : Kernel) × (wakeup_proc p k ≡ some k') × IsSched k' × ((k'.procs p).state ≡ runnable)
unfolding wakeup_proc
wakeup-IsSched p k v alive = rw (alive_test) (elim (Bool-cases (is_runnable (k.procs p).state)) [
  | inl run ↦ rw run (k, refl, v, ground arith)
  | inr stopped ↦
      let out = not_queued p k v stopped in
      rw stopped (elim (Bool-cases (p == k.current)) [
        | inl own ↦ rw own (
          woken p k,
          refl,
          record {
            waiting =
                widen-IsQueued (woken p k) _ (λ q. q ≡ k.current) (woken-IsQueued p k v)
                  (λ q r x c. elim c [ inl e ↦ x (e ∙ (==_iff p k.current).0 own) | inr e ↦ x e ]);
            current_out = v.current_out;
          },
          woken_self p k,
        )
        | inr other ↦
            let (k', ran, w, same, state, count) =
              sched_enqueue-IsQueued p (woken p k) (λ q. q ≡ k.current) (woken-IsQueued p k v) out
                (woken_self p k) in
            rw other (
              k',
              ran,
              record {
                waiting =
                    widen-IsQueued k' (λ q. q ≡ k.current) _ w
                      (λ q r x c. x (c ∙ sym same.current));
                current_out =
                    ap (queued k') same.current ∙ count k.current ∙ ground (arith, v.current_out);
              },
              state p ∙ woken_self p k,
            )
      ])
])
  where
    alive_test : not (is_zombie (k.procs p).state) ≡ true
    alive_test = ground arith
