-- ===== src/Wait/Sample.antt =====
-- A state with a queue at 100 in which process 5 waits with the wait_t at 50; process 7 runs.
use li_nos.Base.{
  ℕ, ◌≡◌, inl, inr, refl, arith, true, false, [], ◌∷◌, if◌then◌else◌, ◌==◌, ==_iff, Bool-cases, has,
  sym, ◌∙◌,
}
use li_nos.SkewHeap.{leaf}
use li_nos.Kernel.{Proc, Kernel, uninit, sleeping, runnable, rr_sched, wt_ksem}
use li_nos.Sched.Invariant.{IsSched}
use li_nos.Wait.{Sync}
use li_nos.Wait.Waiting.{IsWaiting}

abbrev pub proc_table : ℕ → Proc
proc_table p = record {
  state = if p == 7 then runnable else if p == 5 then sleeping else uninit;
  runs = 0;
  need_resched = false;
  wait_state = if p == 5 then wt_ksem else 0;
  rq = false;
  time_slice = 0;
  stride = 0;
  priority = 0;
}

abbrev pub busy_kernel : Kernel
busy_kernel = record {
  procs = proc_table;
  current = 7;
  idleproc = 1;
  sched_class = rr_sched;
  rq = record { run_list = []; proc_num = 0; max_time_slice = 5; lab6_run_pool = leaf };
  timer_list = [];
}

abbrev pub one_waits : Sync
one_waits = record {
  waits = λ w. record {
    proc = if w == 50 then 5 else 0;
    wakeup_flags = 0;
    wait_queue = if w == 50 then 100 else 0;
    is_linked = w == 50;
  };
  queues = λ q. if q == 100 then 50 ∷ [] else [];
  kernel = busy_kernel;
}

abbrev pub all_ksem : ℕ → ℕ
all_ksem q = wt_ksem

busy_kernel-IsSched : IsSched busy_kernel
busy_kernel-IsSched = record {
  waiting = record {
    once = λ p. ground arith;
    idle_out = refl;
    ready = λ p h. absurd (omega arith);
    none_lost = λ p r x i. absurd (x (only p r));
  };
  current_out = refl;
}
  where
    only : (p : ℕ) → (proc_table p).state ≡ runnable → p ≡ 7
    only p r = ground arith

in_one : (q w : ℕ) → has w (one_waits.queues q) ≡ true → (q ≡ 100) × (w ≡ 50)
in_one q w h = ground arith

pub one_waits-IsWaiting : IsWaiting all_ksem one_waits
one_waits-IsWaiting = record {
  sched = busy_kernel-IsSched;
  member = λ q w h.
      let (e, f) = in_one q w h in
      rw (e, f) (record { is_linked = refl; wait_queue = refl; asleep = refl; wait_state = refl });
  queued = λ w l. rw ((==_iff w 50).0 l) refl;
  once = λ q. elim (Bool-cases (q == 100)) [ inl e ↦ rw e (refl, tt) | inr e ↦ rw e tt ];
  apart = λ v w a b e. (==_iff v 50).0 a ∙ sym ((==_iff w 50).0 b);
}
