-- ===== src/Sched/Tick.antt =====
-- The clock tick of kern/schedule/sched.c, `run_timer_list`: which timers expire.
use li_nos.Base.{
  not, ℕ, ◌+◌, ◌-◌, ◌≡◌, ◌∙◌, sym, ap, refl, some, List, [], ◌∷◌, ◌==◌, true, arith, Bool-cases,
  ==_refl, >>=-eq-some, assert-eq-some, inl, inr,
}
use mathlib.Core.Option.{some-injective}
use li_nos.Kernel.{Timer, Kernel, SchedClass, rr_sched, fcfs_sched, stride_sched, prior_sched}
use li_nos.Class.{class_enqueue, class_proc_tick, sched_class_enqueue, sched_class_proc_tick}
use li_nos.Class.Rr.{rr_enqueue, rr_proc_tick}
use li_nos.Class.Fcfs.{fcfs_enqueue, fcfs_proc_tick}
use li_nos.Class.Stride.{stride_enqueue, stride_proc_tick}
use li_nos.Class.Prior.{prior_enqueue, prior_proc_tick}
use li_nos.Sched.{woken, wakeup_proc, run_expired, tick_timers, run_timer_list}
use li_nos.Sched.Timers.{del_timer, remove_timer}
use li_nos.Sched.Timers.Deadlines.{deadlines, tick_deadlines, drop_expired, tick-now}

-- What queueing and waking leave alone.
pub record SameClock (k k' : Kernel) : Type 0 where
  pub timer_list : k'.timer_list ≡ k.timer_list
  pub current : k'.current ≡ k.current
  pub idleproc : k'.idleproc ≡ k.idleproc
  pub sched_class : k'.sched_class ≡ k.sched_class

class_enqueue-SameClock :
    (c : SchedClass) (p : ℕ) (k : Kernel) {k' : Kernel}
    → class_enqueue c p k ≡ some k'
    → SameClock k k'
unfolding class_enqueue rr_enqueue fcfs_enqueue stride_enqueue prior_enqueue
class_enqueue-SameClock rr_sched p k e = ground arith
class_enqueue-SameClock fcfs_sched p k e = ground arith
class_enqueue-SameClock stride_sched p k e = ground arith
class_enqueue-SameClock prior_sched p k e = ground arith

pub enqueue-SameClock :
    (p : ℕ) (k : Kernel) {k' : Kernel} → sched_class_enqueue p k ≡ some k' → SameClock k k'
unfolding sched_class_enqueue
enqueue-SameClock p k {k'} e = ground (arith, class_enqueue-SameClock k.sched_class p k {k' = k'})

pub wakeup-SameClock :
    (p : ℕ) (k : Kernel) {k' : Kernel} → wakeup_proc p k ≡ some k' → SameClock k k'
unfolding wakeup_proc
wakeup-SameClock p k {k'} e = ground (arith, enqueue-SameClock p (woken p k) {k' = k'})

-- An expired timer at the front is taken out, and nothing is added to the next one.
del_timer-front :
    (t : Timer) (ts : List Timer) (k : Kernel)
    → k.timer_list ≡ t ∷ ts
    → (t.expires == 0) ≡ true
    → (del_timer t.timer_link k).timer_list ≡ ts
unfolding del_timer remove_timer
del_timer-front t ts k e z = rw (e, ==_refl, z)

run_expired-timers :
    (ts : List Timer) (k : Kernel) {k' : Kernel}
    → k.timer_list ≡ ts
    → run_expired ts k ≡ some k'
    → k'.timer_list ≡ drop_expired ts
unfolding run_expired
run_expired-timers [] k e r = ground arith
run_expired-timers (t ∷ ts) k {k'} e r = elim (Bool-cases (t.expires == 0)) [
  | inl z ↦
      let (ok, r1) = assert-eq-some _ _ (rw z at r) in
      let (k1, w, r2) = >>=-eq-some (wakeup_proc t.proc k) _ r1 in
      let same = wakeup-SameClock t.proc k w in
      rw z (
        run_expired-timers ts (del_timer t.timer_link k1)
          (del_timer-front t ts k1 (same.timer_list ∙ e) z) r2)
  | inr nz ↦ rw nz (ground arith)
]

-- The class's tick leaves the timers alone.
tick-timer_list : (p : ℕ) (k : Kernel) → (sched_class_proc_tick p k).timer_list ≡ k.timer_list
unfolding sched_class_proc_tick class_proc_tick rr_proc_tick fcfs_proc_tick stride_proc_tick
    prior_proc_tick
tick-timer_list p k = ground arith

tick_timers-deadlines :
    (ts : List Timer) (k : Kernel) {k' : Kernel}
    → k.timer_list ≡ ts
    → tick_timers ts k ≡ some k'
    → deadlines 0 k'.timer_list ≡ tick_deadlines (deadlines 0 ts)
unfolding tick_timers
tick_timers-deadlines [] k e r = ground arith
tick_timers-deadlines (t ∷ ts) k {k'} e r =
    let (pos, r1) = assert-eq-some (not (t.expires == 0)) _ r in
    let t' = record t { expires = t.expires - 1 } in
    let left = run_expired-timers (t' ∷ ts) (record k { timer_list = t' ∷ ts }) refl r1 in
    let due : 1 + (t.expires - 1) ≡ 0 + t.expires = ground arith in
    ap (deadlines 0) left
    ∙ sym (tick-now (t' ∷ ts))
    ∙ ap (λ n. tick_deadlines ((t.timer_link, t.proc, n) ∷ deadlines n ts)) due

-- Whenever `run_timer_list` does not panic, exactly the timers that were due within one tick are
-- gone from the list, and every other one is one tick nearer to its deadline, in the same order.
pub run_timer_list-deadlines :
    (k : Kernel) {k' : Kernel}
    → run_timer_list k ≡ some k'
    → deadlines 0 k'.timer_list ≡ tick_deadlines (deadlines 0 k.timer_list)
unfolding run_timer_list
run_timer_list-deadlines k r =
    let (k1, r1, r2) = >>=-eq-some (tick_timers k.timer_list k) _ r in
    ap (λ (x : Kernel). deadlines 0 x.timer_list) (sym (some-injective _ _ r2))
    ∙ ap (deadlines 0) (tick-timer_list k1.current k1)
    ∙ tick_timers-deadlines k.timer_list k refl r1
