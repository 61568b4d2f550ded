-- ===== src/Sched/Tests.antt =====
-- The scheduler at a small kernel: the idle process 1, the running process 2, and the processes 3 and 4
-- that wait; the theorems applied there.
use li_nos.Base.{ℕ, ◌≡◌, ◌≢◌, ◌⊎◌, refl, inl, inr, true, false, some, [], ◌∷◌, arith, update, ◌<◌}
use native.Mathlib.Decide.{ℕ_discrete}
use li_nos.SkewHeap.{leaf}
use li_nos.Kernel.{runnable, sleeping, Proc, Kernel, rr_sched, stride_sched, Timer}
use li_nos.Class.{class_enqueue, sched_class_enqueue, sched_class_proc_tick, class_proc_tick}
use li_nos.Class.Rr.{rr_enqueue, rr_push, rr_proc_tick}
use li_nos.Sched.{wakeup_proc, schedule, run_timer_list, tick_timers, run_expired}
use li_nos.Sched.Timers.{add_timer, del_timer, remove_timer}
use li_nos.Sched.Timers.Deadlines.{deadlines, add_timer-deadlines}
use li_nos.Sched.Tick.{run_timer_list-deadlines}
use li_nos.Sched.Invariant.{IsSched}
use li_nos.Sched.Wakeup.{wakeup-IsSched}
use li_nos.Sched.Schedule.{Chosen, schedule-IsSched}
use li_nos.Sched.Fairness.{start, switch, round_robin_fair}
use li_nos.Sched.Window.{Within}
use li_nos.Sched.Striding.{Striding, inited, queued, Turned, stride_pick_next-Turned}
use li_nos.SkewHeap.Items.{count}
use li_nos.SkewHeap.{skew_heap_insert, skew_heap_merge, skew_heap_init}
use li_nos.Class.Stride.{stride_init, stride_enqueue, proc_stride_comp_f}

abbrev asleep : Proc
asleep = record {
  state = sleeping;
  runs = 0;
  need_resched = false;
  wait_state = 0x80000002;
  rq = false;
  time_slice = 0;
  stride = 0;
  priority = 0;
}

abbrev waiting : Proc
waiting = record asleep { state = runnable; wait_state = 0; rq = true; stride = 10; priority = 2 }

abbrev table : ℕ → Proc
table =
    update (update (update (λ _. asleep) 2 (record waiting { rq = false })) 3 waiting) 4
      (record waiting { stride = 20 })

abbrev kernel : Kernel
kernel = record {
  procs = table;
  current = 2;
  idleproc = 1;
  sched_class = rr_sched;
  rq = record { run_list = 3 ∷ 4 ∷ []; proc_num = 2; max_time_slice = 5; lab6_run_pool = leaf };
  timer_list =
      record { timer_link = 50; expires = 1; proc = 5 }
      ∷ record { timer_link = 60; expires = 3; proc = 6 }
      ∷ [];
}

-- The process table at any address.
table-runnable : (p : ℕ) → (table p).state ≡ runnable → p ≢ 2 → (p ≡ 3) ⊎ (p ≡ 4)
table-runnable p r ne = elim (ℕ_discrete p 3) [
  | yes e ↦ inl e
  | no n3 ↦ elim (ℕ_discrete p 4) [ yes e ↦ inr e | no n4 ↦ absurd (other n3 n4) ]
]
  where
    other : p ≢ 3 → p ≢ 4 → ⊥
    other a b = ground arith

kernel-IsSched : IsSched kernel
kernel-IsSched = record {
  waiting = record {
    once = λ p. ground arith;
    idle_out = refl;
    ready = λ p h. ground arith;
    none_lost =
        λ p r x i. elim (table-runnable p r x) [ inl e ↦ ground arith | inr e ↦ ground arith ];
  };
  current_out = refl;
}

wakeup-IsSched_example :
    (k' : Kernel) × (wakeup_proc 5 kernel ≡ some k') × IsSched k' × ((k'.procs 5).state ≡ runnable)
wakeup-IsSched_example = wakeup-IsSched 5 kernel kernel-IsSched (λ e. cc)

schedule-IsSched_example :
    (k' : Kernel) × (schedule kernel ≡ some k') × IsSched k' × Chosen kernel k'.current
schedule-IsSched_example = schedule-IsSched kernel kernel-IsSched

-- The first switch is to 3, the second one to 4.
first_switch : (k' : Kernel) × (schedule kernel ≡ some k') × IsSched k' × Chosen kernel k'.current
first_switch = schedule-IsSched kernel kernel-IsSched

second_switch :
    (k' : Kernel) × (schedule first_switch.0 ≡ some k')
    × IsSched k'
    × Chosen first_switch.0 k'.current
second_switch = schedule-IsSched first_switch.0 first_switch.2

round_robin_fair_example : second_switch.0.current ≡ 4
round_robin_fair_example =
    round_robin_fair 4 (3 ∷ []) [] refl refl (switch start first_switch.1) second_switch.1

abbrev nap : Timer
nap = record { timer_link = 70; expires = 2; proc = 2 }

add_timer-deadlines_example :
    (k' : Kernel) × (add_timer nap kernel ≡ some k')
    × (deadlines 0 k'.timer_list ≡ (50, 5, 1) ∷ (70, 2, 2) ∷ (60, 6, 4) ∷ [])
add_timer-deadlines_example = add_timer-deadlines nap kernel (omega arith) (omega arith) refl

-- Process 5 wakes up at the tick.
ticked : (k' : Kernel) × (run_timer_list kernel ≡ some k')
unfolding run_timer_list tick_timers run_expired wakeup_proc del_timer remove_timer
    sched_class_enqueue class_enqueue rr_enqueue rr_push sched_class_proc_tick class_proc_tick
    rr_proc_tick
ticked = (_, refl)

run_timer_list-deadlines_example : deadlines 0 ticked.0.timer_list ≡ (60, 6, 3) ∷ []
run_timer_list-deadlines_example = run_timer_list-deadlines kernel ticked.1

-- Processes 3 and 4 queued in the stride class, with the strides 10 and 20.
abbrev no_stride : Kernel
no_stride = record kernel { sched_class = stride_sched; rq = stride_init kernel.rq }

abbrev one_stride : Kernel
one_stride = stride_enqueue 3 no_stride

abbrev two_strides : Kernel
two_strides = stride_enqueue 4 one_stride

none_out : count 3 no_stride.rq.lab6_run_pool ≡ 0
unfolding stride_init
none_out = refl

four_out : count 4 one_stride.rq.lab6_run_pool ≡ 0
unfolding stride_init stride_enqueue skew_heap_insert skew_heap_merge skew_heap_init
four_out = refl

four_near : Within 10 (one_stride.procs 4).stride
unfolding stride_enqueue
four_near = omega arith

four_in : 0 < count 4 two_strides.rq.lab6_run_pool
unfolding stride_init stride_enqueue skew_heap_insert skew_heap_merge skew_heap_init
    proc_stride_comp_f
four_in = omega arith

two-Striding : Striding 10 two_strides
two-Striding =
    queued 10 4 one_stride
      (queued 10 3 no_stride
        (inited 10 (record kernel { sched_class = stride_sched }) (omega arith)) none_out
        (omega arith))
      four_out four_near

stride_pick_next-Turned_example : (p : ℕ) × Turned 10 p two_strides
stride_pick_next-Turned_example = stride_pick_next-Turned 10 4 two_strides two-Striding four_in
