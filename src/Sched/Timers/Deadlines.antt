-- ===== src/Sched/Timers/Deadlines.antt =====
-- The timer list as the deadlines that it stands for: each timer's link, process and the number of
-- ticks from now until it expires.
use li_nos.Base.{
  ℕ, ◌+◌, ◌-◌, ◌≤◌, ◌<◌, ◌^◌, ◌≡◌, ◌≢◌, refl, some, All, List, [], ◌∷◌, if◌then◌else◌, ◌==◌, ◌==◌,
  false, ltb, arith,
}
use li_nos.Kernel.{Timer, Kernel}
use li_nos.Sched.Timers.{insert_timer, linked, add_timer, del_timer, remove_timer}

abbrev pub Deadline : Type 0
Deadline = ℕ × ℕ × ℕ

-- From a time `b` on.
abbrev pub deadlines : ℕ → List Timer → List Deadline
deadlines b [] = []
deadlines b (t ∷ ts) = (t.timer_link, t.proc, b + t.expires) ∷ deadlines (b + t.expires) ts

-- Insertion behind the deadlines that are not later.
abbrev pub insert_deadline : Deadline → List Deadline → List Deadline
insert_deadline d [] = d ∷ []
insert_deadline d (e ∷ es) = if ltb d.2 e.2 then d ∷ e ∷ es else e ∷ insert_deadline d es

abbrev pub drop_link : ℕ → List Deadline → List Deadline
drop_link i [] = []
drop_link i (e ∷ es) = if e.0 == i then es else e ∷ drop_link i es

-- Each deadline is at least the one before it.
abbrev pub IsOrdered : ℕ → List Deadline → Type 0
IsOrdered b [] = Unit
IsOrdered b (e ∷ es) = (b ≤ e.2) × IsOrdered e.2 es

insert-deadlines :
    (b : ℕ) (t : Timer) (ts : List Timer)
    → deadlines b (insert_timer t ts)
      ≡ insert_deadline (t.timer_link, t.proc, b + t.expires) (deadlines b ts)
unfolding insert_timer
insert-deadlines b t [] = refl
insert-deadlines b t (n ∷ ns) =
    ground
      (arith, insert-deadlines (b + n.expires) (record t { expires = t.expires - n.expires }) ns)

-- `add_timer` of a timer with a process, a positive time and a link that is in no list returns, and
-- the list then stands for the old deadlines with the new one put behind those not later than it:
-- no other timer's deadline moves.
pub add_timer-deadlines :
    (t : Timer) (k : Kernel)
    → 0 < t.expires
    → t.proc ≢ 0
    → linked t.timer_link k.timer_list ≡ false
    → (k' : Kernel) × (add_timer t k ≡ some k')
      × (deadlines 0 k'.timer_list
          ≡ insert_deadline (t.timer_link, t.proc, t.expires) (deadlines 0 k.timer_list))
unfolding add_timer
add_timer-deadlines t k pos proc out = (
  record k { timer_list = insert_timer t k.timer_list },
  ground arith,
  ground (arith, insert-deadlines 0 t k.timer_list),
)

-- Deadlines that a `uint32_t` counter can reach.
abbrev pub InReach : List Deadline → Type 0
InReach ds = All (λ d. d.2 < 2 ^ 32) ds

remove-deadlines :
    (i b : ℕ) (ts : List Timer)
    → InReach (deadlines b ts)
    → deadlines b (remove_timer i ts) ≡ drop_link i (deadlines b ts)
unfolding remove_timer
remove-deadlines i b [] h = refl
remove-deadlines i b (t ∷ []) h = ground arith
remove-deadlines i b (t ∷ n ∷ ns) h = ground (arith, remove-deadlines i (b + t.expires) (n ∷ ns))

-- `del_timer` takes the timer's deadline out and moves no other one, while deadlines fit 32 bits.
pub del_timer-deadlines :
    (i : ℕ) (k : Kernel)
    → InReach (deadlines 0 k.timer_list)
    → deadlines 0 (del_timer i k).timer_list ≡ drop_link i (deadlines 0 k.timer_list)
unfolding del_timer
del_timer-deadlines i k h = remove-deadlines i 0 k.timer_list h

-- One tick: what is due now goes, the other deadlines come one nearer.
abbrev pub tick_deadlines : List Deadline → List Deadline
tick_deadlines [] = []
tick_deadlines (e ∷ es) =
    if ltb 1 e.2 then (e.0, e.1, e.2 - 1) ∷ tick_deadlines es else tick_deadlines es

-- The timers that are left when those with no time left at the front are gone.
abbrev pub drop_expired : List Timer → List Timer
drop_expired [] = []
drop_expired (t ∷ ts) = let rest = drop_expired ts in if t.expires == 0 then rest else t ∷ ts

pub tick-later :
    (b : ℕ) (ts : List Timer) → 0 < b → tick_deadlines (deadlines (b + 1) ts) ≡ deadlines b ts
tick-later b [] h = refl
tick-later b (t ∷ ts) h = ground (arith, tick-later (b + t.expires) ts)

pub tick-now : (ts : List Timer) → tick_deadlines (deadlines 1 ts) ≡ deadlines 0 (drop_expired ts)
tick-now [] = refl
tick-now (t ∷ ts) = ground (arith, tick-now ts, tick-later t.expires ts)
