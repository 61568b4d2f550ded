-- ===== src/Sched/Timers.antt =====
-- The timer list of kern/schedule/sched.c: each timer stores the ticks that it expires after the one
-- before it.
pub mod Deadlines
use li_nos.Base.{
  ℕ, ◌-◌, Bool, false, not, ◌&&◌, ◌||◌, Option, List, [], ◌∷◌, if◌then◌else◌, ◌==◌, ltb, assert,
  ◌>>◌, some,
}
use li_nos.Kernel.{Kernel, Timer, add32}

abbrev pub linked : ℕ → List Timer → Bool
linked i [] = false
linked i (t ∷ ts) = (i == t.timer_link) || linked i ts

-- The loop of `add_timer`, with the insertion that follows it.
unfoldable pub insert_timer : Timer → List Timer → List Timer
insert_timer t [] = t ∷ []
insert_timer t (n ∷ ns) =
    let before = t ∷ record n { expires = n.expires - t.expires } ∷ ns in
    let behind = n ∷ insert_timer (record t { expires = t.expires - n.expires }) ns in
    if ltb t.expires n.expires then before else behind

unfoldable pub add_timer : Timer → Kernel → Option Kernel
unfolding insert_timer
add_timer t k =
    assert (ltb 0 t.expires && not (t.proc == 0))
    >> (assert (not (linked t.timer_link k.timer_list))
        >> some (record k { timer_list = insert_timer t k.timer_list }))

-- `next->expires += timer->expires`, if there is a next timer
abbrev pub delay_next : ℕ → List Timer → List Timer
delay_next e [] = []
delay_next e (n ∷ ns) = record n { expires = add32 n.expires e } ∷ ns

unfoldable pub remove_timer : ℕ → List Timer → List Timer
remove_timer i [] = []
remove_timer i (t ∷ ts) =
    let rest = t ∷ remove_timer i ts in
    if t.timer_link == i then (if t.expires == 0 then ts else delay_next t.expires ts) else rest

-- A timer that is in no list has a `timer_link` that is empty: nothing happens.
unfoldable pub del_timer : ℕ → Kernel → Kernel
unfolding remove_timer
del_timer i k = record k { timer_list = remove_timer i k.timer_list }
