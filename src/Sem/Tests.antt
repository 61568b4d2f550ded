-- ===== src/Sem/Tests.antt =====
-- Runs on a semaphore at 100 for which process 5 waits; process 7 runs.
use li_nos.Base.{◌≡◌, refl, arith, true, if◌then◌else◌, ◌==◌}
use li_nos.Wait.Sample.{one_waits, all_ksem, one_waits-IsWaiting}
use li_nos.Sem.{Sems, up, down, try_down}
use li_nos.Sem.Up.{Upped, up-Upped}
use li_nos.Sem.Down.{Downed, down-Downed}

abbrev sems : Sems
sems = record { value = λ q. if q == 200 then 2 else 0; sync = one_waits }

try_down_taken : (try_down 200 sems).0 ≡ true
unfolding try_down
try_down_taken = refl

up-Upped_example : Upped all_ksem 100 sems (up 100 sems)
up-Upped_example = up-Upped all_ksem 100 sems one_waits-IsWaiting refl

down-Downed_example : Downed all_ksem 100 60 sems (down 100 60 sems)
down-Downed_example =
    down-Downed all_ksem 100 60 sems one_waits-IsWaiting refl (λ e. omega arith) refl refl
