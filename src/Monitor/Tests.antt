-- ===== src/Monitor/Tests.antt =====
-- A monitor whose condition variable is at 100, where process 5 waits; process 7 runs.
use li_nos.Base.{refl, arith, if◌then◌else◌, ◌==◌}
use li_nos.Wait.Sample.{one_waits, all_ksem, one_waits-IsWaiting}
use li_nos.Monitor.{Monitor, cond_wait}
use li_nos.Monitor.CondWait.{CondWaited, cond_wait-CondWaited}

abbrev one_monitor : Monitor
one_monitor = record {
  mutex = 200;
  next = 300;
  next_count = 0;
  count = λ c. if c == 100 then 1 else 0;
  sems = record { value = λ q. 0; sync = one_waits };
}

cond_wait-CondWaited_example : CondWaited all_ksem 100 60 one_monitor (cond_wait 100 60 one_monitor)
cond_wait-CondWaited_example =
    cond_wait-CondWaited all_ksem 100 60 one_monitor one_waits-IsWaiting refl refl
      (λ e. omega arith) refl ((λ e. omega arith), refl, refl)
