-- ===== src/Wait/Tests.antt =====
-- Runs on the sample state of wait queues.
use li_nos.Base.{◌≡◌, refl, arith, true, some, none, [], ◌∷◌}
use li_nos.Kernel.{wt_ksem}
use li_nos.Wait.{Sync, wakeup_queue, wait_queue_next}
use li_nos.Wait.Waiting.{IsWaiting}
use li_nos.Wait.Sample.{one_waits, all_ksem, one_waits-IsWaiting}
use li_nos.Wait.Empty.{Emptied, wakeup_queue-Emptied}

wait_queue_next_last : wait_queue_next 100 50 one_waits ≡ some none
unfolding wait_queue_next
wait_queue_next_last = refl

wakeup_queue-Emptied_example :
    (s' : Sync) × (wakeup_queue 2 100 wt_ksem true one_waits ≡ some s')
    × IsWaiting all_ksem s'
    × Emptied 100 wt_ksem (50 ∷ []) one_waits s'
wakeup_queue-Emptied_example =
    wakeup_queue-Emptied all_ksem 2 100 wt_ksem one_waits one_waits-IsWaiting (omega arith)
