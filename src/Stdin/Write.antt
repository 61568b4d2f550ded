-- ===== src/Stdin/Write.antt =====
-- dev_stdin_write of kern/fs/devs/dev_stdin.c.
use li_nos.Base.{
  ℕ, ◌-◌, ◌<◌, true, false, not, ◌≡◌, ◌≢◌, ◌∙◌, refl, sym, subst, List, [], ◌∷◌, length, Option,
  some, ltb, ==_ne,
}
use li_nos.Wait.{Sync, wait_queue_empty, wakeup_queue}
use li_nos.Wait.Waiting.{IsWaiting}
use li_nos.Wait.Empty.{Emptied, wakeup_queue-Emptied, Emptied-nothing}
use li_nos.Stdin.{Stdin, store_byte, wake_readers, dev_stdin_write, wt_kbd}
use li_nos.Stdin.Unread.{unread, stored, IsBounded, unread-store_byte, store_byte-IsBounded}

-- The byte is in the buffer, and nobody waits for it.
abbrev pub Written : (kind : ℕ → ℕ) (c : ℕ) → Stdin → Option Stdin → Type 0
Written kind c s o =
    (s' : Stdin) × (o ≡ some s')
    × IsBounded s'
    × (unread s' ≡ stored c (unread s) (not (ltb (s.p_wpos - s.p_rpos) 4096)))
    × IsWaiting kind s'.sync
    × Emptied s.wait_queue wt_kbd (s.sync.queues s.wait_queue) s.sync s'.sync

is_empty : (q : ℕ) (y : Sync) → y.queues q ≡ [] → wait_queue_empty q y ≡ true
unfolding wait_queue_empty
is_empty q y e = rw (e, wait_queue_empty) refl

is_filled :
    (q : ℕ) (y : Sync) (w : ℕ) (ws : List ℕ) → y.queues q ≡ w ∷ ws → wait_queue_empty q y ≡ false
unfolding wait_queue_empty
is_filled q y w ws e = rw (e, wait_queue_empty) refl

wakes :
    (k : ℕ) (s : Stdin) (w : ℕ) (ws : List ℕ) (y : Sync)
    → s.sync.queues s.wait_queue ≡ w ∷ ws
    → wakeup_queue k s.wait_queue wt_kbd true s.sync ≡ some y
    → wake_readers k s ≡ some (record s { sync = y })
unfolding wake_readers
wakes k s w ws y e r = rw (is_filled s.wait_queue s.sync w ws e, r) refl

nobody : (k : ℕ) (s : Stdin) → s.sync.queues s.wait_queue ≡ [] → wake_readers k s ≡ some s
unfolding wake_readers
nobody k s e = rw (is_empty s.wait_queue s.sync e) refl

writes : (k c : ℕ) (s : Stdin) → c ≢ 0 → dev_stdin_write k c s ≡ wake_readers k (store_byte c s)
unfolding dev_stdin_write
writes k c s n = rw (==_ne c 0 n) refl

stored_runs :
    (kind : ℕ → ℕ) (k : ℕ) (s : Stdin) (l : List ℕ)
    → IsWaiting kind s.sync
    → length (s.sync.queues s.wait_queue) < k
    → s.sync.queues s.wait_queue ≡ l
    → (y : Sync) × (wake_readers k s ≡ some (record s { sync = y }))
      × IsWaiting kind y
      × Emptied s.wait_queue wt_kbd (s.sync.queues s.wait_queue) s.sync y
stored_runs kind k s [] v f e = (
  s.sync,
  nobody k s e,
  v,
  subst (λ l. Emptied s.wait_queue wt_kbd l s.sync s.sync) (sym e)
      (Emptied-nothing s.wait_queue wt_kbd s.sync e),
)
stored_runs kind k s (w ∷ ws) v f e =
    let (y, r, v', x) = wakeup_queue-Emptied kind k s.wait_queue wt_kbd s.sync v f in
    (y, wakes k s w ws y e r, v', x)

-- From a state in which the buffer holds at most as many bytes as it has room for, no process that can
-- run is lost to the scheduler, and those in the queues sleep, each in one place, dev_stdin_write of a
-- byte that is not null, with fuel above the number of processes that wait, returns and keeps that
-- state: the byte stands behind those that are not read yet, or, when the buffer is full, in the place
-- of the oldest of them; every process that waited for input can run, and nobody waits any more.
pub dev_stdin_write-Written :
    (kind : ℕ → ℕ) (k c : ℕ) (s : Stdin)
    → IsBounded s
    → IsWaiting kind s.sync
    → length (s.sync.queues s.wait_queue) < k
    → c ≢ 0
    → Written kind c s (dev_stdin_write k c s)
unfolding store_byte
dev_stdin_write-Written kind k c s b v f n =
    let s1 = store_byte c s in
    let (y, r, v', x) = stored_runs kind k s1 (s.sync.queues s.wait_queue) v f refl in
    (
      record s1 { sync = y },
      writes k c s n ∙ r,
      store_byte-IsBounded c s b,
      unread-store_byte c s b,
      v',
      x,
    )
