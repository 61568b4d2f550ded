-- ===== src/Stdin.antt =====
-- kern/fs/devs/dev_stdin.c: the buffer of the keyboard, and the processes that wait for it. The
-- positions are below 2^31. A read is cut where the process goes to sleep.
pub mod Unread
pub mod Write
pub mod Read
mod Tests
use li_nos.Base.{
  ℕ, zero, suc, ◌+◌, ◌-◌, ◌%◌, Bool, true, false, not, Option, none, some, List, [], ◌∷◌,
  if◌then◌else◌, ◌==◌, ltb, update, ◌>>=◌,
}
use li_nos.Sched.{schedule}
use li_nos.Wait.{Sync, wait_queue_empty, wakeup_queue, wait_current_set, wait_current_del}

abbrev pub stdin_bufsize : ℕ
stdin_bufsize = 4096

abbrev pub wt_kbd : ℕ
wt_kbd = 0x80000004

-- `wait_queue` is the address of the queue.
pub record Stdin : Type 0 where
  pub stdin_buffer : ℕ → ℕ
  pub p_rpos : ℕ
  pub p_wpos : ℕ
  pub wait_queue : ℕ
  pub sync : Sync

-- The byte goes into the buffer, and the position moves on if there is room.
pub store_byte : ℕ → Stdin → Stdin
store_byte c s = record s {
  stdin_buffer = update s.stdin_buffer (s.p_wpos % stdin_bufsize) c;
  p_wpos = if ltb (s.p_wpos - s.p_rpos) stdin_bufsize then s.p_wpos + 1 else s.p_wpos;
}

-- The fuel is that of wakeup_queue.
pub wake_readers : (fuel : ℕ) → Stdin → Option Stdin
wake_readers k s =
    let woken =
      wakeup_queue k s.wait_queue wt_kbd true s.sync >>= λ y. some (record s { sync = y }) in
    if not (wait_queue_empty s.wait_queue s.sync) then woken else some s

pub dev_stdin_write : (fuel c : ℕ) → Stdin → Option Stdin
dev_stdin_write k c s =
    let rest = wake_readers k (store_byte c s) in if not (c == 0) then rest else some s

-- The loop of dev_stdin_read until `len` bytes are there or none is left: the bytes.
pub read_bytes : (len : ℕ) → Stdin → List ℕ × Stdin
read_bytes zero s = ([], s)
read_bytes (suc n) s =
    let rest = read_bytes n (record s { p_rpos = s.p_rpos + 1 }) in
    if ltb s.p_rpos s.p_wpos
    then (s.stdin_buffer (s.p_rpos % stdin_bufsize) ∷ rest.0, rest.1)
    else ([], s)

-- The process waits with the wait_t at `w`, and another is switched to.
pub read_wait : (w : ℕ) → Stdin → Option Stdin
read_wait w s = wait_current_set s.wait_queue w wt_kbd s.sync >>= λ y.
    schedule y.kernel >>= λ k. some (record s { sync = record y { kernel = k } })

-- The process runs again: whether it tries again, which it does when a byte has come.
pub read_again : (w : ℕ) → Stdin → Option (Bool × Stdin)
read_again w s = wait_current_del s.wait_queue w s.sync >>= λ y.
    some ((y.waits w).wakeup_flags == wt_kbd, record s { sync = y })
