-- ===== src/Wait.antt =====
-- kern/sync/wait.c. A wait_t and a wait_queue_t are named by their addresses; the entries of a queue
-- stand in the order of its list. Every call runs with interrupts off, so it is one step. `none` is a
-- failed `assert`.
pub mod Waiting
pub mod Wake
pub mod Empty
pub mod Sample
mod Tests
use li_nos.Base.{
  ℕ, zero, suc, Bool, true, false, not, ◌&&◌, Option, none, some, List, [], ◌∷◌, ◌++◌,
  if◌then◌else◌, ◌==◌, update, erase, assert, ◌>>=◌, ◌>>◌,
}
use li_nos.Kernel.{sleeping, Kernel, set_proc, first_entry, wt_interrupted}
use li_nos.Sched.{wakeup_proc}

-- `is_linked` tells whether `wait_link` is in a list.
pub record Wait : Type 0 where
  pub proc : ℕ
  pub wakeup_flags : ℕ
  pub wait_queue : ℕ
  pub is_linked : Bool

pub record Sync : Type 0 where
  pub waits : ℕ → Wait
  pub queues : ℕ → List ℕ
  pub kernel : Kernel

abbrev pub set_wait : ℕ → Wait → Sync → Sync
set_wait w x s = record s { waits = update s.waits w x }

unfoldable pub wait_init : (w p : ℕ) → Sync → Sync
wait_init w p s =
    set_wait w (record (s.waits w) { proc = p; wakeup_flags = wt_interrupted; is_linked = false }) s

pub wait_queue_init : ℕ → Sync → Sync
wait_queue_init q s = record s { queues = update s.queues q [] }

unfoldable pub wait_queue_add : (q w : ℕ) → Sync → Option Sync
wait_queue_add q w s =
    let x = s.waits w in
    assert (not x.is_linked && not (x.proc == 0))
    >> some (record s {
      waits = update s.waits w (record x { wait_queue = q; is_linked = true });
      queues = update s.queues q (s.queues q ++ w ∷ []);
    })

unfoldable pub wait_queue_del : (q w : ℕ) → Sync → Option Sync
wait_queue_del q w s =
    let x = s.waits w in
    assert (x.is_linked && x.wait_queue == q)
    >> some (record s {
      waits = update s.waits w (record x { is_linked = false });
      queues = update s.queues q (erase w (s.queues q));
    })

-- The entry behind one in a list.
abbrev pub behind : ℕ → List ℕ → Option ℕ
behind w [] = none
behind w (x ∷ xs) = if w == x then first_entry xs else behind w xs

abbrev last_entry : List ℕ → Option ℕ
last_entry [] = none
last_entry (x ∷ []) = some x
last_entry (x ∷ y ∷ ys) = last_entry (y ∷ ys)

-- The entry before one in a list.
abbrev before : ℕ → List ℕ → Option ℕ
before w [] = none
before w (x ∷ []) = none
before w (x ∷ y ∷ ys) = if w == y then some x else before w (y ∷ ys)

pub wait_queue_next : (q w : ℕ) → Sync → Option (Option ℕ)
wait_queue_next q w s =
    assert ((s.waits w).is_linked && (s.waits w).wait_queue == q) >> some (behind w (s.queues q))

pub wait_queue_prev : (q w : ℕ) → Sync → Option (Option ℕ)
wait_queue_prev q w s =
    assert ((s.waits w).is_linked && (s.waits w).wait_queue == q) >> some (before w (s.queues q))

abbrev pub wait_queue_first : ℕ → Sync → Option ℕ
wait_queue_first q s = first_entry (s.queues q)

pub wait_queue_last : ℕ → Sync → Option ℕ
wait_queue_last q s = last_entry (s.queues q)

unfoldable pub wait_queue_empty : ℕ → Sync → Bool
wait_queue_empty q s = elim (s.queues q) [ [] ↦ true | _ ∷ _ ↦ false ]

unfoldable pub wait_in_queue : ℕ → Sync → Bool
wait_in_queue w s = (s.waits w).is_linked

-- `wait->wakeup_flags = wakeup_flags; wakeup_proc(wait->proc);`
pub wake : (w wakeup_flags : ℕ) → Sync → Option Sync
wake w flags s =
    let s' = set_wait w (record (s.waits w) { wakeup_flags = flags }) s in
    wakeup_proc (s.waits w).proc s.kernel >>= λ k. some (record s' { kernel = k })

unfoldable pub wakeup_wait : (q w wakeup_flags : ℕ) (del : Bool) → Sync → Option Sync
wakeup_wait q w flags del s =
    (if del then wait_queue_del q w s else some s) >>= λ s'. wake w flags s'

pub wakeup_first : (q wakeup_flags : ℕ) (del : Bool) → Sync → Option Sync
wakeup_first q flags del s = elim (wait_queue_first q s) [
  | none ↦ some s
  | some w ↦ wakeup_wait q w flags del s
]

-- The loop with `del`. The fuel is for one round for each entry and the last test; `none` is also that
-- it ran out.
unfoldable pub wakeup_all : (fuel q wakeup_flags : ℕ) → Sync → Option Sync
wakeup_all zero q flags s = none
wakeup_all (suc k) q flags s = elim (wait_queue_first q s) [
  | none ↦ some s
  | some w ↦ wakeup_wait q w flags true s >>= λ s'. wakeup_all k q flags s'
]

-- The loop without `del`, from an entry on.
pub wakeup_each : (fuel q w wakeup_flags : ℕ) → Sync → Option Sync
wakeup_each zero q w flags s = none
wakeup_each (suc k) q w flags s = wakeup_wait q w flags false s >>= λ s'.
    wait_queue_next q w s' >>= λ o. elim o [
      | none ↦ some s'
      | some w' ↦ wakeup_each k q w' flags s'
    ]

pub wakeup_queue : (fuel q wakeup_flags : ℕ) (del : Bool) → Sync → Option Sync
wakeup_queue k q flags del s = elim (wait_queue_first q s) [
  | none ↦ some s
  | some w ↦ if del then wakeup_all k q flags s else wakeup_each k q w flags s
]

unfoldable pub wait_current_set : (q w wait_state : ℕ) → Sync → Option Sync
unfolding wait_init
wait_current_set q w wait_state s =
    let c = s.kernel.current in
    let s1 = wait_init w c s in
    let x = record (s.kernel.procs c) { state = sleeping; wait_state = wait_state } in
    assert (not (c == 0)) >> wait_queue_add q w (record s1 { kernel = set_proc c x s.kernel })

-- The macro of kern/sync/wait.h.
unfoldable pub wait_current_del : (q w : ℕ) → Sync → Option Sync
wait_current_del q w s = if wait_in_queue w s then wait_queue_del q w s else some s
