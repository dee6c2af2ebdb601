-- ===== src/Quorum.antt =====
-- internal/util/cond.go: a QuorumExecutor that several goroutines share. Its sync.Cond is a lock
-- and the goroutines suspended in Wait, which only a Broadcast wakes; between two steps of one
-- goroutine any other may move. `ack` is left unbounded: it never passes the number of goroutines.
pub mod Totals
pub mod Invariant
pub mod Termination
pub mod Rounds
pub mod Progress
use daemonjob.Prelude.{
  ℕ, suc, ◌+◌, ◌≡◌, ℤ, pos, negsuc, Bool, true, false, Option, none, some, List, [], ◌∷◌, ◌++◌, ltb,
  map, if◌then◌else◌,
}

-- What the goroutines share; `runs` has one entry for each run of the function: the
-- acknowledgements that it found.
pub record QuorumExecutor : Type 0 where
  pub locked : Bool
  pub ack : ℕ
  pub runs : List ℕ

-- NewQuorumExecutor
abbrev pub new_quorum_executor : QuorumExecutor
new_quorum_executor = record { locked = false; ack = 0; runs = [] }

-- Where a goroutine stands in its call: of AckAndWait, then of WaitAndExecute. The place names the
-- statement that it executes next; `waiting` is suspended in Wait and `woken` is to lock again.
pub data Place : Type 0 where
  ack_call ack_count ack_broadcast ack_test ack_waiting ack_woken ack_unlock ack_returned : Place
  exec_call exec_test exec_waiting exec_woken exec_run exec_reset exec_broadcast : Place
  exec_unlock exec_returned : Place

-- One step: what is shared and the place after it, and whether it was a Broadcast.
pub record Move : Type 0 where
  pub shared : QuorumExecutor
  pub place : Place
  pub wakes : Bool

abbrev moved : QuorumExecutor → Place → Option Move
moved q p = some (record { shared = q; place = p; wakes = false })

-- c.cond.L.Lock(), which waits while another goroutine holds the lock
abbrev lock : QuorumExecutor → Place → Option Move
lock q p = if q.locked then none else moved (record q { locked = true }) p

-- c.cond.L.Unlock(), also as the first half of Wait
abbrev unlock : QuorumExecutor → Place → Option Move
unlock q p = moved (record q { locked = false }) p

abbrev broadcast : QuorumExecutor → Place → Option Move
broadcast q p = some (record { shared = q; place = p; wakes = true })

-- c.ack < c.maxAck
abbrev pub below : ℕ → ℤ → Bool
below ack (pos n) = ltb ack n
below ack (negsuc n) = false

-- The next step of a goroutine at a place, if it is not blocked and has not returned.
unfoldable pub advance : (max_ack : ℤ) → QuorumExecutor → Place → Option Move
advance max_ack q ack_call = lock q ack_count
advance max_ack q ack_count = moved (record q { ack = q.ack + 1 }) ack_broadcast
advance max_ack q ack_broadcast = broadcast q ack_test
advance max_ack q ack_test = if ltb 0 q.ack then unlock q ack_waiting else moved q ack_unlock
advance max_ack q ack_waiting = none
advance max_ack q ack_woken = lock q ack_test
advance max_ack q ack_unlock = unlock q ack_returned
advance max_ack q ack_returned = none
advance max_ack q exec_call = lock q exec_test
advance max_ack q exec_test =
    if below q.ack max_ack then unlock q exec_waiting else moved q exec_run
advance max_ack q exec_waiting = none
advance max_ack q exec_woken = lock q exec_test
advance max_ack q exec_run = moved (record q { runs = q.ack ∷ q.runs }) exec_reset
advance max_ack q exec_reset = moved (record q { ack = 0 }) exec_broadcast
advance max_ack q exec_broadcast = broadcast q exec_unlock
advance max_ack q exec_unlock = unlock q exec_returned
advance max_ack q exec_returned = none

abbrev pub wake : Place → Place
wake ack_waiting = ack_woken
wake exec_waiting = exec_woken
wake p = p

abbrev pub wake_all : Bool → List Place → List Place
wake_all false ps = ps
wake_all true ps = map wake ps

pub record System : Type 0 where
  pub shared : QuorumExecutor
  pub places : List Place

abbrev pub after_move : List Place → List Place → Move → System
after_move before after m = record {
  shared = m.shared;
  places = wake_all m.wakes before ++ m.place ∷ wake_all m.wakes after;
}

-- One of the goroutines makes its next step.
pub data Step (max_ack : ℤ) (s : System) : System → Type 0 where
  move :
      (before after : List Place) (p : Place) {m : Move}
      → s.places ≡ before ++ p ∷ after
      → advance max_ack s.shared p ≡ some m
      → Step max_ack s (after_move before after m)

-- A run of so many steps, in any order of the goroutines.
pub data Run (max_ack : ℤ) (start : System) : ℕ → System → Type 0 where
  here : Run max_ack start 0 start
  next :
      {n : ℕ} {s t : System}
      → Run max_ack start n s
      → Step max_ack s t
      → Run max_ack start (suc n) t

-- A goroutine that has not begun its call.
abbrev pub is_call : Place → Bool
is_call ack_call = true
is_call exec_call = true
is_call _ = false

abbrev pub starting : List Place → System
starting calls = record { shared = new_quorum_executor; places = calls }
