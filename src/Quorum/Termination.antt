-- ===== src/Quorum/Termination.antt =====
-- The calls of a QuorumExecutor run to an end, or stand still.
use daemonjob.Prelude.{
  ℕ, ◌+◌, ◌*◌, ◌≤◌, ◌≡◌, refl, ap, ℤ, some, List, ◌∷◌, ◌++◌, length, length-append, arith,
}
use daemonjob.Quorum.{
  QuorumExecutor, Place, ack_call, ack_count, ack_broadcast, ack_test, ack_waiting, ack_woken,
  ack_unlock, ack_returned, exec_call, exec_test, exec_waiting, exec_woken, exec_run, exec_reset,
  exec_broadcast, exec_unlock, exec_returned, Move, advance, wake, wake_all, System, after_move,
  move, Run, here, next,
}
use daemonjob.Quorum.Totals.{total, total_mid, total-wake_le, total-le_const, length-wake_all}

-- A bound on the steps left, among `n` goroutines: a Broadcast costs its sender what it gives to the
-- others, three steps at most to each.
abbrev steps_left : ℕ → Place → ℕ
steps_left n ack_call = 3 * n + 5
steps_left n ack_count = 3 * n + 4
steps_left n ack_broadcast = 3 * n + 3
steps_left n ack_test = 2
steps_left n ack_waiting = 0
steps_left n ack_woken = 3
steps_left n ack_unlock = 1
steps_left n ack_returned = 0
steps_left n exec_call = 3 * n + 6
steps_left n exec_test = 3 * n + 5
steps_left n exec_waiting = 3 * n + 4
steps_left n exec_woken = 3 * n + 6
steps_left n exec_run = 3 * n + 4
steps_left n exec_reset = 3 * n + 3
steps_left n exec_broadcast = 3 * n + 2
steps_left n exec_unlock = 1
steps_left n exec_returned = 0

steps_left-wake : (n : ℕ) (p : Place) → steps_left n (wake p) ≤ steps_left n p + 3
steps_left-wake n p = ground arith

length-after_move :
    (l r : List Place) (p : Place) (m : Move)
    → length (after_move l r m).places ≡ length (l ++ p ∷ r)
length-after_move l r p m = omega (
  arith,
  length-append (wake_all m.wakes l) (m.place ∷ wake_all m.wakes r),
  length-append l (p ∷ r),
  length-wake_all m.wakes l,
  length-wake_all m.wakes r,
)

steps_left_step :
    (max_ack : ℤ) (q : QuorumExecutor) (n : ℕ) (l r : List Place) (p : Place) (m : Move)
    → advance max_ack q p ≡ some m
    → length (l ++ p ∷ r) ≡ n
    → total (steps_left n) (after_move l r m).places + 1 ≤ total (steps_left n) (l ++ p ∷ r)
unfolding advance
steps_left_step max_ack q n l r p m e len = ground (
  arith,
  total_mid (steps_left n) l r p,
  length-append l (p ∷ r),
  total_mid (steps_left n) (wake_all m.wakes l) (wake_all m.wakes r) m.place,
  total-wake_le (steps_left n) 3 (steps_left-wake n) m.wakes l,
  total-wake_le (steps_left n) 3 (steps_left-wake n) m.wakes r,
)

module _ {max_ack : ℤ} {s : System} where
  Run-length : {k : ℕ} {t : System} → Run max_ack s k t → length t.places ≡ length s.places
  Run-length here = refl
  Run-length (next {t} run (move l r p {m} at e)) =
      omega (arith, Run-length run, length-after_move l r p m, ap length at)

  Run-steps_left :
      {k : ℕ} {t : System}
      → Run max_ack s k t
      → total (steps_left (length s.places)) t.places + k
        ≤ total (steps_left (length s.places)) s.places
  Run-steps_left here = omega arith
  Run-steps_left (next {s = u} run (move l r p {m} at e)) = omega (
    arith,
    Run-steps_left run,
    ap (total (steps_left (length s.places))) at,
    steps_left_step max_ack u.shared (length s.places) l r p m e
        (omega (arith, Run-length run, ap length at)),
  )

  -- From any state, whatever the order of the goroutines, they make at most `n * (3 * n + 6)` steps,
  -- where `n` is their number.
  pub Run_bounded :
      {k : ℕ} {t : System} → Run max_ack s k t → k ≤ (3 * length s.places + 6) * length s.places
  Run_bounded {t} run = omega (
    arith,
    Run-steps_left run,
    total-le_const (steps_left (length s.places)) (3 * length s.places + 6) (λ p. ground arith)
        s.places,
  )
