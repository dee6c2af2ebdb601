-- ===== src/Samples/Goroutines.antt =====
-- A round of a QuorumExecutor with two acknowledgements, in one order of its goroutines.
use daemonjob.Prelude.{true, ◌≤◌, refl, ◌⊎◌, pos, List, [], ◌∷◌, length, ◌*◌, ◌+◌}
use daemonjob.Quorum.{
  Place, ack_call, ack_count, ack_broadcast, ack_test, ack_waiting, exec_call, exec_test, exec_run,
  advance, System, Step, move, Run, here, next, starting,
}
use daemonjob.Quorum.Invariant.{Guarded, Run-Guarded}
use daemonjob.Quorum.Termination.{Run_bounded}
use daemonjob.Quorum.Rounds.{IsRound}
use daemonjob.Quorum.Progress.{IsDone, Run_progress}

abbrev two_calls : List Place
two_calls = ack_call ∷ exec_call ∷ []

two_calls-IsRound : IsRound (pos 1) two_calls
two_calls-IsRound = record { begun = (refl, (refl, tt)); ackers = refl; executors = refl }

abbrev at_run : System
at_run = record {
  shared = record { locked = true; ack = 1; runs = [] };
  places = ack_waiting ∷ exec_run ∷ [];
}

-- The call of AckAndWait counts and is suspended, and WaitAndExecute is about to run the function.
to_run : Run (pos 1) (starting two_calls) 6 at_run
unfolding advance
to_run =
    next
      (next
        (next
          (next
            (next (next here (move [] (exec_call ∷ []) ack_call refl refl))
              (move [] (exec_call ∷ []) ack_count refl refl))
            (move [] (exec_call ∷ []) ack_broadcast refl refl))
          (move [] (exec_call ∷ []) ack_test refl refl))
        (move (ack_waiting ∷ []) [] exec_call refl refl))
      (move (ack_waiting ∷ []) [] exec_test refl refl)

Run-Guarded_example : Guarded (pos 1) at_run
Run-Guarded_example = Run-Guarded two_calls (refl, (refl, tt)) to_run

Run_bounded_example : 6 ≤ (3 * length two_calls + 6) * length two_calls
Run_bounded_example = Run_bounded to_run

Run_progress_example : ((t : System) × Step (pos 1) at_run t) ⊎ IsDone (pos 1) at_run
Run_progress_example = Run_progress two_calls two_calls-IsRound to_run
