-- ===== src/Quorum/Progress.antt =====
-- No lost wakeup: a round never stands still before all its calls have returned.
use daemonjob.Prelude.{
  ℕ, ◌+◌, ◌≤◌, ◌≡◌, refl, ap, ℤ, false, none, some, List, [], ◌∷◌, ◌++◌, ◌⊎◌, inl, inr, All, arith,
  Option-cases,
}
use daemonjob.Quorum.{
  QuorumExecutor, Place, Move, advance, System, after_move, Step, move, Run, starting,
}
use daemonjob.Quorum.Totals.{total, total_zero, total_le_sum, total_le_where, total_le}
use daemonjob.Quorum.Invariant.{
  Guarded, quota, holds, waits_ack, waits_exec, signals_ack, signals_exec, Run-Guarded,
}
use daemonjob.Quorum.Rounds.{IsRound, Round, Run-Round, uncounted, not_run, resets, unfinished}

abbrev Stuck : ℤ → QuorumExecutor → Place → Type 0
Stuck max_ack q p = advance max_ack q p ≡ none

record Mover (max_ack : ℤ) (q : QuorumExecutor) (ps : List Place) : Type 0 where
  before : List Place
  after : List Place
  place : Place
  made : Move
  splits : ps ≡ before ++ place ∷ after
  moves : advance max_ack q place ≡ some made

module _ (max_ack : ℤ) (q : QuorumExecutor) where
  next_move : (ps : List Place) → Mover max_ack q ps ⊎ All (Stuck max_ack q) ps
  next_move [] = inr tt
  next_move (p ∷ ps) = elim (Option-cases (advance max_ack q p)) [
    | inr (m, e) ↦
        inl (record { before = []; after = ps; place = p; made = m; splits = refl; moves = e })
    | inl stuck ↦ elim (next_move ps) [
      | inl f ↦ inl (record {
        before = p ∷ f.before;
        after = f.after;
        place = f.place;
        made = f.made;
        splits = ap (◌∷◌ p) f.splits;
        moves = f.moves;
      })
      | inr rest ↦ inr (stuck, rest)
    ]
  ]

  Stuck-holds : (p : Place) → Stuck max_ack q p → holds p ≡ 0
  unfolding advance
  Stuck-holds p h = ground arith

  Stuck-signals : (p : Place) → Stuck max_ack q p → signals_ack p + signals_exec p ≡ 0
  unfolding advance
  Stuck-signals p h = ground arith

  module _ (free : q.locked ≡ false) where
    Stuck-unfinished : (p : Place) → Stuck max_ack q p → unfinished p ≤ waits_ack p + waits_exec p
    unfolding advance
    Stuck-unfinished p h = ground arith

    Stuck-uncounted : (p : Place) → Stuck max_ack q p → uncounted p ≡ 0
    unfolding advance
    Stuck-uncounted p h = ground arith

    Stuck-not_run : (p : Place) → Stuck max_ack q p → not_run p ≤ waits_exec p
    unfolding advance
    Stuck-not_run p h = ground arith

-- All calls have returned, and the function ran once, with the acknowledgements of the round.
pub record IsDone (max_ack : ℤ) (s : System) : Type 0 where
  pub finished : total unfinished s.places ≡ 0
  pub ran_once : s.shared.runs ≡ quota max_ack ∷ []

module _ {max_ack : ℤ} {s : System} (g : Guarded max_ack s) (h : Round max_ack s)
    (stuck : All (Stuck max_ack s.shared) s.places) where
  none_holds : total holds s.places ≡ 0
  none_holds =
      total_zero holds (Stuck max_ack s.shared) (Stuck-holds max_ack s.shared) s.places stuck

  free : s.shared.locked ≡ false
  free = ground (arith, g.exclusive, none_holds)

  no_signals : total signals_ack s.places + total signals_exec s.places ≡ 0
  no_signals = omega (
    arith,
    none_holds,
    total_le signals_ack holds (λ p. ground arith) s.places,
    total_le signals_exec holds (λ p. ground arith) s.places,
  )

  all_counted : total uncounted s.places ≡ 0
  all_counted =
      total_zero uncounted (Stuck max_ack s.shared) (Stuck-uncounted max_ack s.shared free) s.places
        stuck

  not_run_waits : total not_run s.places ≤ total waits_exec s.places
  not_run_waits =
      total_le_where not_run waits_exec (Stuck max_ack s.shared)
        (Stuck-not_run max_ack s.shared free) s.places stuck

  unfinished_waits :
      total unfinished s.places ≤ total waits_ack s.places + total waits_exec s.places
  unfinished_waits =
      total_le_sum unfinished waits_ack waits_exec (Stuck max_ack s.shared)
        (Stuck-unfinished max_ack s.shared free) s.places stuck

  Stuck-IsDone : IsDone max_ack s
  Stuck-IsDone = elim h.phase [
    | inl before ↦
        absurd
          (ground (arith, before, h.ackers, g.execs_wait, all_counted, not_run_waits, no_signals))
    | inr (inl (_, standing, _, _)) ↦
        absurd
          (omega (arith, standing, none_holds, total_le resets holds (λ p. ground arith) s.places))
    | inr (inr (a, _, z, _, ran)) ↦ record {
      finished = ground (
        arith,
        a,
        z,
        g.acks_wait,
        unfinished_waits,
        no_signals,
        total_le waits_exec not_run (λ p. ground arith) s.places,
      );
      ran_once = ran;
    }
  ]

-- With one call of WaitAndExecute and exactly as many calls of AckAndWait as it waits for, begun in
-- any order: after any number of steps, either some goroutine can make a step, or all calls have
-- returned and the function ran once, having found all the acknowledgements.
pub Run_progress :
    {max_ack : ℤ} (calls : List Place)
    → IsRound max_ack calls
    → {n : ℕ} {s : System} → Run max_ack (starting calls) n s
    → ((t : System) × Step max_ack s t) ⊎ IsDone max_ack s
Run_progress {max_ack} calls h {s} run = elim (next_move max_ack s.shared s.places) [
  | inl f ↦ inl (after_move f.before f.after f.made, move f.before f.after f.place f.splits f.moves)
  | inr stuck ↦ inr (Stuck-IsDone (Run-Guarded calls h.begun run) (Run-Round calls h run) stuck)
]
