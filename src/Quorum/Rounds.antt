-- ===== src/Quorum/Rounds.antt =====
-- One round: as many calls of AckAndWait as WaitAndExecute waits for, and one call of it.
use daemonjob.Prelude.{
  ℕ, ◌+◌, ◌≤◌, ◌≡◌, refl, sym, ℤ, some, List, [], ◌∷◌, ◌++◌, ◌⊎◌, inl, All, arith,
}
use daemonjob.Quorum.{
  QuorumExecutor, Place, ack_call, ack_count, ack_broadcast, ack_test, ack_waiting, ack_woken,
  ack_unlock, ack_returned, exec_call, exec_test, exec_waiting, exec_woken, exec_run, exec_reset,
  exec_returned, Move, advance, System, after_move, Step, move, Run, here, next, starting,
}
use daemonjob.Quorum.Totals.{total, total_mid, total-after_move, total_zero, total_same}
use daemonjob.Quorum.Invariant.{Guarded, Calls, quota, in_quorum, Run-Guarded}

abbrev pub asks : Place → ℕ
asks ack_call = 1
asks _ = 0

abbrev pub executes : Place → ℕ
executes exec_call = 1
executes _ = 0

abbrev pub uncounted : Place → ℕ
uncounted ack_call = 1
uncounted ack_count = 1
uncounted _ = 0

abbrev pub counted : Place → ℕ
counted ack_broadcast = 1
counted ack_test = 1
counted ack_waiting = 1
counted ack_woken = 1
counted ack_unlock = 1
counted ack_returned = 1
counted _ = 0

-- WaitAndExecute has not run the function.
abbrev pub not_run : Place → ℕ
not_run exec_call = 1
not_run exec_test = 1
not_run exec_waiting = 1
not_run exec_woken = 1
not_run exec_run = 1
not_run _ = 0

abbrev pub resets : Place → ℕ
resets exec_reset = 1
resets _ = 0

abbrev pub unfinished : Place → ℕ
unfinished ack_returned = 0
unfinished exec_returned = 0
unfinished _ = 1

-- Before the function runs, while it has run and the count stands, and after the reset.
abbrev pub Phase : ℕ → QuorumExecutor → List Place → Type 0
Phase quota q ps =
    ((total not_run ps ≡ 1) × (total resets ps ≡ 0) × (q.ack ≡ total counted ps) × (q.runs ≡ []))
    ⊎ (((total not_run ps ≡ 0)
          × (total resets ps ≡ 1)
          × (q.ack ≡ total counted ps)
          × (q.runs ≡ quota ∷ []))
        ⊎ ((total not_run ps ≡ 0)
            × (total resets ps ≡ 0)
            × (q.ack ≡ 0)
            × (total uncounted ps ≡ 0)
            × (q.runs ≡ quota ∷ [])))

pub record Round (max_ack : ℤ) (s : System) : Type 0 where
  pub ackers : total uncounted s.places + total counted s.places ≡ quota max_ack
  pub phase : Phase (quota max_ack) s.shared s.places

module _ (max_ack : ℤ) (q : QuorumExecutor) (l r : List Place) (p : Place) (m : Move)
    (e : advance max_ack q p ≡ some m) where
  ackers_step :
      total uncounted (l ++ p ∷ r) + total counted (l ++ p ∷ r) ≡ quota max_ack
      → total uncounted (after_move l r m).places + total counted (after_move l r m).places
        ≡ quota max_ack
  unfolding advance
  ackers_step h = ground (
    arith,
    total_mid uncounted l r p,
    total_mid counted l r p,
    total-after_move uncounted (λ p. ground arith) l r m,
    total-after_move counted (λ p. ground arith) l r m,
  )

  Step-Phase :
      (total in_quorum (l ++ p ∷ r) ≡ 0) ⊎ (quota max_ack ≤ q.ack)
      → total uncounted (l ++ p ∷ r) + total counted (l ++ p ∷ r) ≡ quota max_ack
      → Phase (quota max_ack) q (l ++ p ∷ r)
      → Phase (quota max_ack) m.shared (after_move l r m).places
  unfolding advance
  Step-Phase g h ph = ground (
    arith,
    total_mid uncounted l r p,
    total_mid counted l r p,
    total_mid not_run l r p,
    total_mid resets l r p,
    total_mid in_quorum l r p,
    total-after_move uncounted (λ p. ground arith) l r m,
    total-after_move counted (λ p. ground arith) l r m,
    total-after_move not_run (λ p. ground arith) l r m,
    total-after_move resets (λ p. ground arith) l r m,
  )

-- The calls of one round, before any of them has begun.
pub record IsRound (max_ack : ℤ) (calls : List Place) : Type 0 where
  pub begun : All Calls calls
  pub ackers : total asks calls ≡ quota max_ack
  pub executors : total executes calls ≡ 1

Step-Round :
    {max_ack : ℤ} {s t : System}
    → Step max_ack s t
    → Guarded max_ack s
    → Round max_ack s
    → Round max_ack t
Step-Round {max_ack} {s} (move l r p {m} at e) g h = record {
  ackers = ackers_step max_ack s.shared l r p m e a;
  phase = Step-Phase max_ack s.shared l r p m e (rw at at g.quorum) a (rw at at h.phase);
}
  where
    a : total uncounted (l ++ p ∷ r) + total counted (l ++ p ∷ r) ≡ quota max_ack
    a = rw at at h.ackers

start-Round :
    (max_ack : ℤ) (calls : List Place) → IsRound max_ack calls → Round max_ack (starting calls)
start-Round max_ack calls h = record {
  ackers = omega (
    arith,
    none_counted,
    h.ackers,
    total_same uncounted asks Calls (λ p c. ground arith) calls h.begun,
  );
  phase = inl (
    omega
        (arith, h.executors, total_same not_run executes Calls (λ p c. ground arith) calls h.begun),
    total_zero resets Calls (λ p c. ground arith) calls h.begun,
    sym none_counted,
    refl,
  );
}
  where
    none_counted : total counted calls ≡ 0
    none_counted = total_zero counted Calls (λ p c. ground arith) calls h.begun

pub Run-Round :
    {max_ack : ℤ} (calls : List Place)
    → IsRound max_ack calls
    → {n : ℕ} {s : System} → Run max_ack (starting calls) n s
    → Round max_ack s
Run-Round {max_ack} calls h here = start-Round max_ack calls h
Run-Round calls h (next run step) =
    Step-Round step (Run-Guarded calls h.begun run) (Run-Round calls h run)
