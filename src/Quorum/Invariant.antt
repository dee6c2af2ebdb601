-- ===== src/Quorum/Invariant.antt =====
-- What holds between any two steps, for any goroutines and any order of their steps.
use daemonjob.Prelude.{
  ℕ, ◌≤◌, ◌<◌, ◌≡◌, refl, ℤ, pos, negsuc, Bool, true, false, some, List, ◌∷◌, ◌++◌, ◌⊎◌, inl, ltb,
  All, arith,
}
use daemonjob.Quorum.{
  QuorumExecutor, Place, ack_count, ack_broadcast, ack_test, ack_waiting, ack_woken, ack_unlock,
  exec_test, exec_waiting, exec_run, exec_reset, exec_broadcast, exec_unlock, Move, advance, below,
  wake, wake_all, System, after_move, Step, move, Run, here, next, is_call, starting,
}
use daemonjob.Quorum.Totals.{
  total, total_mid, total_le, total_zero, total-after_move, total-wake_none,
}

abbrev pub bit : Bool → ℕ
bit true = 1
bit false = 0

-- The acknowledgements that WaitAndExecute waits for.
abbrev pub quota : ℤ → ℕ
quota (pos n) = n
quota (negsuc n) = 0

-- A goroutine between its Lock and its Unlock.
abbrev pub holds : Place → ℕ
holds ack_count = 1
holds ack_broadcast = 1
holds ack_test = 1
holds ack_unlock = 1
holds exec_test = 1
holds exec_run = 1
holds exec_reset = 1
holds exec_broadcast = 1
holds exec_unlock = 1
holds _ = 0

holds-wake : (p : Place) → holds (wake p) ≡ holds p
holds-wake p = ground arith

abbrev pub waits_ack : Place → ℕ
waits_ack ack_waiting = 1
waits_ack _ = 0

abbrev pub waits_exec : Place → ℕ
waits_exec exec_waiting = 1
waits_exec _ = 0

abbrev pub signals_ack : Place → ℕ
signals_ack ack_broadcast = 1
signals_ack _ = 0

abbrev pub signals_exec : Place → ℕ
signals_exec exec_broadcast = 1
signals_exec _ = 0

-- The loop of WaitAndExecute has ended, and the count is not reset yet.
abbrev pub in_quorum : Place → ℕ
in_quorum exec_run = 1
in_quorum exec_reset = 1
in_quorum _ = 0

-- AckAndWait has counted, and its loop has not ended.
abbrev pub acked : Place → ℕ
acked ack_broadcast = 1
acked ack_test = 1
acked ack_waiting = 1
acked ack_woken = 1
acked _ = 0

-- Between two steps: who holds the lock is alone; past the loop of WaitAndExecute the quorum is
-- there, and every run of the function found it; the count is bounded by the goroutines that
-- acknowledged; and whoever is suspended has a reason to be, or a Broadcast is about to come.
pub record Guarded (max_ack : ℤ) (s : System) : Type 0 where
  pub exclusive : total holds s.places ≡ bit s.shared.locked
  pub quorum : (total in_quorum s.places ≡ 0) ⊎ (quota max_ack ≤ s.shared.ack)
  pub runs_quorate : All (λ a. quota max_ack ≤ a) s.shared.runs
  pub bounded : s.shared.ack ≤ total acked s.places
  pub acks_wait :
      (total waits_ack s.places ≡ 0) ⊎ ((0 < s.shared.ack) ⊎ (0 < total signals_exec s.places))
  pub execs_wait :
      (total waits_exec s.places ≡ 0)
      ⊎ ((s.shared.ack < quota max_ack) ⊎ (0 < total signals_ack s.places))

pub below_lem : (ack : ℕ) (max_ack : ℤ) → below ack max_ack ≡ ltb ack (quota max_ack)
below_lem ack (pos n) = refl
below_lem ack (negsuc n) = ground arith

module _ (max_ack : ℤ) (q : QuorumExecutor) (l r : List Place) (p : Place) (m : Move)
    (e : advance max_ack q p ≡ some m) where
  exclusive_step :
      total holds (l ++ p ∷ r) ≡ bit q.locked
      → total holds (after_move l r m).places ≡ bit m.shared.locked
  unfolding advance
  exclusive_step h =
      ground (arith, total_mid holds l r p, total-after_move holds (λ p. ground arith) l r m)

  bounded_step :
      q.ack ≤ total acked (l ++ p ∷ r) → m.shared.ack ≤ total acked (after_move l r m).places
  unfolding advance
  bounded_step h =
      ground (arith, total_mid acked l r p, total-after_move acked (λ p. ground arith) l r m)

  quorum_step :
      total holds (l ++ p ∷ r) ≡ bit q.locked
      → (total in_quorum (l ++ p ∷ r) ≡ 0) ⊎ (quota max_ack ≤ q.ack)
      → (total in_quorum (after_move l r m).places ≡ 0) ⊎ (quota max_ack ≤ m.shared.ack)
  unfolding advance
  quorum_step x h = ground (
    arith,
    total_mid holds l r p,
    total_mid in_quorum l r p,
    total-after_move in_quorum (λ p. ground arith) l r m,
    below_lem q.ack max_ack,
    total_le in_quorum holds (λ p. ground arith) l,
    total_le in_quorum holds (λ p. ground arith) r,
  )

  runs_step :
      (total in_quorum (l ++ p ∷ r) ≡ 0) ⊎ (quota max_ack ≤ q.ack)
      → All (λ a. quota max_ack ≤ a) q.runs
      → All (λ a. quota max_ack ≤ a) m.shared.runs
  unfolding advance
  runs_step h rs = ground (arith, total_mid in_quorum l r p)

  acks_step :
      (total waits_ack (l ++ p ∷ r) ≡ 0) ⊎ ((0 < q.ack) ⊎ (0 < total signals_exec (l ++ p ∷ r)))
      → (total waits_ack (after_move l r m).places ≡ 0)
        ⊎ ((0 < m.shared.ack) ⊎ (0 < total signals_exec (after_move l r m).places))
  unfolding advance
  acks_step h = ground (
    arith,
    total_mid waits_ack l r p,
    total_mid signals_exec l r p,
    total-after_move signals_exec (λ p. ground arith) l r m,
    total_mid waits_ack l r m.place,
    total-wake_none waits_ack (λ p. ground arith) l,
    total-wake_none waits_ack (λ p. ground arith) r,
    total_mid waits_ack (wake_all true l) (wake_all true r) m.place,
  )

  execs_step :
      (total waits_exec (l ++ p ∷ r) ≡ 0)
        ⊎ ((q.ack < quota max_ack) ⊎ (0 < total signals_ack (l ++ p ∷ r)))
      → (total waits_exec (after_move l r m).places ≡ 0)
        ⊎ ((m.shared.ack < quota max_ack) ⊎ (0 < total signals_ack (after_move l r m).places))
  unfolding advance
  execs_step h = ground (
    arith,
    below_lem q.ack max_ack,
    total_mid waits_exec l r p,
    total_mid signals_ack l r p,
    total-after_move signals_ack (λ p. ground arith) l r m,
    total_mid waits_exec l r m.place,
    total-wake_none waits_exec (λ p. ground arith) l,
    total-wake_none waits_exec (λ p. ground arith) r,
    total_mid waits_exec (wake_all true l) (wake_all true r) m.place,
  )

Step-Guarded :
    {max_ack : ℤ} {s t : System} → Step max_ack s t → Guarded max_ack s → Guarded max_ack t
Step-Guarded {max_ack} {s} (move l r p {m} at e) g = record {
  exclusive = exclusive_step max_ack s.shared l r p m e x;
  quorum = quorum_step max_ack s.shared l r p m e x h;
  runs_quorate = runs_step max_ack s.shared l r p m e h g.runs_quorate;
  bounded = bounded_step max_ack s.shared l r p m e (rw at at g.bounded);
  acks_wait = acks_step max_ack s.shared l r p m e (rw at at g.acks_wait);
  execs_wait = execs_step max_ack s.shared l r p m e (rw at at g.execs_wait);
}
  where
    x : total holds (l ++ p ∷ r) ≡ bit s.shared.locked
    x = rw at at g.exclusive

    h : (total in_quorum (l ++ p ∷ r) ≡ 0) ⊎ (quota max_ack ≤ s.shared.ack)
    h = rw at at g.quorum

abbrev pub Calls : Place → Type 0
Calls p = is_call p ≡ true

start-Guarded :
    (max_ack : ℤ) (calls : List Place) → All Calls calls → Guarded max_ack (starting calls)
start-Guarded max_ack calls c = record {
  exclusive = total_zero holds Calls (λ p c. ground arith) calls c;
  quorum = inl (total_zero in_quorum Calls (λ p c. ground arith) calls c);
  runs_quorate = tt;
  bounded = omega arith;
  acks_wait = inl (total_zero waits_ack Calls (λ p c. ground arith) calls c);
  execs_wait = inl (total_zero waits_exec Calls (λ p c. ground arith) calls c);
}

-- However many goroutines call the two functions, and in whatever order they move: at most one
-- holds the lock, every run of the function has found the acknowledgements that it waits for, their
-- count is at most the number of goroutines that have acknowledged, and a goroutine is suspended
-- only while its condition does not hold or a Broadcast is about to come.
pub Run-Guarded :
    {max_ack : ℤ} (calls : List Place)
    → All Calls calls
    → {n : ℕ} {s : System} → Run max_ack (starting calls) n s
    → Guarded max_ack s
Run-Guarded {max_ack} calls c here = start-Guarded max_ack calls c
Run-Guarded calls c (next run step) = Step-Guarded step (Run-Guarded calls c run)
