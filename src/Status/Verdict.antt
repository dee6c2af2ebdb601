-- ===== src/Status/Verdict.antt =====
-- What State reports, as a function of which conditions are true.
use daemonjob.Prelude.{
  String, ◌≡◌, ◌≢◌, Bool, true, false, ◌&&◌, ◌||◌, Option, none, some, List, [], ◌∷◌, ◌==◌, eq_iff,
  arith, if◌then◌else◌,
}
use daemonjob.Kube.{Condition}
use daemonjob.Status.{condition_true, find_condition, HasUniqueTypes, Status, state_loop, state}

-- The condition of a type, if there is one, is true.
abbrev pub status_holds : Option Condition → Bool
status_holds none = false
status_holds (some c) = c.status == condition_true

abbrev pub holds : List Condition → String → Bool
holds cs t = status_holds (find_condition cs t)

-- State, told by the three conditions alone, in whatever order they stand.
abbrev pub expected_state : Status → Bool → Option String
expected_state s progressing =
    if holds s.conditions s.type_available
    then some s.type_available
    else if holds s.conditions s.type_degraded
    then some s.type_degraded
    else if progressing || holds s.conditions s.type_progressing
    then some s.type_progressing
    else none

-- Available and Degraded are told apart and are never true together, and no type stands twice.
pub record IsExclusive (s : Status) : Type 0 where
  pub unique : HasUniqueTypes s.conditions
  pub apart : s.type_available ≢ s.type_degraded
  pub exclusive :
      (holds s.conditions s.type_available && holds s.conditions s.type_degraded) ≡ false

abbrev with_conditions : Status → List Condition → Status
with_conditions s cs = record s { conditions = cs }

-- One round of the loop, given what the rounds after it return.
state_loop-cons :
    (s : Status) (p : Bool) (c : Condition) (cs : List Condition) (rest : Option String)
    → s.type_available ≢ s.type_degraded
    → find_condition cs c.type ≡ none
    → (holds (c ∷ cs) s.type_available && holds (c ∷ cs) s.type_degraded) ≡ false
    → rest
      ≡ expected_state
          (with_conditions s cs)
          (p || (c.status == condition_true && c.type == s.type_progressing))
    → (if c.status == condition_true && (c.type == s.type_available || c.type == s.type_degraded)
        then some c.type
        else rest)
      ≡ expected_state (with_conditions s (c ∷ cs)) p
state_loop-cons s p c cs rest apart new e ih = ground (
  arith,
  eq_iff c.type s.type_available,
  eq_iff c.type s.type_degraded,
  eq_iff c.type s.type_progressing,
)

-- The conditions after the first exclude one another too.
exclusive-tail :
    (c : Condition) (cs : List Condition) (a d : String)
    → find_condition cs c.type ≡ none
    → (holds (c ∷ cs) a && holds (c ∷ cs) d) ≡ false
    → (holds cs a && holds cs d) ≡ false
exclusive-tail c cs a d new e = ground (arith, eq_iff c.type a, eq_iff c.type d)

state_loop_lem :
    (s : Status) (p : Bool) (cs : List Condition)
    → s.type_available ≢ s.type_degraded
    → HasUniqueTypes cs
    → (holds cs s.type_available && holds cs s.type_degraded) ≡ false
    → state_loop s p cs ≡ expected_state (with_conditions s cs) p
unfolding state_loop
state_loop_lem s p [] apart u e = ground arith
state_loop_lem s p (c ∷ cs) apart u e =
    state_loop-cons s p c cs
      (state_loop s (p || (c.status == condition_true && c.type == s.type_progressing)) cs) apart
      u.0 e
      (state_loop_lem s (p || (c.status == condition_true && c.type == s.type_progressing)) cs apart
        u.1 (exclusive-tail c cs s.type_available s.type_degraded u.0 e))

-- Where no condition type stands twice and the two types Available and Degraded differ and are not
-- both true, State depends only on which of the three conditions are true: Available first, then
-- Degraded, then Progressing.
pub state-eq-expected_state : (s : Status) → IsExclusive s → state s ≡ expected_state s false
unfolding state
state-eq-expected_state s v = state_loop_lem s false s.conditions v.apart v.unique v.exclusive

-- The four answers that State can give, as an abstract state machine.
pub data Verdict : Type 0 where
  unknown progressing available degraded : Verdict

-- The setters of Status.
pub data Update : Type 0 where
  pair : (ok : Bool) (reason message : String) → Update
  progress : (reason message : String) → Update
  not_found : (name : String) → Update

abbrev pub next : Verdict → Update → Verdict
next v (pair true _ _) = available
next v (pair false _ _) = degraded
next v (not_found _) = degraded
next unknown (progress _ _) = progressing
next v (progress _ _) = v

abbrev pub verdict : Status → Verdict
verdict s =
    if holds s.conditions s.type_available
    then available
    else if holds s.conditions s.type_degraded
    then degraded
    else if holds s.conditions s.type_progressing
    then progressing
    else unknown

abbrev pub verdict_name : Status → Verdict → Option String
verdict_name s unknown = none
verdict_name s progressing = some s.type_progressing
verdict_name s available = some s.type_available
verdict_name s degraded = some s.type_degraded

-- The names of the three types differ pairwise, and the conditions are exclusive.
pub record IsWellFormed (s : Status) : Type 0 where
  pub exclusive : IsExclusive s
  pub progressing-available : s.type_progressing ≢ s.type_available
  pub progressing-degraded : s.type_progressing ≢ s.type_degraded

pub state-eq-verdict_name : (s : Status) → IsWellFormed s → state s ≡ verdict_name s (verdict s)
state-eq-verdict_name s v = rw (state-eq-expected_state s v.exclusive) (ground arith)
