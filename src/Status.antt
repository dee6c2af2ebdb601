-- ===== src/Status.antt =====
-- internal/controller/status.go, the conditions of a custom resource. `meta.SetStatusCondition` of
-- apimachinery is a parameter, with what its documentation says in `ConditionLaws`.
pub mod JobStatus
pub mod Logs
pub mod Verdict
pub mod State
use daemonjob.Prelude.{
  String, ◌<>◌, ◌≡◌, Bool, true, false, not, Option, none, some, List, [], ◌∷◌, ◌==◌, ◌||◌, ◌&&◌,
  if◌then◌else◌,
}
use daemonjob.Kube.{Condition}

abbrev pub condition_true : String
condition_true = "True"

-- meta.FindStatusCondition
abbrev pub find_condition : List Condition → String → Option Condition
find_condition [] t = none
find_condition (c ∷ cs) t = if c.type == t then some c else find_condition cs t

-- No two conditions have one type: the conditions are a list map keyed by type.
abbrev pub HasUniqueTypes : List Condition → Type 0
HasUniqueTypes [] = Unit
HasUniqueTypes (c ∷ cs) = (find_condition cs c.type ≡ none) × HasUniqueTypes cs

abbrev pub SetStatusCondition : Type 0
SetStatusCondition = List Condition → Condition → List Condition

-- The condition of the new one's type is updated, or the new one added; the others stay.
pub record ConditionLaws (set_status_condition : SetStatusCondition) : Type 0 where
  pub find-set :
      (cs : List Condition) (c : Condition) (t : String)
      → find_condition (set_status_condition cs c) t
        ≡ (if c.type == t then some c else find_condition cs t)
  pub HasUniqueTypes-set :
      (cs : List Condition) (c : Condition)
      → HasUniqueTypes cs
      → HasUniqueTypes (set_status_condition cs c)

pub record Status : Type 0 where
  pub conditions : List Condition
  pub type_available : String
  pub type_progressing : String
  pub type_degraded : String
  pub reason_not_found : String

abbrev pub new_status : List Condition → String → String → String → String → Status
new_status conditions available progressing degraded not_found = record {
  conditions = conditions;
  type_available = available;
  type_progressing = progressing;
  type_degraded = degraded;
  reason_not_found = not_found;
}

-- The loop of State over the conditions left, with the local variable `progressing`.
unfoldable pub state_loop : Status → Bool → List Condition → Option String
state_loop s progressing [] = if progressing then some s.type_progressing else none
state_loop s progressing (c ∷ cs) =
    let decided = c.type == s.type_available || c.type == s.type_degraded in
    let holds = c.status == condition_true in
    let rest = state_loop s (progressing || (holds && c.type == s.type_progressing)) cs in
    if holds && decided then some c.type else rest

unfoldable pub state : Status → Option String
unfolding state_loop
state s = state_loop s false s.conditions

abbrev pub condition_status : Bool → String
condition_status v = if v then condition_true else "False"

module _ (set_status_condition : SetStatusCondition) where
  unfoldable pub set : Status → List Condition → Status
  set s [] = s
  set s (x ∷ xs) = set (record s { conditions = set_status_condition s.conditions x }) xs

  unfoldable pub set_progressing : Status → String → String → Status
  unfolding set
  set_progressing s reason message = set s (
      record {
        type = s.type_progressing;
        status = condition_status true;
        reason = reason;
        message = message;
      }
      ∷ [])

  unfoldable pub set_pair : Status → Bool → String → String → Status
  unfolding set
  set_pair s ok reason message = set s (
      record {
        type = s.type_available;
        status = condition_status ok;
        reason = reason;
        message = if ok then message else "";
      }
      ∷ record {
        type = s.type_degraded;
        status = condition_status (not ok);
        reason = reason;
        message = if ok then "" else message;
      }
      ∷ [])

  unfoldable pub set_not_found : Status → String → Status
  unfolding set_pair
  set_not_found s name = set_pair s false s.reason_not_found (name <> " is not found")
