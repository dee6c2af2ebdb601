-- ===== src/Samples/Conditions.antt =====
-- Concrete runs of the status of a custom resource.
use daemonjob.Prelude.{
  String, ◌≡◌, refl, true, some, List, [], ◌∷◌, arith, eq_iff, ◌==◌, if◌then◌else◌,
}
use daemonjob.Kube.{Condition}
use daemonjob.Status.{
  find_condition, HasUniqueTypes, SetStatusCondition, ConditionLaws, Status, new_status, state,
}
use daemonjob.Status.Verdict.{state-eq-expected_state, IsWellFormed, pair, progress, not_found}
use daemonjob.Status.State.{updates, state-updates}

-- The conditions as a plain list, a new type at the end.
abbrev pub set_condition : SetStatusCondition
set_condition [] c = c ∷ []
set_condition (d ∷ ds) c =
    let rest = set_condition ds c in if d.type == c.type then c ∷ ds else d ∷ rest

find-set_condition :
    (cs : List Condition) (c : Condition) (t : String)
    → find_condition (set_condition cs c) t ≡ (if c.type == t then some c else find_condition cs t)
find-set_condition [] c t = refl
find-set_condition (d ∷ ds) c t =
    ground
      (arith, find-set_condition ds c t, eq_iff d.type c.type, eq_iff d.type t, eq_iff c.type t)

HasUniqueTypes-set_condition :
    (cs : List Condition) (c : Condition) → HasUniqueTypes cs → HasUniqueTypes (set_condition cs c)
HasUniqueTypes-set_condition [] c u = (refl, tt)
HasUniqueTypes-set_condition (d ∷ ds) c u = ground (
  arith,
  HasUniqueTypes-set_condition ds c u.1,
  find-set_condition ds c d.type,
  eq_iff d.type c.type,
  eq_iff c.type d.type,
)

pub set_condition_laws : ConditionLaws set_condition
set_condition_laws = record {
  find-set = find-set_condition;
  HasUniqueTypes-set = HasUniqueTypes-set_condition;
}

abbrev condition : String → String → Condition
condition type status = record {
  type = type;
  status = status;
  reason = "Broadcasting";
  message = "";
}

abbrev running : Status
running =
    new_status (condition "Progressing" "True" ∷ condition "Degraded" "True" ∷ []) "Complete"
      "Progressing" "Degraded" "Reconciling"

running-IsWellFormed : IsWellFormed running
running-IsWellFormed = record {
  exclusive = record {
    unique = (refl, (refl, tt));
    apart = λ e. ground (arith, eq_iff "Complete" "Degraded");
    exclusive = refl;
  };
  progressing-available = λ e. ground (arith, eq_iff "Progressing" "Complete");
  progressing-degraded = λ e. ground (arith, eq_iff "Progressing" "Degraded");
}

state-eq-expected_state_example : state running ≡ some "Degraded"
state-eq-expected_state_example = state-eq-expected_state running running-IsWellFormed.exclusive

state-updates_example :
    state (
      updates set_condition running
        (not_found "Job" ∷ progress "Broadcasting" "" ∷ pair true "OK" "done" ∷ []))
    ≡ some "Complete"
state-updates_example =
    state-updates set_condition set_condition_laws running
      (not_found "Job" ∷ progress "Broadcasting" "" ∷ pair true "OK" "done" ∷ [])
      running-IsWellFormed
