-- ===== src/Reconcile/DaemonJob/Standing.antt =====
-- Where the status of a DaemonJob stands, and how the steps of updateStatus move it.
use daemonjob.Prelude.{
  String, ◌≡◌, refl, ap, subst, ◌∙◌, Bool, true, false, Option, none, some, List, [], ◌∷◌, map, any,
  if◌then◌else◌,
}
use daemonjob.Kube.{Job, Condition}
use daemonjob.Api.{DaemonJob}
use daemonjob.Status.{
  SetStatusCondition, ConditionLaws, Status, new_status, set_progressing, set_pair, set_not_found,
}
use daemonjob.Status.Verdict.{
  Verdict, unknown, progressing, available, degraded, Update, pair, progress, not_found, next,
  verdict, verdict_name, IsWellFormed, state-eq-verdict_name,
}
use daemonjob.Status.State.{update, update-IsWellFormed, verdict-update}
use daemonjob.Status.JobStatus
use daemonjob.Status.JobStatus.{
  JobStatus, JobStatusType, type_is, standing, check_job_status-standing,
}
use daemonjob.Reconcile.DaemonJob.Report.{
  Element, has_type, element, status_of, with_status, or_unknown, workers_status, note_missing,
}

-- The words of the Status.State field
abbrev pub state_text : Verdict → String
state_text unknown = "Unknown"
state_text progressing = "Progressing"
state_text available = "Complete"
state_text degraded = "Degraded"

abbrev pub after_check : Bool → Verdict → Verdict
after_check found v = if found then v else degraded

abbrev elements_verdict : List Element → Verdict → Verdict
elements_verdict elems v =
    if any (has_type JobStatus.failed) elems
    then degraded
    else if any (has_type JobStatus.progressing) elems
    then next v (progress "" "")
    else available

abbrev is_failed : JobStatusType → Bool
is_failed JobStatus.failed = true
is_failed _ = false

abbrev is_progressing : JobStatusType → Bool
is_progressing JobStatus.progressing = true
is_progressing _ = false

type_is-failed : (t : JobStatusType) → type_is JobStatus.failed t ≡ is_failed t
type_is-failed JobStatus.progressing = refl
type_is-failed JobStatus.complete = refl
type_is-failed JobStatus.failed = refl

type_is-progressing : (t : JobStatusType) → type_is JobStatus.progressing t ≡ is_progressing t
type_is-progressing JobStatus.progressing = refl
type_is-progressing JobStatus.complete = refl
type_is-progressing JobStatus.failed = refl

module _ {X : Type 0} where
  -- Any failed worker degrades the DaemonJob; any worker in progress leaves the answer before, or
  -- Progressing where there was none; otherwise all are complete.
  abbrev pub workers_verdict : List (Job X) → Verdict → Verdict
  workers_verdict workers v =
      if any (λ j. is_failed (standing j.conditions)) workers
      then degraded
      else if any (λ j. is_progressing (standing j.conditions)) workers
      then next v (progress "" "")
      else available

  -- The workers count only where the broadcast is complete.
  abbrev pub broadcast_verdict : List (Job X) → JobStatusType → Verdict → Verdict
  broadcast_verdict workers JobStatus.progressing v = next v (progress "" "")
  broadcast_verdict workers JobStatus.failed v = degraded
  broadcast_verdict workers JobStatus.complete v = workers_verdict workers v

  abbrev pub job_verdict : List (Job X) → Option (Job X) → Verdict → Verdict
  job_verdict workers none v = degraded
  job_verdict workers (some j) v = broadcast_verdict workers (standing j.conditions) v

  any-element :
      (t : JobStatusType) (is : JobStatusType → Bool)
      → ((u : JobStatusType) → type_is t u ≡ is u)
      → (js : List (Job X))
      → any (has_type t) (map element js) ≡ any (λ j. is (standing j.conditions)) js
  any-element t is h [] = refl
  any-element t is h (j ∷ js) =
      rw (check_job_status-standing j.conditions, h (standing j.conditions), any-element t is h js)
        refl

  elements_verdict_lem :
      (js : List (Job X)) (v : Verdict) → elements_verdict (map element js) v ≡ workers_verdict js v
  elements_verdict_lem js v =
      rw
        (
          any-element JobStatus.failed is_failed type_is-failed js,
          any-element JobStatus.progressing is_progressing type_is-progressing js,
        )
        refl

-- A status of a DaemonJob that stands at a verdict.
pub record IsAt (s : Status) (v : Verdict) : Type 0 where
  pub well_formed : IsWellFormed s
  pub at : verdict s ≡ v
  pub standard : s ≡ new_status s.conditions "Complete" "Progressing" "Degraded" "Reconciling"

module _ (set_status_condition : SetStatusCondition)
    (laws : ConditionLaws set_status_condition) where
  update-standard :
      (s : Status) (u : Update) (cs : List Condition)
      → update set_status_condition s u
        ≡ record s { conditions = (update set_status_condition s u).conditions }
  unfolding set_pair set_progressing set_not_found
  update-standard s (pair b reason message) cs = refl
  update-standard s (progress reason message) cs = refl
  update-standard s (not_found name) cs = refl

  pub update-IsAt :
      (s : Status) (v : Verdict) (u : Update)
      → IsAt s v
      → IsAt (update set_status_condition s u) (next v u)
  update-IsAt s v u h = record {
    well_formed = update-IsWellFormed set_status_condition laws s u h.well_formed;
    at = verdict-update set_status_condition laws s u h.well_formed ∙ ap (λ x. next x u) h.at;
    standard =
        update-standard s u s.conditions
        ∙ ap {A = Status}
            (λ x. record x { conditions = (update set_status_condition s u).conditions })
            h.standard;
  }

  pub progress-IsAt :
      (s : Status) (v : Verdict) (reason message : String)
      → IsAt s v
      → IsAt (set_progressing set_status_condition s reason message) (next v (progress "" ""))
  progress-IsAt s unknown reason message h = update-IsAt s unknown (progress reason message) h
  progress-IsAt s progressing reason message h =
      update-IsAt s progressing (progress reason message) h
  progress-IsAt s available reason message h = update-IsAt s available (progress reason message) h
  progress-IsAt s degraded reason message h = update-IsAt s degraded (progress reason message) h

  workers-IsAt :
      (s : Status) (v : Verdict) (some_failed some_progressing : Bool) (m1 m2 : String)
      → IsAt s v
      → IsAt
          (if some_failed
            then set_pair set_status_condition s false "Failed" m1
            else if some_progressing
            then set_progressing set_status_condition s "Progressing" m2
            else set_pair set_status_condition s true "OK" "All jobs are completed")
          (if some_failed
            then degraded
            else if some_progressing
            then next v (progress "" "")
            else available)
  workers-IsAt s v true p m1 m2 h = update-IsAt s v (pair false "Failed" m1) h
  workers-IsAt s v false true m1 m2 h = progress-IsAt s v "Progressing" m2 h
  workers-IsAt s v false false m1 m2 h = update-IsAt s v (pair true "OK" "All jobs are completed") h

  pub workers_status-IsAt :
      {X : Type 0} (s : Status) (v : Verdict) (workers : List (Job X))
      → IsAt s v
      → IsAt
          (workers_status set_status_condition s (map element workers))
          (workers_verdict workers v)
  unfolding workers_status
  workers_status-IsAt s v workers h =
      subst (IsAt (workers_status set_status_condition s (map element workers)))
        (elements_verdict_lem workers v)
        (workers-IsAt s v (any (has_type JobStatus.failed) (map element workers))
          (any (has_type JobStatus.progressing) (map element workers)) _ _ h)

  pub missing-IsAt :
      (s : Status) (v : Verdict) (name : String) (found : Bool)
      → IsAt s v
      → IsAt (note_missing set_status_condition name s found) (after_check found v)
  missing-IsAt s v name true h = h
  missing-IsAt s v name false h = update-IsAt s v (not_found name) h

state_names :
    (cs : List Condition) (v : Verdict)
    → or_unknown (verdict_name (new_status cs "Complete" "Progressing" "Degraded" "Reconciling") v)
      ≡ state_text v
state_names cs unknown = refl
state_names cs progressing = refl
state_names cs available = refl
state_names cs degraded = refl

-- What is written for a status at a verdict.
pub record IsWritten {X : Type 0} (d d' : DaemonJob X) (v : Verdict) : Type 0 where
  pub same_metadata : d'.metadata ≡ d.metadata
  pub same_spec : d'.spec ≡ d.spec
  pub well_formed : IsWellFormed (status_of d')
  pub at : verdict (status_of d') ≡ v
  pub text : d'.status.state ≡ state_text v

pub with_status-IsWritten :
    {X : Type 0} (d : DaemonJob X) (s : Status) (v : Verdict)
    → IsAt s v
    → IsWritten d (with_status d s) v
with_status-IsWritten d s v h = record {
  same_metadata = refl;
  same_spec = refl;
  well_formed = subst IsWellFormed h.standard h.well_formed;
  at = subst (λ x. verdict x ≡ v) h.standard h.at;
  text =
      ap or_unknown (
        state-eq-verdict_name s h.well_formed
        ∙ ap (verdict_name s) h.at
        ∙ ap (λ x. verdict_name x v) h.standard)
      ∙ state_names s.conditions v;
}
