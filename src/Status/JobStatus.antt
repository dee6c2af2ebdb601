-- ===== src/Status/JobStatus.antt =====
-- internal/controller/status.go, CheckJobStatus.
use daemonjob.Prelude.{
  String, ◌≡◌, refl, ap, ◌⊎◌, inl, inr, Bool, true, false, not, ◌&&◌, ◌||◌, List, [], ◌∷◌, ◌++◌,
  ◌==◌, arith, Bool-cases, All, if◌then◌else◌,
}
use daemonjob.Kube.{JobCondition}
use daemonjob.Status.{condition_true}

pub data JobStatusType : Type 0 where
  progressing complete failed : JobStatusType

abbrev pub type_is : JobStatusType → JobStatusType → Bool
type_is progressing progressing = true
type_is complete complete = true
type_is failed failed = true
type_is _ _ = false

pub record JobStatus : Type 0 where
  pub type : JobStatusType
  pub message : String
  pub reason : String

abbrev pub job_complete : String
job_complete = "Complete"

abbrev pub job_failed : String
job_failed = "Failed"

abbrev found : JobStatusType → JobCondition → JobStatus
found t c = record { type = t; message = c.message; reason = c.reason }

-- The `break` ends the loop at the first condition that is true and of one of the two types.
unfoldable pub check_job_status : List JobCondition → JobStatus
check_job_status [] = record { type = progressing; message = ""; reason = "" }
check_job_status (c ∷ cs) =
    let rest = check_job_status cs in
    if not (c.status == condition_true)
    then rest
    else if c.type == job_complete
    then found complete c
    else if c.type == job_failed
    then found failed c
    else rest

-- The job has finished by this condition.
abbrev pub is_finished : JobCondition → Bool
is_finished c = c.status == condition_true && (c.type == job_complete || c.type == job_failed)

-- The outcome that a finished condition stands for.
abbrev pub outcome : JobCondition → JobStatus
outcome c = record {
  type = if c.type == job_complete then complete else failed;
  message = c.message;
  reason = c.reason;
}

-- Where the first finished condition stands, if there is one.
abbrev pub FirstFinished : List JobCondition → JobStatus → Type 0
FirstFinished cs r =
    (pre : List JobCondition) × (c : JobCondition) × (post : List JobCondition) × (cs
      ≡ pre ++ c ∷ post)
    × All (λ d. is_finished d ≡ false) pre
    × (is_finished c ≡ true)
    × (r ≡ outcome c)

check-finished :
    (c : JobCondition) (cs : List JobCondition)
    → is_finished c ≡ true
    → check_job_status (c ∷ cs) ≡ outcome c
unfolding check_job_status
check-finished c cs h = ground arith

check-unfinished :
    (c : JobCondition) (cs : List JobCondition)
    → is_finished c ≡ false
    → check_job_status (c ∷ cs) ≡ check_job_status cs
unfolding check_job_status
check-unfinished c cs h = ground arith

-- CheckJobStatus reports the first condition that is true and says that the job is complete or
-- failed, with its reason and message; where there is none, the job is in progress.
pub check_job_status_cases :
    (cs : List JobCondition)
    → All (λ c. is_finished c ≡ false) cs
        × (check_job_status cs ≡ record { type = progressing; message = ""; reason = "" })
      ⊎ FirstFinished cs (check_job_status cs)
unfolding check_job_status
check_job_status_cases [] = inl (tt, refl)
check_job_status_cases (c ∷ cs) = elim (Bool-cases (is_finished c)) [
  | inl h ↦ inr ([], c, cs, refl, tt, h, check-finished c cs h)
  | inr h ↦ rw (check-unfinished c cs h) (elim (check_job_status_cases cs) [
    | inl (none_finished, e) ↦ inl ((h, none_finished), e)
    | inr (pre, d, post, split, before, now, e) ↦
        inr (c ∷ pre, d, post, ap (◌∷◌ c) split, (h, before), now, e)
  ])
]

-- How a Job stands, told by its first condition that is "True" and "Complete" or "Failed"
abbrev pub says : String → JobCondition → Bool
says type c = c.status == "True" && c.type == type

abbrev pub first_says : Bool → Bool → JobStatusType → JobStatusType
first_says true _ later = complete
first_says false true later = failed
first_says false false later = later

unfoldable pub standing : List JobCondition → JobStatusType
standing [] = progressing
standing (c ∷ cs) = first_says (says "Complete" c) (says "Failed" c) (standing cs)

pub check_job_status-standing : (cs : List JobCondition) → (check_job_status cs).type ≡ standing cs
unfolding check_job_status standing
check_job_status-standing [] = refl
check_job_status-standing (c ∷ cs) = ground (arith, check_job_status-standing cs)
