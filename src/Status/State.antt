-- ===== src/Status/State.antt =====
-- How the setters of Status change what State reports.
use daemonjob.Prelude.{
  String, ◌≡◌, refl, sym, Bool, true, false, not, List, [], ◌∷◌, ◌==◌, eq_refl, ==_false, arith,
  if◌then◌else◌,
}
use mathlib.Core.List.{foldl}
use daemonjob.Kube.{Condition}
use daemonjob.Status.{
  condition_true, condition_status, HasUniqueTypes, SetStatusCondition, ConditionLaws, Status,
  state, set_progressing, set_pair, set_not_found,
}
use daemonjob.Status.Verdict.{
  holds, IsExclusive, Verdict, unknown, progressing, available, degraded, Update, pair, progress,
  not_found, next, verdict, verdict_name, IsWellFormed, state-eq-verdict_name,
}

module _ (set_status_condition : SetStatusCondition) where
  abbrev pub update : Status → Update → Status
  update s (pair ok reason message) = set_pair set_status_condition s ok reason message
  update s (progress reason message) = set_progressing set_status_condition s reason message
  update s (not_found name) = set_not_found set_status_condition s name

  abbrev pub updates : Status → List Update → Status
  updates s [] = s
  updates s (u ∷ us) = updates (update s u) us

condition_status-true : (v : Bool) → (condition_status v == condition_true) ≡ v
condition_status-true true = refl
condition_status-true false = refl

module _ (set_status_condition : SetStatusCondition)
    (laws : ConditionLaws set_status_condition) where
  holds-set :
      (cs : List Condition) (c : Condition) (t : String)
      → holds (set_status_condition cs c) t
        ≡ (if c.type == t then c.status == condition_true else holds cs t)
  holds-set cs c t = ground (arith, laws.find-set cs c t)

  -- SetPair, one field of the invariant at a time.
  module _ (s : Status) (ok : Bool) (reason message : String) (v : IsExclusive s) where
    pub set_pair-available :
        holds (set_pair set_status_condition s ok reason message).conditions s.type_available ≡ ok
    unfolding set_pair
    set_pair-available = simp (
      holds-set,
      eq_refl,
      ==_false s.type_degraded s.type_available (λ e. v.apart (sym e)),
      condition_status-true,
    )

    pub set_pair-degraded :
        holds (set_pair set_status_condition s ok reason message).conditions s.type_degraded
        ≡ not ok
    unfolding set_pair
    set_pair-degraded = simp (holds-set, eq_refl, condition_status-true)

    set_pair_unique : HasUniqueTypes (set_pair set_status_condition s ok reason message).conditions
    unfolding set_pair
    set_pair_unique = laws.HasUniqueTypes-set _ _ (laws.HasUniqueTypes-set _ _ v.unique)

  pub set_pair-IsExclusive :
      (s : Status) (ok : Bool) (reason message : String)
      → IsExclusive s
      → IsExclusive (set_pair set_status_condition s ok reason message)
  unfolding set_pair
  set_pair-IsExclusive s ok reason message v = record {
    unique = set_pair_unique s ok reason message v;
    apart = v.apart;
    exclusive =
        ground (
          arith,
          set_pair-available s ok reason message v,
          set_pair-degraded s ok reason message v,
        );
  }

  pub set_pair-IsWellFormed :
      (s : Status) (ok : Bool) (reason message : String)
      → IsWellFormed s
      → IsWellFormed (set_pair set_status_condition s ok reason message)
  unfolding set_pair
  set_pair-IsWellFormed s ok reason message v = record {
    exclusive = set_pair-IsExclusive s ok reason message v.exclusive;
    progressing-available = v.progressing-available;
    progressing-degraded = v.progressing-degraded;
  }

  set_progressing-holds :
      (s : Status) (reason message t : String)
      → holds (set_progressing set_status_condition s reason message).conditions t
        ≡ (if s.type_progressing == t then true else holds s.conditions t)
  unfolding set_progressing
  set_progressing-holds s reason message t = simp (holds-set, condition_status-true)

  pub set_progressing-IsWellFormed :
      (s : Status) (reason message : String)
      → IsWellFormed s
      → IsWellFormed (set_progressing set_status_condition s reason message)
  unfolding set_progressing
  set_progressing-IsWellFormed s reason message v = record {
    exclusive = record {
      unique = laws.HasUniqueTypes-set _ _ v.exclusive.unique;
      apart = v.exclusive.apart;
      exclusive =
          simp
            (
              set_progressing-holds,
              ==_false _ _ v.progressing-available,
              ==_false _ _ v.progressing-degraded,
            )
            v.exclusive.exclusive;
    };
    progressing-available = v.progressing-available;
    progressing-degraded = v.progressing-degraded;
  }

  pub update-IsWellFormed :
      (s : Status) (u : Update) → IsWellFormed s → IsWellFormed (update set_status_condition s u)
  unfolding set_not_found
  update-IsWellFormed s (pair ok reason message) v = set_pair-IsWellFormed s ok reason message v
  update-IsWellFormed s (progress reason message) v =
      set_progressing-IsWellFormed s reason message v
  update-IsWellFormed s (not_found name) v = set_pair-IsWellFormed s false _ _ v

  set_pair-verdict :
      (s : Status) (ok : Bool) (reason message : String)
      → IsWellFormed s
      → verdict (set_pair set_status_condition s ok reason message)
        ≡ (if ok then available else degraded)
  unfolding set_pair
  set_pair-verdict s ok reason message v = ground (
    arith,
    set_pair-available s ok reason message v.exclusive,
    set_pair-degraded s ok reason message v.exclusive,
  )

  set_progressing-verdict :
      (s : Status) (reason message : String)
      → IsWellFormed s
      → verdict (set_progressing set_status_condition s reason message)
        ≡ next (verdict s) (progress reason message)
  unfolding set_progressing
  set_progressing-verdict s reason message v =
      simp
        (
          set_progressing-holds,
          ==_false _ _ v.progressing-available,
          ==_false _ _ v.progressing-degraded,
          eq_refl,
        )
        (ground arith)

  -- One setter moves the answer of State as the abstract machine does.
  pub verdict-update :
      (s : Status) (u : Update)
      → IsWellFormed s
      → verdict (update set_status_condition s u) ≡ next (verdict s) u
  unfolding set_not_found
  verdict-update s (pair true reason message) v = set_pair-verdict s true reason message v
  verdict-update s (pair false reason message) v = set_pair-verdict s false reason message v
  verdict-update s (progress reason message) v = set_progressing-verdict s reason message v
  verdict-update s (not_found name) v = set_pair-verdict s false _ _ v

  verdict_name-update :
      (s : Status) (u : Update) (v : Verdict)
      → verdict_name (update set_status_condition s u) v ≡ verdict_name s v
  unfolding set_pair set_progressing set_not_found
  verdict_name-update s (pair ok reason message) unknown = refl
  verdict_name-update s (pair ok reason message) progressing = refl
  verdict_name-update s (pair ok reason message) available = refl
  verdict_name-update s (pair ok reason message) degraded = refl
  verdict_name-update s (progress reason message) unknown = refl
  verdict_name-update s (progress reason message) progressing = refl
  verdict_name-update s (progress reason message) available = refl
  verdict_name-update s (progress reason message) degraded = refl
  verdict_name-update s (not_found name) unknown = refl
  verdict_name-update s (not_found name) progressing = refl
  verdict_name-update s (not_found name) available = refl
  verdict_name-update s (not_found name) degraded = refl

  -- For a SetStatusCondition with the documented laws: after any sequence of calls of SetPair,
  -- SetProgressing and SetNotFound on a well-formed status,
  -- State reports what the abstract machine computes from the answer before: the last pair or
  -- missing resource decides, and SetProgressing counts only while nothing has been decided.
  pub state-updates :
      (s : Status) (us : List Update)
      → IsWellFormed s
      → state (updates set_status_condition s us) ≡ verdict_name s (foldl next (verdict s) us)
  state-updates s [] v = state-eq-verdict_name s v
  state-updates s (u ∷ us) v =
      rw
        (
          state-updates (update set_status_condition s u) us (update-IsWellFormed s u v),
          verdict-update s u v,
        )
        (verdict_name-update s u (foldl next (next (verdict s) u) us))
