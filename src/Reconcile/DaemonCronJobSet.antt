-- ===== src/Reconcile/DaemonCronJobSet.antt =====
-- internal/controller/daemoncronjobset_controller.go: the reconciler of a DaemonCronJobSet.
pub mod Counts
pub mod Watch
pub mod Store
pub mod Tally
pub mod Converge
use daemonjob.Prelude.{
  ℕ, String, Bool, true, false, Option, some, List, [], ◌∷◌, ltb, length, is_some, if◌then◌else◌,
}
use daemonjob.StringMap.{get}
use daemonjob.Result.{Result, ok, err}
use daemonjob.Kube.{ObjectMeta, CronJob}
use daemonjob.Api.{DaemonCronJobSet}
use daemonjob.Status.{SetStatusCondition, Status, new_status, set_pair}
use daemonjob.Resources.Constants.{label_node}
use daemonjob.Resources.DaemonJob.{or_empty}
use daemonjob.Resources.DaemonCronJobSet.Nodes.{list_set_nodes, set_cron_jobs}
use daemonjob.Client
use daemonjob.Client.{Client, Call, pure, ◌>>=◌, ◌>>◌}
use daemonjob.Client.Selectors.{ListOptions, daemon_cron_job_set_cron_jobs}
use daemonjob.Reconcile.DaemonJob.Cleanup.{is_gone}

module _ {X : Type 0} where
  abbrev pub is_mismatched : List String → CronJob X → Bool
  is_mismatched nodes j = is_gone nodes (get (or_empty j.metadata.labels) label_node)

  abbrev pub set_status_of : DaemonCronJobSet X → Status
  set_status_of d = new_status d.status.conditions "Available" "Degraded" "Degraded" "Reconciling"

  abbrev pub list_options_of : DaemonCronJobSet X → ListOptions
  list_options_of d = daemon_cron_job_set_cron_jobs d.metadata.namespace d.metadata.name

-- The switch over the two counts
unfoldable pub settle : SetStatusCondition → Status → (desired available : ℕ) → Status
settle set_status_condition s desired available =
    if ltb desired available
    then set_pair set_status_condition s false "Reconciling" "Too much cronjobs"
    else if ltb available desired
    then set_pair set_status_condition s false "Reconciling" "Too few cronjobs"
    else set_pair set_status_condition s true "OK" ""

abbrev pub with_counts :
    {X : Type 0}
    → SetStatusCondition
    → DaemonCronJobSet X
    → (desired available : ℕ) → DaemonCronJobSet X
with_counts set_status_condition d desired available = record d {
  status = record {
    conditions = (settle set_status_condition (set_status_of d) desired available).conditions;
    desired = desired;
    available = available;
  };
}

module _ {X W E : Type 0} (c : Client X W E) where
  unfoldable pub delete_mismatched : List String → List (CronJob X) → Call W E (Unit {0})
  delete_mismatched nodes [] = pure tt
  delete_mismatched nodes (j ∷ js) =
      let rest = delete_mismatched nodes js in
      if is_mismatched nodes j then c.delete Client.cron_job j >> rest else rest

  unfoldable pub delete_cron_jobs_on_mismatched_node : DaemonCronJobSet X → Call W E (Unit {0})
  delete_cron_jobs_on_mismatched_node d = do
    nodes ← list_set_nodes c d
    jobs ← c.list Client.cron_job (list_options_of d)
    delete_mismatched nodes jobs

  unfoldable pub apply_each : ObjectMeta X → List (CronJob X) → Call W E (Unit {0})
  apply_each owner [] = pure tt
  apply_each owner (j ∷ js) =
      let rest = apply_each owner js in
      c.create_or_update (some (Client.daemon_cron_job_set, owner)) Client.cron_job j >> rest

  unfoldable pub apply_cron_jobs : DaemonCronJobSet X → Call W E (Unit {0})
  apply_cron_jobs d = do jobs ← set_cron_jobs c d; apply_each d.metadata jobs

  -- The error is only logged.
  abbrev pub skip_error : Result E (Unit {0}) × W → Result E (Unit {0}) × W
  skip_error (_, w) = (ok tt, w)

  module _ (set_status_condition : SetStatusCondition) where
    unfoldable pub update_set_status : DaemonCronJobSet X → Call W E (Unit {0})
    update_set_status d = do
      nodes ← list_set_nodes c d
      jobs ← c.list Client.cron_job (list_options_of d)
      c.update_status Client.daemon_cron_job_set
          (with_counts set_status_condition d (length nodes) (length jobs))

    unfoldable pub reconcile_set_live : DaemonCronJobSet X → Call W E (Unit {0})
    reconcile_set_live d = do
      (λ w. skip_error (delete_cron_jobs_on_mismatched_node d w))
      apply_cron_jobs d
      update_set_status d

    -- A set that is being deleted is left alone.
    abbrev pub reconcile_set_found : DaemonCronJobSet X → Call W E (Unit {0})
    reconcile_set_found d =
        if is_some d.metadata.deletion_timestamp then pure tt else reconcile_set_live d

    abbrev pub reconcile_set_got : Result E (DaemonCronJobSet X) × W → Result E (Unit {0}) × W
    reconcile_set_got (ok d, w) = reconcile_set_found d w
    reconcile_set_got (err e, w) = (if c.is_not_found e then ok tt else err e, w)

    unfoldable pub reconcile_set : (namespace name : String) → Call W E (Unit {0})
    reconcile_set namespace name w =
        reconcile_set_got (c.get Client.daemon_cron_job_set namespace name w)
