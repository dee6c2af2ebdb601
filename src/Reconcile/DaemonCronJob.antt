-- ===== src/Reconcile/DaemonCronJob.antt =====
-- internal/controller/daemoncronjob_controller.go: the reconciler of a DaemonCronJob. Building the
-- CronJob may panic, which ends the call like an error and leaves the cluster as it is then.
pub mod Available
pub mod Watch
pub mod Converge
pub mod Finished
use daemonjob.Prelude.{
  String, Bool, true, false, Option, none, some, List, [], ◌∷◌, map, is_some, Outcome, panicked,
  returned, if◌then◌else◌,
}
use daemonjob.Result.{Result, ok, err}
use daemonjob.Kube.{CronJob}
use daemonjob.Api.{DaemonCronJob}
use daemonjob.Status.{SetStatusCondition, Status, new_status, set_pair, set_not_found}
use daemonjob.Resources.DaemonCronJob.{
  DaemonCronJobBroadcastArgs, service_account, cluster_role_binding, cron_job,
}
use daemonjob.Client
use daemonjob.Client.{Client, Call, pure, fail, wrap, ◌>>=◌, ◌>>◌}
use daemonjob.Client.Selectors.{daemon_cron_job_cluster_role_bindings, daemon_cron_job_worker_jobs}
use daemonjob.Client.Operations.{FinalizerOps, delete_each, exist}
use daemonjob.Reconcile.DaemonJob.Cleanup.{list_all, delete_orphans}

pub record DaemonCronJobReconciler : Type 0 where
  pub broadcast_image : String
  pub broadcast_role : String

abbrev pub cron_finalizer : String
cron_finalizer = "daemoncronjobs.daemonjob.berquerant.github.io/finalizer"

-- How a reconciliation stops early.
pub data Stop (E : Type 0) : Type 0 where
  failed : E → Stop E
  panic : Stop E

abbrev pub cron_broadcast_args :
    {X : Type 0} → DaemonCronJobReconciler → DaemonCronJob X → DaemonCronJobBroadcastArgs X
cron_broadcast_args r d = record {
  daemon_cron_job = d;
  cluster_role_name = r.broadcast_role;
  image = r.broadcast_image;
}

abbrev pub or_panic : {W E A : Type 0} → Outcome A → Call W (Stop E) A
or_panic panicked = fail panic
or_panic (returned a) = pure a

abbrev pub cron_status_of : {X : Type 0} → DaemonCronJob X → Status
cron_status_of d = new_status d.conditions "Available" "Available" "Degraded" "Reconciling"

module _ (set_status_condition : SetStatusCondition) where
  abbrev pub note_cron_missing : String → Status → Bool → Status
  note_cron_missing name s found = if found then s else set_not_found set_status_condition s name

  -- The status where the CronJob is found or not
  abbrev pub cron_report : Status → Bool → Status
  cron_report s true = set_pair set_status_condition s true "OK" ""
  cron_report s false = set_not_found set_status_condition s "CronJob"

module _ {X W E : Type 0} (c : Client X W E) where
  unfoldable pub on_cron_delete : DaemonCronJob X → Call W E (Unit {0})
  on_cron_delete d = do
    crbs ←
        c.list Client.cluster_role_binding
          (daemon_cron_job_cluster_role_bindings d.metadata.namespace d.metadata.name)
    delete_each c Client.cluster_role_binding crbs

  unfoldable pub delete_cron_worker_jobs : DaemonCronJob X → Call W E (Unit {0})
  delete_cron_worker_jobs d = do
    nodes ← c.list Client.node list_all
    jobs ← c.list Client.job (daemon_cron_job_worker_jobs d.metadata.namespace d.metadata.name)
    delete_orphans c (map (λ n. n.name) nodes) jobs

  -- The error is only logged.
  abbrev pub log_error : Result E (Unit {0}) × W → Result (Stop E) (Unit {0}) × W
  log_error (_, w) = (ok tt, w)

module _ {X W E : Type 0} (c : Client X W E) (r : DaemonCronJobReconciler) where
  -- The DaemonCronJob as the call of CronJob leaves it
  unfoldable pub apply_cron_job : DaemonCronJob X → Call W (Stop E) (DaemonCronJob X)
  apply_cron_job d =
      let args = cron_broadcast_args r d in
      let owner = some (Client.daemon_cron_job, d.metadata) in
      do
        wrap failed (c.create_or_update owner Client.service_account (service_account args))
        wrap failed
            (c.create_or_update none Client.cluster_role_binding (cluster_role_binding args))
        built ← or_panic (cron_job args)
        wrap failed (c.create_or_update owner Client.cron_job built.0)
        pure built.1

  module _ (set_status_condition : SetStatusCondition) where
    unfoldable pub update_cron_status : DaemonCronJob X → Call W (Stop E) (Unit {0})
    update_cron_status d =
        let account = (service_account (cron_broadcast_args r d)).metadata in
        let binding = (cluster_role_binding (cron_broadcast_args r d)).metadata in
        do
          has_account ← wrap failed (exist c Client.service_account account.namespace account.name)
          let s1 =
              note_cron_missing set_status_condition "ServiceAccount" (cron_status_of d) has_account
          has_binding ←
              wrap failed (exist c Client.cluster_role_binding binding.namespace binding.name)
          let s2 = note_cron_missing set_status_condition "ClusterRoleBinding" s1 has_binding
          built ← or_panic (cron_job (cron_broadcast_args r d))
          let target = built.0.metadata
          found ← wrap failed (exist c Client.cron_job target.namespace target.name)
          wrap failed (
              c.update_status Client.daemon_cron_job (record built.1 {
                conditions = (cron_report set_status_condition s2 found).conditions;
              }))

    module _ (ops : FinalizerOps X) where
      unfoldable pub remove_cron_finalizer : DaemonCronJob X → Call W E (DaemonCronJob X)
      remove_cron_finalizer d =
          if ops.contains_finalizer d.metadata cron_finalizer
          then c.update Client.daemon_cron_job
              (record d { metadata = ops.remove_finalizer d.metadata cron_finalizer })
          else pure d

      unfoldable pub add_cron_finalizer : DaemonCronJob X → Call W E (DaemonCronJob X)
      add_cron_finalizer d =
          if ops.contains_finalizer d.metadata cron_finalizer
          then pure d
          else c.update Client.daemon_cron_job
              (record d { metadata = ops.add_finalizer d.metadata cron_finalizer })

      unfoldable pub reconcile_cron_deleted : DaemonCronJob X → Call W (Stop E) (Unit {0})
      reconcile_cron_deleted d = do
        wrap failed (
            if ops.contains_finalizer d.metadata cron_finalizer
            then on_cron_delete c d
            else pure tt)
        d' ← wrap failed (remove_cron_finalizer d)
        pure tt

      unfoldable pub reconcile_cron_live : DaemonCronJob X → Call W (Stop E) (Unit {0})
      reconcile_cron_live d0 = do
        d ← wrap failed (add_cron_finalizer d0)
        (λ w. log_error c (delete_cron_worker_jobs c d w))
        d' ← apply_cron_job d
        update_cron_status d'

      abbrev pub reconcile_cron_found : DaemonCronJob X → Call W (Stop E) (Unit {0})
      reconcile_cron_found d =
          if is_some d.metadata.deletion_timestamp
          then reconcile_cron_deleted d
          else reconcile_cron_live d

      abbrev pub reconcile_cron_got :
          Result E (DaemonCronJob X) × W → Result (Stop E) (Unit {0}) × W
      reconcile_cron_got (ok d, w) = reconcile_cron_found d w
      reconcile_cron_got (err e, w) = (if c.is_not_found e then ok tt else err (failed e), w)

      unfoldable pub reconcile_cron : (namespace name : String) → Call W (Stop E) (Unit {0})
      reconcile_cron namespace name w =
          reconcile_cron_got (c.get Client.daemon_cron_job namespace name w)
