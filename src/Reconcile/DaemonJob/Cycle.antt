-- ===== src/Reconcile/DaemonJob/Cycle.antt =====
-- Reconcile of a DaemonJob.
use daemonjob.Prelude.{String, none, some, if◌then◌else◌, is_some}
use daemonjob.Result.{Result, ok, err}
use daemonjob.Api.{DaemonJob}
use daemonjob.Status.{SetStatusCondition}
use daemonjob.Resources.DaemonJob.{service_account, cluster_role_binding, job}
use daemonjob.Client
use daemonjob.Client.{Client, Call, pure, fail, ◌>>=◌, ◌>>◌}
use daemonjob.Client.Operations.{FinalizerOps}
use daemonjob.Reconcile.DaemonJob.{DaemonJobReconciler, broadcast_args, reconciler_finalizer}
use daemonjob.Reconcile.DaemonJob.Cleanup.{on_delete, delete_worker_jobs_on_not_exist_node}
use daemonjob.Reconcile.DaemonJob.Report.{update_status}

module _ {X W E : Type 0} (c : Client X W E) (ops : FinalizerOps X)
    (set_status_condition : SetStatusCondition) (r : DaemonJobReconciler) where
  unfoldable pub apply_job : DaemonJob X → Call W E (Unit {0})
  apply_job d =
      let args = broadcast_args r d in
      let owner = some (Client.daemon_job, d.metadata) in
      do
        c.create_or_update owner Client.service_account (service_account args)
        c.create_or_update none Client.cluster_role_binding (cluster_role_binding args)
        c.create_or_update owner Client.job (job args)

  -- Each call of Update leaves the server's copy in the variable.
  unfoldable pub remove_finalizer_if_exist : DaemonJob X → Call W E (DaemonJob X)
  remove_finalizer_if_exist d =
      if ops.contains_finalizer d.metadata reconciler_finalizer
      then c.update Client.daemon_job
          (record d { metadata = ops.remove_finalizer d.metadata reconciler_finalizer })
      else pure d

  unfoldable pub add_finalizer_if_not_exist : DaemonJob X → Call W E (DaemonJob X)
  add_finalizer_if_not_exist d =
      if ops.contains_finalizer d.metadata reconciler_finalizer
      then pure d
      else c.update Client.daemon_job
          (record d { metadata = ops.add_finalizer d.metadata reconciler_finalizer })

  -- The error is only logged.
  abbrev pub ignore_error : Result E (Unit {0}) × W → Result E (Unit {0}) × W
  ignore_error (_, w) = (ok tt, w)

  unfoldable pub reconcile_deleted : DaemonJob X → Call W E (Unit {0})
  reconcile_deleted d = do
    if ops.contains_finalizer d.metadata reconciler_finalizer then on_delete c d else pure tt
    d' ← remove_finalizer_if_exist d
    pure tt

  unfoldable pub reconcile_live : DaemonJob X → Call W E (Unit {0})
  reconcile_live d0 = do
    d ← add_finalizer_if_not_exist d0
    (λ w. ignore_error (delete_worker_jobs_on_not_exist_node c d w))
    apply_job d
    update_status set_status_condition c r d

  abbrev pub reconcile_found : DaemonJob X → Call W E (Unit {0})
  reconcile_found d =
      if is_some d.metadata.deletion_timestamp then reconcile_deleted d else reconcile_live d

  -- An object that is not found has been deleted.
  abbrev pub reconcile_got : Result E (DaemonJob X) × W → Result E (Unit {0}) × W
  reconcile_got (ok d, w) = reconcile_found d w
  reconcile_got (err e, w) = (if c.is_not_found e then ok tt else err e, w)

  unfoldable pub reconcile : (namespace name : String) → Call W E (Unit {0})
  reconcile namespace name w = reconcile_got (c.get Client.daemon_job namespace name w)
