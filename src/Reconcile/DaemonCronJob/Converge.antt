-- ===== src/Reconcile/DaemonCronJob/Converge.antt =====
-- What one reconcile of a DaemonCronJob makes of the cluster, and the status that it ends with.
use daemonjob.Prelude.{◌≡◌, refl, ap, ◌∙◌, true, Option, none, some, is_some, List}
use daemonjob.StringMap.{StringMap}
use daemonjob.Result.{ok}
use daemonjob.Kube.{CronJob, OwnerReference}
use daemonjob.Api.{DaemonCronJob}
use daemonjob.Status.{SetStatusCondition, ConditionLaws}
use daemonjob.Status.Verdict.{IsExclusive}
use daemonjob.Resources.DaemonCronJob.{
  service_account, cluster_role_binding, cron_job_name, resource_name, build_cron_job, relabel,
}
use daemonjob.Resources.DaemonCronJob.Labels.{cron_job-some, shared_labels}
use daemonjob.Client
use daemonjob.Client.{Client, recover}
use daemonjob.Client.Operations.{FinalizerOps, exist}
use daemonjob.Client.Selectors.{daemon_cron_job_worker_jobs}
use daemonjob.Reconcile.Contents.{Contents, HasWorkers, without_orphans, delete_orphans_swept}
use daemonjob.Reconcile.DaemonJob.Cleanup.{list_all}
use daemonjob.Reconcile.DaemonCronJob.{
  DaemonCronJobReconciler, cron_broadcast_args, failed, cron_status_of, apply_cron_job,
  add_cron_finalizer, delete_cron_worker_jobs, reconcile_cron_live,
}
use daemonjob.Reconcile.DaemonCronJob.Available.{Reports, update_cron_status-Reports}

module _ {X : Type 0} where
  -- The CronJob after ctrl.CreateOrUpdate: one that is there gets the owner and is otherwise left as it
  -- is; where there is none, the new one is created.
  abbrev pub owned_cron_job : (CronJob X → List OwnerReference) → CronJob X → CronJob X
  owned_cron_job owners j = record j {
    metadata = record j.metadata { owner_references = owners j };
  }

  abbrev pub applied_cron_job :
      (CronJob X → List OwnerReference) → CronJob X → Option (CronJob X) → CronJob X
  applied_cron_job owners new none = owned_cron_job owners new
  applied_cron_job owners new (some old) = owned_cron_job owners old

-- An API server without failures and other actors, with `contents` at each state.
pub record IsCronJobStore {X W E : Type 0} (c : Client X W E) (r : DaemonCronJobReconciler)
    (d : DaemonCronJob X) (contents : W → Contents X (CronJob X)) : Type 0 where
  pub has_workers : HasWorkers c contents
  pub list_nodes : (w : W) → c.list Client.node list_all w ≡ (ok (contents w).nodes, w)
  pub list_workers :
      (w : W)
      → c.list Client.job (daemon_cron_job_worker_jobs d.metadata.namespace d.metadata.name) w
        ≡ (ok (contents w).workers, w)
  pub account_exists :
      (w : W)
      → exist c Client.service_account
          (service_account (cron_broadcast_args r d)).metadata.namespace
          (service_account (cron_broadcast_args r d)).metadata.name
          w
        ≡ (ok (contents w).account, w)
  pub binding_exists :
      (w : W)
      → exist c Client.cluster_role_binding
          (cluster_role_binding (cron_broadcast_args r d)).metadata.namespace
          (cluster_role_binding (cron_broadcast_args r d)).metadata.name
          w
        ≡ (ok (contents w).binding, w)
  pub cron_job_exists :
      (w : W)
      → exist c Client.cron_job d.metadata.namespace (cron_job_name (cron_broadcast_args r d)) w
        ≡ (ok (is_some (contents w).broadcast), w)
  pub account_applied :
      (w : W)
      → (w' : W) × (c.create_or_update
            (some (Client.daemon_cron_job, d.metadata))
            Client.service_account
            (service_account (cron_broadcast_args r d))
            w
          ≡ (ok tt, w'))
        × (contents w' ≡ record (contents w) { account = true })
  pub binding_applied :
      (w : W)
      → (w' : W) × (c.create_or_update none Client.cluster_role_binding
            (cluster_role_binding (cron_broadcast_args r d))
            w
          ≡ (ok tt, w'))
        × (contents w' ≡ record (contents w) { binding = true })
  pub owners : CronJob X → List OwnerReference
  pub cron_job_applied :
      (j : CronJob X) (w : W)
      → j.metadata.namespace ≡ d.metadata.namespace
      → j.metadata.name ≡ cron_job_name (cron_broadcast_args r d)
      → (w' : W) × (c.create_or_update
            (some (Client.daemon_cron_job, d.metadata))
            Client.cron_job
            j
            w
          ≡ (ok tt, w'))
        × (contents w' ≡ record (contents w) {
          broadcast = some (applied_cron_job owners j (contents w).broadcast);
        })

module _ {X W E : Type 0} (c : Client X W E) (ops : FinalizerOps X) (ssc : SetStatusCondition)
    (r : DaemonCronJobReconciler) (d : DaemonCronJob X) (contents : W → Contents X (CronJob X))
    (store : IsCronJobStore c r d contents) (m : StringMap)
    (labels : d.spec.cron_job_template.metadata.labels ≡ some m) where
  cleanup-swept :
      (w : W)
      → (w' : W) × (delete_cron_worker_jobs c d w ≡ (ok tt, w'))
        × (contents w' ≡ without_orphans (contents w))
  unfolding delete_cron_worker_jobs
  cleanup-swept w =
      let (w', called, left) = delete_orphans_swept c contents store.has_workers w in
      (w', rw (store.list_nodes w, store.list_workers w) called, left)

  -- The CronJob that the DaemonCronJob stands for
  abbrev pub new_cron_job : CronJob X
  new_cron_job =
      build_cron_job (cron_broadcast_args r d) (shared_labels (cron_broadcast_args r d) m)

  -- The DaemonCronJob as the call of CronJob leaves it
  abbrev relabelled : DaemonCronJob X
  relabelled = relabel d (shared_labels (cron_broadcast_args r d) m)

  abbrev with_all : Contents X (CronJob X) → Contents X (CronJob X)
  with_all x = record x {
    account = true;
    binding = true;
    broadcast = some (applied_cron_job store.owners new_cron_job x.broadcast);
  }

  -- What one reconcile makes of the contents
  abbrev pub settled : Contents X (CronJob X) → Contents X (CronJob X)
  settled x = with_all (without_orphans x)

  apply-settled :
      (w : W)
      → (w' : W) × (apply_cron_job c r d w ≡ (ok relabelled, w'))
        × (contents w' ≡ with_all (contents w))
  unfolding apply_cron_job
  apply-settled w =
      let (w1, called1, left1) = store.account_applied w in
      let (w2, called2, left2) = store.binding_applied w1 in
      let (w3, called3, left3) = store.cron_job_applied new_cron_job w2 refl refl in
      (
        w3,
        rw (called1) (
            rw (called2)
              (rw (cron_job-some (cron_broadcast_args r d) m labels) (rw (called3) refl))),
        rw (left3, left2, left1) refl,
      )

  -- Against an API server without failures and other actors: a reconcile of a DaemonCronJob whose
  -- template has labels and that is not being deleted, after its finalizer is there, deletes exactly
  -- the worker Jobs whose node is gone, makes the ServiceAccount, the ClusterRoleBinding and the
  -- CronJob where they are missing, leaves a CronJob that is there as it is but for its owner, even
  -- where the schedule or the template has changed, and ends with one write of the status, which is
  -- Available and not Degraded.
  pub reconcile_cron_live-settles :
      (laws : ConditionLaws ssc) (d0 : DaemonCronJob X) (w0 w : W)
      → add_cron_finalizer c r ssc ops d0 w0 ≡ (ok d, w)
      → IsExclusive (cron_status_of d)
      → (w' : W) × (d' : DaemonCronJob X) × (reconcile_cron_live c r ssc ops d0 w0
          ≡ recover failed (c.update_status Client.daemon_cron_job d' w'))
        × (contents w' ≡ settled (contents w))
        × (d'.metadata ≡ d.metadata)
        × Reports ssc laws d'.conditions true
  unfolding reconcile_cron_live service_account cluster_role_binding resource_name
  reconcile_cron_live-settles laws d0 w0 w added exclusive =
      let (w1, cleaned, left1) = cleanup-swept w in
      let (w2, applied, left2) = apply-settled w1 in
      let left : contents w2 ≡ settled (contents w) = rw (left2, left1) refl in
      let (d', written, same, reports) =
        update_cron_status-Reports ssc laws c r relabelled w2
          (shared_labels (cron_broadcast_args r d) m) (contents w2).account (contents w2).binding
          true exclusive refl (store.account_exists w2) (store.binding_exists w2)
          (store.cron_job_exists w2 ∙ ap (λ x. (ok (is_some x.broadcast), w2)) left) in
      (w2, d', rw (added) (rw (cleaned) (rw (applied) written)), left, same, reports)
