-- ===== src/Reconcile/DaemonJob/Converge.antt =====
-- What one reconcile of a DaemonJob makes of the cluster, and the status that it ends with.
use daemonjob.Prelude.{◌≡◌, refl, subst, true, Option, none, some, List, delete_func}
use daemonjob.Result.{ok}
use daemonjob.Kube.{Job, OwnerReference}
use daemonjob.Api.{DaemonJob}
use daemonjob.Status.{SetStatusCondition, ConditionLaws}
use daemonjob.Status.Verdict.{verdict, IsWellFormed}
use daemonjob.Resources.DaemonJob.{service_account, cluster_role_binding, job}
use daemonjob.Client
use daemonjob.Client.{Client, ◌>>◌}
use daemonjob.Client.Laws.{IsQuiet}
use daemonjob.Client.Operations.{FinalizerOps}
use daemonjob.Reconcile.Contents.{
  Contents, HasWorkers, names_of, without_orphans, delete_orphans_swept,
}
use daemonjob.Reconcile.DaemonJob.{DaemonJobReconciler, broadcast_args}
use daemonjob.Reconcile.DaemonJob.Cleanup.{
  list_all, is_orphan, delete_worker_jobs_on_not_exist_node,
}
use daemonjob.Reconcile.DaemonJob.Cycle.{apply_job, add_finalizer_if_not_exist, reconcile_live}
use daemonjob.Reconcile.DaemonJob.Report.{status_of}
use daemonjob.Reconcile.DaemonJob.Standing.{job_verdict, IsWritten}
use daemonjob.Reconcile.DaemonJob.Verdict.{IsObserved, update_status-Writes}

module _ {X : Type 0} where
  -- The same Job with other owners
  abbrev pub owned_job : (Job X → List OwnerReference) → Job X → Job X
  owned_job owners j = record j { metadata = record j.metadata { owner_references = owners j } }

  -- The broadcast Job after ctrl.CreateOrUpdate: one that is there gets the owner and is otherwise
  -- left as it is; where there is none, the new one is created.
  abbrev pub applied_job : (Job X → List OwnerReference) → Job X → Option (Job X) → Job X
  applied_job owners new none = owned_job owners new
  applied_job owners new (some old) = owned_job owners old

-- An API server without failures and other actors, with `contents` at each state, where the broadcast
-- Job is none of the worker Jobs: CreateOrUpdate makes what it is called for.
pub record IsJobStore {X W E : Type 0} (c : Client X W E) (r : DaemonJobReconciler)
    (d : DaemonJob X) (contents : W → Contents X (Job X)) : Type 0 where
  pub has_workers : HasWorkers c contents
  pub list_nodes : (w : W) → c.list Client.node list_all w ≡ (ok (contents w).nodes, w)
  pub observed :
      (w : W)
      → IsObserved c r d w
          (contents w).account
          (contents w).binding
          (contents w).broadcast
          (contents w).workers
  pub account_applied :
      (w : W)
      → (w' : W) × (c.create_or_update
            (some (Client.daemon_job, d.metadata))
            Client.service_account
            (service_account (broadcast_args r d))
            w
          ≡ (ok tt, w'))
        × (contents w' ≡ record (contents w) { account = true })
  pub binding_applied :
      (w : W)
      → (w' : W) × (c.create_or_update none Client.cluster_role_binding
            (cluster_role_binding (broadcast_args r d))
            w
          ≡ (ok tt, w'))
        × (contents w' ≡ record (contents w) { binding = true })
  pub owners : Job X → List OwnerReference
  pub job_applied :
      (w : W)
      → (w' : W) × (c.create_or_update
            (some (Client.daemon_job, d.metadata))
            Client.job
            (job (broadcast_args r d))
            w
          ≡ (ok tt, w'))
        × (contents w' ≡ record (contents w) {
          broadcast = some (applied_job owners (job (broadcast_args r d)) (contents w).broadcast);
        })

module _ {X W E : Type 0} (c : Client X W E) (ops : FinalizerOps X) (ssc : SetStatusCondition)
    (r : DaemonJobReconciler) (d : DaemonJob X) (contents : W → Contents X (Job X))
    (store : IsJobStore c r d contents) where
  cleanup-swept :
      (w : W)
      → (w' : W) × (delete_worker_jobs_on_not_exist_node c d w ≡ (ok tt, w'))
        × (contents w' ≡ without_orphans (contents w))
  unfolding delete_worker_jobs_on_not_exist_node
  cleanup-swept w =
      let (w', called, left) = delete_orphans_swept c contents store.has_workers w in
      (w', rw (store.list_nodes w, (store.observed w).workers_read) called, left)

  -- What one reconcile makes of the contents
  abbrev pub settled : Contents X (Job X) → Contents X (Job X)
  settled x = record {
    nodes = x.nodes;
    account = true;
    binding = true;
    broadcast = some (applied_job store.owners (job (broadcast_args r d)) x.broadcast);
    workers = delete_func (is_orphan (names_of x)) x.workers;
  }

  apply_job-settled :
      (w : W)
      → (w' : W) × (apply_job c ops ssc r d w ≡ (ok tt, w'))
        × (contents w' ≡ record (contents w) {
          account = true;
          binding = true;
          broadcast =
              some (applied_job store.owners (job (broadcast_args r d)) (contents w).broadcast);
        })
  unfolding apply_job
  apply_job-settled w =
      let (w1, called1, left1) = store.account_applied w in
      let (w2, called2, left2) = store.binding_applied w1 in
      let (w3, called3, left3) = store.job_applied w2 in
      (w3, rw (called1) (rw (called2) called3), rw (left3, left2, left1) refl)

  -- Against an API server without failures and other actors: a reconcile of a DaemonJob that is not
  -- being deleted, after its finalizer is there, deletes exactly the worker Jobs whose node is gone,
  -- makes the ServiceAccount, the ClusterRoleBinding and the broadcast Job where they are missing,
  -- leaves a broadcast Job that is there as it is but for its owner, and ends with one write of the
  -- status. That has the state which the broadcast Job and the remaining worker Jobs give: Degraded
  -- where the broadcast Job has failed, or is complete and a worker Job has failed; Complete where the
  -- broadcast Job and all worker Jobs are complete; and otherwise, so also while the broadcast Job is
  -- running whatever the workers do, the state before where it was Complete or Degraded, or else
  -- Progressing.
  pub reconcile_live-settles :
      (laws : ConditionLaws ssc) (quiet : IsQuiet c) (d0 : DaemonJob X) (w0 w : W)
      → add_finalizer_if_not_exist c ops ssc r d0 w0 ≡ (ok d, w)
      → IsWellFormed (status_of d)
      → (w' : W) × (d' : DaemonJob X) × (reconcile_live c ops ssc r d0 w0
          ≡ c.update_status Client.daemon_job d' w')
        × (contents w' ≡ settled (contents w))
        × IsWritten d d' (
            job_verdict
              (settled (contents w)).workers
              (settled (contents w)).broadcast
              (verdict (status_of d)))
  unfolding reconcile_live
  reconcile_live-settles laws quiet d0 w0 w added well_formed =
      let (w1, cleaned, left1) = cleanup-swept w in
      let (w2, applied, left2) = apply_job-settled w1 in
      let left : contents w2 ≡ settled (contents w) = rw (left2, left1) refl in
      let (d', written, stands) =
        update_status-Writes c r ssc laws quiet d w2 true true (settled (contents w)).broadcast
          (settled (contents w)).workers
          (subst (λ x. IsObserved c r d w2 x.account x.binding x.broadcast x.workers) left
            (store.observed w2))
          well_formed in
      (w2, d', rw (added) (rw (cleaned) (rw (applied) written)), left, stands)
