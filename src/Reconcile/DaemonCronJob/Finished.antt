-- ===== src/Reconcile/DaemonCronJob/Finished.antt =====
-- The end of a DaemonCronJob that is being deleted.
use daemonjob.Prelude.{◌≡◌, refl, true, Bool, List, delete_func, ◌↔◌}
use daemonjob.Kube.{ClusterRoleBinding}
use daemonjob.Api.{DaemonCronJob}
use daemonjob.Status.{SetStatusCondition}
use daemonjob.Client
use daemonjob.Client.{Client, continue, pure, recover}
use daemonjob.Client.Selectors.{daemon_cron_job_cluster_role_bindings}
use daemonjob.Client.Operations.{FinalizerOps}
use daemonjob.Resources.DaemonCronJob.{cluster_role_binding}
use daemonjob.Resources.DaemonCronJob.Labels.{cron_broadcast-selected}
use daemonjob.Resources.DaemonJob.{or_empty}
use daemonjob.StringMap.{Selects}
use daemonjob.Reconcile.Bindings.{belongs, belongs-Selects, IsBindingStore, delete_each_bindings}
use daemonjob.Reconcile.DaemonCronJob.{
  DaemonCronJobReconciler, failed, cron_broadcast_args, cron_finalizer, on_cron_delete,
  remove_cron_finalizer, reconcile_cron_deleted,
}

module _ {X : Type 0} (d : DaemonCronJob X) where
  -- The ClusterRoleBindings with the role "broadcast" and the namespace and the name of this one
  abbrev pub is_own : ClusterRoleBinding X → Bool
  is_own b =
      belongs "daemonjob.berquerant.github.io/daemoncronjob-name" d.metadata.namespace
        d.metadata.name b.metadata.labels

  is_own-Selects :
      (b : ClusterRoleBinding X)
      → (is_own b ≡ true)
        ↔ Selects
            (daemon_cron_job_cluster_role_bindings d.metadata.namespace d.metadata.name).selector
            (or_empty b.metadata.labels)
  unfolding daemon_cron_job_cluster_role_bindings
  is_own-Selects b = belongs-Selects _ _ _ b.metadata.labels refl refl

module _ {X W E : Type 0} (c : Client X W E) (ops : FinalizerOps X) (ssc : SetStatusCondition)
    (r : DaemonCronJobReconciler) (d : DaemonCronJob X) (bindings : W → List (ClusterRoleBinding X))
    (store : IsBindingStore c
      (daemon_cron_job_cluster_role_bindings d.metadata.namespace d.metadata.name)
      bindings) where
  -- Against an API server without failures and other actors: the reconcile of a deleted DaemonCronJob
  -- that holds the finalizer deletes exactly the ClusterRoleBindings with the labels of its broadcast
  -- (the role, its namespace and its name), among them the one that the reconciler makes for it, and
  -- then makes one update, which takes the finalizer from it and changes nothing else of it.
  pub reconcile_cron_deleted-finishes :
      (w : W)
      → ops.contains_finalizer d.metadata cron_finalizer ≡ true
      → (w' : W) × (reconcile_cron_deleted c r ssc ops d w
          ≡ continue
              (λ _. pure tt)
              (recover failed (
                c.update Client.daemon_cron_job
                  (record d { metadata = ops.remove_finalizer d.metadata cron_finalizer })
                  w')))
        × (bindings w' ≡ delete_func (is_own d) (bindings w))
        × (is_own d (cluster_role_binding (cron_broadcast_args r d)) ≡ true)
  unfolding reconcile_cron_deleted on_cron_delete remove_cron_finalizer
  reconcile_cron_deleted-finishes w held =
      let (w', called, left) =
        delete_each_bindings c
          (daemon_cron_job_cluster_role_bindings d.metadata.namespace d.metadata.name) bindings
          store (is_own d) (is_own-Selects d) w in
      (
        w',
        rw (held) (rw (store.lists w) (rw (called) refl)),
        left,
        (is_own-Selects d (cluster_role_binding (cron_broadcast_args r d))).1 (
            (cron_broadcast-selected (cron_broadcast_args r d) d.metadata.namespace
                d.metadata.name).0.1
              (refl, refl)),
      )
