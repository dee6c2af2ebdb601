-- ===== src/Reconcile/DaemonJob/Finished.antt =====
-- The end of a DaemonJob that is being deleted.
use daemonjob.Prelude.{◌≡◌, refl, true, Bool, List, delete_func, ◌↔◌}
use daemonjob.Kube.{ClusterRoleBinding}
use daemonjob.Api.{DaemonJob}
use daemonjob.Status.{SetStatusCondition}
use daemonjob.Client
use daemonjob.Client.{Client, continue, pure}
use daemonjob.Client.Selectors.{daemon_job_cluster_role_bindings}
use daemonjob.Client.Operations.{FinalizerOps}
use daemonjob.Resources.DaemonJob.{cluster_role_binding}
use daemonjob.Resources.DaemonJob.Labels.{cluster_role_binding-selected}
use daemonjob.Resources.DaemonJob.{or_empty}
use daemonjob.StringMap.{Selects}
use daemonjob.Reconcile.Bindings.{belongs, belongs-Selects, IsBindingStore, delete_each_bindings}
use daemonjob.Reconcile.DaemonJob.{DaemonJobReconciler, broadcast_args, reconciler_finalizer}
use daemonjob.Reconcile.DaemonJob.Cleanup.{on_delete}
use daemonjob.Reconcile.DaemonJob.Cycle.{remove_finalizer_if_exist, reconcile_deleted}

module _ {X : Type 0} (d : DaemonJob X) where
  -- The ClusterRoleBindings with the role "broadcast" and the namespace and the name of this one
  abbrev pub is_own : ClusterRoleBinding X → Bool
  is_own b =
      belongs "daemonjob.berquerant.github.io/daemonjob-name" d.metadata.namespace d.metadata.name
        b.metadata.labels

  is_own-Selects :
      (b : ClusterRoleBinding X)
      → (is_own b ≡ true)
        ↔ Selects
            (daemon_job_cluster_role_bindings d.metadata.namespace d.metadata.name).selector
            (or_empty b.metadata.labels)
  unfolding daemon_job_cluster_role_bindings
  is_own-Selects b = belongs-Selects _ _ _ b.metadata.labels refl refl

module _ {X W E : Type 0} (c : Client X W E) (ops : FinalizerOps X) (ssc : SetStatusCondition)
    (r : DaemonJobReconciler) (d : DaemonJob X) (bindings : W → List (ClusterRoleBinding X))
    (store : IsBindingStore c
      (daemon_job_cluster_role_bindings d.metadata.namespace d.metadata.name)
      bindings) where
  -- Against an API server without failures and other actors: the reconcile of a deleted DaemonJob
  -- that holds the finalizer deletes exactly the ClusterRoleBindings with the labels of its broadcast
  -- (the role, its namespace and its name), among them the one that the reconciler makes for it, and
  -- then makes one update, which takes the finalizer from it and changes nothing else of it.
  pub reconcile_deleted-finishes :
      (w : W)
      → ops.contains_finalizer d.metadata reconciler_finalizer ≡ true
      → (w' : W) × (reconcile_deleted c ops ssc r d w
          ≡ continue
              (λ _. pure tt)
              (c.update Client.daemon_job
                (record d { metadata = ops.remove_finalizer d.metadata reconciler_finalizer })
                w'))
        × (bindings w' ≡ delete_func (is_own d) (bindings w))
        × (is_own d (cluster_role_binding (broadcast_args r d)) ≡ true)
  unfolding reconcile_deleted on_delete remove_finalizer_if_exist
  reconcile_deleted-finishes w held =
      let (w', called, left) =
        delete_each_bindings c
          (daemon_job_cluster_role_bindings d.metadata.namespace d.metadata.name) bindings store
          (is_own d) (is_own-Selects d) w in
      (
        w',
        rw (held) (rw (store.lists w) (rw (called) refl)),
        left,
        (is_own-Selects d (cluster_role_binding (broadcast_args r d))).1 (
            (cluster_role_binding-selected (broadcast_args r d) d.metadata.namespace
                d.metadata.name).1
              (refl, refl)),
      )
