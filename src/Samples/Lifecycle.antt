-- ===== src/Samples/Lifecycle.antt =====
-- The broadcast of a DaemonJob in its pod, in the cluster in memory.
use daemonjob.Prelude.{ℕ, true, refl, List, [], ◌∷◌}
use daemonjob.StringMap.{get_unique}
use daemonjob.Result.{ok}
use daemonjob.Kube.{Job, OwnerReference}
use daemonjob.Resources.DaemonJob
use daemonjob.Broadcast.Main.{new_runner, broadcast_main}
use daemonjob.Broadcast.Pod.{PodFields, pod_env, template_owner}
use daemonjob.Reconcile.DaemonJob.{broadcast_args}
use daemonjob.Reconcile.DaemonJob.Converge.{owned_job}
use daemonjob.Lifecycle.{Broadcasts, broadcast_main-Broadcasts}
use daemonjob.Samples.Cluster.{cluster, fresh, a_node}
use daemonjob.Samples.Preview.{pod_field}
use daemonjob.Samples.Runs.{Stored, connect, connect-IsStored, reconciler, steady}

abbrev no_owners : Job ℕ → List OwnerReference
no_owners j = []

abbrev applied : Job ℕ
applied = owned_job no_owners (DaemonJob.job (broadcast_args reconciler steady))

applied-PodFields : PodFields applied "7c1e" pod_field
unfolding DaemonJob.job DaemonJob.resource_name
applied-PodFields = record {
  job_name = refl;
  controller_uid = refl;
  namespace = refl;
  label = λ v e. get_unique _ _ _ _ (template_owner (broadcast_args reconciler steady)) e;
}

broadcast_main-Broadcasts_example :
    Broadcasts
      (ok 0)
      connect
      (λ e. e)
      (λ e. e)
      (λ t. t)
      true
      Stored
      (cluster (ok tt))
      reconciler
      steady
      "7c1e"
      (a_node "n1" ∷ a_node "n2" ∷ [])
      fresh
      (broadcast_main
        (ok 0)
        connect
        (λ e. e)
        (λ e. e)
        (λ t. t)
        true
        (pod_env applied pod_field)
        fresh)
unfolding new_runner
broadcast_main-Broadcasts_example =
    broadcast_main-Broadcasts (ok 0) connect (λ e. e) (λ e. e) (λ t. t) true Stored
      (cluster (ok tt)) reconciler steady "7c1e" no_owners pod_field
      (a_node "n1" ∷ a_node "n2" ∷ []) fresh fresh fresh connect-IsStored refl refl refl
      applied-PodFields refl refl
