-- ===== src/Reconcile/DaemonJob/Cleanup.antt =====
-- What the reconciler of a DaemonJob deletes: onDelete and deleteWorkerJobsOnNotExistNode.
use daemonjob.Prelude.{
  String, Bool, false, not, Option, none, some, List, [], ◌∷◌, map, contains, if◌then◌else◌,
}
use daemonjob.StringMap.{empty, get}
use daemonjob.Kube.{Job}
use daemonjob.Api.{DaemonJob}
use daemonjob.Resources.Constants.{label_node}
use daemonjob.Resources.DaemonJob.{or_empty}
use daemonjob.Client
use daemonjob.Client.{Client, Call, pure, ◌>>=◌, ◌>>◌}
use daemonjob.Client.Selectors.{
  ListOptions, daemon_job_cluster_role_bindings, daemon_job_worker_jobs,
}
use daemonjob.Client.Operations.{delete_each}

-- List without options
abbrev pub list_all : ListOptions
list_all = record { namespace = ""; selector = empty }

-- A Job with a node label is deleted where the node is not in the list, one without it never.
abbrev pub is_gone : List String → Option String → Bool
is_gone nodes none = false
is_gone nodes (some node) = not (contains nodes node)

abbrev pub is_orphan : {X : Type 0} → List String → Job X → Bool
is_orphan nodes j = is_gone nodes (get (or_empty j.metadata.labels) label_node)

module _ {X W E : Type 0} (c : Client X W E) where
  unfoldable pub on_delete : DaemonJob X → Call W E (Unit {0})
  on_delete d = do
    crbs ←
        c.list Client.cluster_role_binding
          (daemon_job_cluster_role_bindings d.metadata.namespace d.metadata.name)
    delete_each c Client.cluster_role_binding crbs

  unfoldable pub delete_orphans : List String → List (Job X) → Call W E (Unit {0})
  delete_orphans nodes [] = pure tt
  delete_orphans nodes (j ∷ js) =
      let rest = delete_orphans nodes js in
      if is_orphan nodes j then c.delete Client.job j >> rest else rest

  unfoldable pub delete_worker_jobs_on_not_exist_node : DaemonJob X → Call W E (Unit {0})
  unfolding delete_orphans
  delete_worker_jobs_on_not_exist_node d = do
    nodes ← c.list Client.node list_all
    jobs ← c.list Client.job (daemon_job_worker_jobs d.metadata.namespace d.metadata.name)
    delete_orphans (map (λ n. n.name) nodes) jobs
