-- ===== src/Samples/Finished.antt =====
-- A deleted DaemonJob with two ClusterRoleBindings.
use daemonjob.Prelude.{ℕ, String, ◌≡◌, refl, some, true, not, Bool, List, [], ◌∷◌, delete_func}
use daemonjob.Result.{ok}
use daemonjob.StringMap.{insert, empty}
use daemonjob.Resources.Constants.{label_role, label_namespace, label_daemon_job_name}
use daemonjob.Kube.{ClusterRoleBinding}
use daemonjob.Client
use daemonjob.Client.{Client, Kind, Object, continue, pure}
use daemonjob.Client.Selectors.{daemon_job_cluster_role_bindings}
use daemonjob.Resources.DaemonJob.{cluster_role_binding}
use daemonjob.Reconcile.DaemonJob.{broadcast_args}
use daemonjob.Reconcile.Sweep.{named, Distinct}
use daemonjob.Reconcile.Sweep.Tally.{Distinct-delete_func}
use daemonjob.Reconcile.Bindings.{IsBindingStore, binding_name_of, belongs, belongs-Selects}
use daemonjob.Reconcile.DaemonJob.Cycle.{reconcile_deleted}
use daemonjob.Reconcile.DaemonJob.Finished.{is_own, reconcile_deleted-finishes}
use daemonjob.Samples.{daemon_job, meta}
use daemonjob.Samples.Conditions.{set_condition}
use daemonjob.Samples.Cluster.{finalizers, a_binding, get_object, list_objects}
use daemonjob.Samples.Runs.{reconciler, dying}

record Store : Type 0 where
  bindings : List (ClusterRoleBinding ℕ)
  distinct : Distinct binding_name_of bindings

-- What the selector of the DaemonJob's ClusterRoleBindings finds
abbrev mine : ClusterRoleBinding ℕ → Bool
mine b = belongs "daemonjob.berquerant.github.io/daemonjob-name" "jobs" "backup" b.metadata.labels

abbrev list_in : Store → (k : Kind) → List (Object ℕ k)
list_in w Client.cluster_role_binding = delete_func (λ b. not (mine b)) w.bindings
list_in w k = list_objects k

abbrev delete_in : (k : Kind) → Object ℕ k → Store → Store
delete_in Client.cluster_role_binding b w = record {
  bindings = delete_func (named binding_name_of b.metadata.name) w.bindings;
  distinct =
      Distinct-delete_func binding_name_of (named binding_name_of b.metadata.name) w.bindings
        w.distinct;
}
delete_in k o w = w

abbrev server : Client ℕ Store String
server = record {
  is_not_found = λ e. true;
  get = λ k namespace name w. (get_object k, w);
  list = λ k o w. (ok (list_in w k), w);
  create = λ dry k o w. (ok tt, w);
  update = λ k o w. (ok o, w);
  update_status = λ k o w. (ok tt, w);
  delete = λ k o w. (ok tt, delete_in k o w);
  create_or_update = λ owner k o w. (ok tt, w);
}

server-IsBindingStore :
    IsBindingStore server (daemon_job_cluster_role_bindings "jobs" "backup") (λ w. w.bindings)
unfolding daemon_job_cluster_role_bindings
server-IsBindingStore = record {
  distinct = λ w. w.distinct;
  finds = mine;
  found = λ b. belongs-Selects _ _ _ b.metadata.labels refl refl;
  lists = λ w. refl;
  deletes = λ b w there. (delete_in Client.cluster_role_binding b w, refl, refl);
}

-- The DaemonJob's own, and one of another
abbrev two_bindings : Store
two_bindings = record {
  bindings =
      record a_binding {
        metadata = record (meta "" "jobs-backup-dj") {
          labels = some (
              insert (insert (insert empty label_role "broadcast") label_daemon_job_name "backup")
                label_namespace "jobs");
        };
      }
      ∷ record a_binding { metadata = meta "" "another" }
      ∷ [];
  distinct = (refl, (refl, tt));
}

reconcile_deleted-finishes_example :
    (w' : Store) × (reconcile_deleted server finalizers set_condition reconciler dying two_bindings
      ≡ continue (λ _. pure tt) (server.update Client.daemon_job (daemon_job "jobs" "backup") w'))
    × (w'.bindings ≡ delete_func (is_own dying) two_bindings.bindings)
    × (is_own dying (cluster_role_binding (broadcast_args reconciler dying)) ≡ true)
reconcile_deleted-finishes_example =
    reconcile_deleted-finishes server finalizers set_condition reconciler dying (λ w. w.bindings)
      server-IsBindingStore two_bindings refl
