-- ===== src/Samples/Nodes.antt =====
-- The deletion of a node that has workers of a DaemonJob and of a DaemonCronJob, and a CronJob of a
-- DaemonCronJobSet.
use daemonjob.Prelude.{
  ℕ, String, Bool, Option, some, ◌≡◌, refl, true, false, not, List, [], ◌∷◌, map, none, delete_func,
}
use daemonjob.StringMap.{StringMap, get, insert, empty, map_laws}
use daemonjob.Result.{ok}
use daemonjob.Kube.{Job, CronJob}
use daemonjob.Resources.Constants.{label_daemon_job_name, label_daemon_cron_job_name}
use daemonjob.Resources.DaemonCronJobSet.{new_cron_job_for_node}
use daemonjob.Client
use daemonjob.Client.{Client, Kind, Object}
use daemonjob.Reconcile.DaemonJob.Watch.{node_deleted}
use daemonjob.Reconcile.DaemonCronJob.Watch.{cron_node_deleted}
use daemonjob.Reconcile.DaemonCronJobSet.Watch.{
  NodeEvent, generic, updated, Matters, node_event, node_event-requests, set_request,
}
use daemonjob.Reconcile.Watches.Workers.{
  Origin, worker_of, is_cron, origin_request, node_deleted-workers,
}
use daemonjob.Samples.{config, daemon_job_spec, daemon_cron_job_set}
use daemonjob.Samples.Cluster.{World, condition, fresh, cluster, list_objects}

abbrev origins : List (Origin ℕ)
origins =
    record { config = config "backup" ""; node = "n1"; spec = daemon_job_spec }
    ∷ record { config = config "" "nightly"; node = "n1"; spec = daemon_job_spec }
    ∷ []

-- As the API server has it: with a selector, and at its end with a condition
abbrev stored : Origin ℕ → Job ℕ
stored o = record (worker_of o) {
  conditions = condition "Complete" ∷ [];
  spec = record (worker_of o).spec { selector = some 1 };
}

abbrev pairs : List (Origin ℕ × Job ℕ)
pairs = map (λ o. (o, stored o)) origins

-- With its owner
abbrev owned : CronJob ℕ
owned = record (new_cron_job_for_node daemon_cron_job_set "n1") {
  metadata = record (new_cron_job_for_node daemon_cron_job_set "n1").metadata {
    owner_references =
        record {
          api_version = "daemonjob.berquerant.github.io/v1";
          kind = "DaemonCronJobSet";
          name = "rotate";
          uid = "7";
          controller = some true;
          block_owner_deletion = some true;
        }
        ∷ [];
  };
}

abbrev listed : (k : Kind) → List (Object ℕ k)
listed Client.job = map (λ p. p.1) pairs
listed Client.cron_job = owned ∷ []
listed Client.daemon_cron_job_set = daemon_cron_job_set ∷ daemon_cron_job_set ∷ []
listed k = list_objects k

abbrev busy : Client ℕ World String
busy = record (cluster (ok tt)) { list = λ k o w. (ok (listed k), w) }

spec-unowned :
    (get (insert empty "team" "ops") label_daemon_job_name ≡ none)
    × (get (insert empty "team" "ops") label_daemon_cron_job_name ≡ none)
spec-unowned = (simp map_laws, simp map_laws)

node_deleted-workers_example :
    (node_deleted busy "n1" fresh ≡ (map origin_request (delete_func is_cron origins), fresh))
    × (cron_node_deleted busy "n1" fresh
        ≡ (map origin_request (delete_func (λ o. not (is_cron o)) origins), fresh))
node_deleted-workers_example =
    node_deleted-workers busy "n1" fresh fresh pairs
      ((spec-unowned, (refl, refl)), ((spec-unowned, (refl, refl)), tt)) refl

-- The labels are never found to be the same.
abbrev differ : Option StringMap → Option StringMap → Bool
differ before after = false

node_event-requests_example :
    ((e : NodeEvent)
      → Matters differ e
      → (node_event busy differ e true "n1" fresh ≡ (set_request daemon_cron_job_set ∷ [], fresh))
        × (node_event busy differ e false "n1" fresh
            ≡ (set_request daemon_cron_job_set ∷ set_request daemon_cron_job_set ∷ [], fresh)))
    × ((deleting : Bool) → node_event busy differ generic deleting "n1" fresh ≡ ([], fresh))
    × ((before after : Option StringMap) (deleting : Bool)
        → differ before after ≡ true
        → node_event busy differ (updated before after) deleting "n1" fresh ≡ ([], fresh))
node_event-requests_example =
    node_event-requests busy differ "n1" fresh fresh (((daemon_cron_job_set, "n1"), owned) ∷ [])
      (daemon_cron_job_set ∷ daemon_cron_job_set ∷ []) ((refl, refl), tt) refl refl
