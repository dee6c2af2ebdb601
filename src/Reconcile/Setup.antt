-- ===== src/Reconcile/Setup.antt =====
-- The three SetupWithManager: what each controller is registered for. The builder of
-- controller-runtime, which gets this, is a parameter of cmd/controller.
use daemonjob.Prelude.{String, Bool, true, false, Option, is_some, List, [], ◌∷◌}
use daemonjob.StringMap.{StringMap}
use daemonjob.Kube.{ObjectMeta}
use daemonjob.Resources.Constants.{label_daemon_job_name}
use daemonjob.Client
use daemonjob.Client.{Client, Kind}
use daemonjob.Reconcile.Watches.{Request, owner_of}
use daemonjob.Reconcile.DaemonJob.Watch.{named_request, node_deleted}
use daemonjob.Reconcile.DaemonCronJob.Watch.{cron_node_deleted}
use daemonjob.Reconcile.DaemonCronJobSet.Watch.{
  NodeEvent, created, deleted, generic, updated, passes, node_changed,
}

-- Watches(&Kind{}, handler.EnqueueRequestsFromMapFunc(...), builder.WithPredicates(...))
pub record Watch (X W : Type 0) : Type 0 where
  pub kind : Kind
  pub requests : ObjectMeta X → W → List Request × W
  pub predicate : NodeEvent → Bool

-- For, Named, Owns and Watches
pub record Registration (X W : Type 0) : Type 0 where
  pub for_kind : Kind
  pub name : String
  pub owns : List Kind
  pub watches : List (Watch X W)

-- Without predicates
abbrev every_event : NodeEvent → Bool
every_event e = true

-- The predicates of the watch on nodes of the first two controllers
abbrev pub only_deleted : NodeEvent → Bool
only_deleted (updated before after) = false
only_deleted created = false
only_deleted deleted = true
only_deleted generic = false

module _ {X W E : Type 0} (c : Client X W E) where
  unfoldable pub setup_daemon_job : Registration X W
  setup_daemon_job = record {
    for_kind = Client.daemon_job;
    name = "daemonjob";
    owns = Client.service_account ∷ Client.cluster_role_binding ∷ [];
    watches =
        record {
          kind = Client.job;
          requests = λ m w. (named_request m.namespace (owner_of label_daemon_job_name m), w);
          predicate = every_event;
        }
        ∷ record {
          kind = Client.node;
          requests = λ m w. node_deleted c m.name w;
          predicate = only_deleted;
        }
        ∷ [];
  }

  unfoldable pub setup_daemon_cron_job : Registration X W
  setup_daemon_cron_job = record {
    for_kind = Client.daemon_cron_job;
    name = "daemoncronjob";
    owns = Client.service_account ∷ Client.cluster_role_binding ∷ Client.cron_job ∷ [];
    watches =
        record {
          kind = Client.node;
          requests = λ m w. cron_node_deleted c m.name w;
          predicate = only_deleted;
        }
        ∷ [];
  }

  unfoldable pub setup_daemon_cron_job_set :
      (deep_equal : Option StringMap → Option StringMap → Bool) → Registration X W
  setup_daemon_cron_job_set deep_equal = record {
    for_kind = Client.daemon_cron_job_set;
    name = "daemoncronjobset";
    owns = Client.cron_job ∷ [];
    watches =
        record {
          kind = Client.node;
          requests = λ m w. node_changed c (is_some m.deletion_timestamp) m.name w;
          predicate = passes deep_equal;
        }
        ∷ [];
  }
