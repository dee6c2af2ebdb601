-- ===== src/Samples.antt =====
-- Concrete objects: a node, templates, custom resources and the arguments built from them.
pub mod Conditions
mod Resources
mod Worker
mod Cluster
mod Runs
mod Nightly
mod Goroutines
mod Preview
mod Tool
mod Piped
mod Converge
mod Settle
mod SettleCron
mod Finished
mod Lifecycle
mod Limits
mod Again
mod Startup
mod Nodes
use daemonjob.Prelude.{
  ℕ, String, Bool, refl, false, none, some, Option, List, [], ◌∷◌, ◌==◌, ◌||◌, ◌<>◌,
}
use daemonjob.StringMap.{StringMap, empty, insert}
use daemonjob.Kube.{
  TypeMeta, ObjectMeta, PodSpec, PodTemplateSpec, JobSpec, JobTemplateSpec, CronJobSpec, Affinity,
  NodeSelectorTerm, NodeSelectorRequirement, Toleration, ContainerStatus, PodStatus,
}
use daemonjob.Api.{
  BroadcastJobSpec, TemplateMeta, DaemonJobTemplateSpec, DaemonJobSpec, DaemonJob,
  CronJobTemplateSpec, DaemonCronJob, DaemonCronJobSet,
}
use daemonjob.Resources.Constants.{zero_type_meta, zero_meta}
use daemonjob.Resources.DaemonJob.{DaemonJobBroadcastArgs}
use daemonjob.Resources.DaemonCronJob.{DaemonCronJobBroadcastArgs}
use daemonjob.Broadcast.Config.{Config}
use daemonjob.Scheduling.{TermMatch, MatchesNames}

abbrev pub meta : String → String → ObjectMeta ℕ
meta namespace name = record (zero_meta {X = ℕ}) { namespace = namespace; name = name }

abbrev pub pod_spec : Option (Affinity ℕ) → PodSpec ℕ
pod_spec affinity = record {
  restart_policy = "Never";
  service_account_name = "";
  security_context = none;
  affinity = affinity;
  image_pull_secrets = [];
  node_name = "";
  node_selector = none;
  preemption_policy = none;
  priority = none;
  priority_class_name = "";
  scheduler_name = "";
  tolerations = [];
  topology_spread_constraints = [];
  volumes = [];
  containers = [];
  other = some 7;
}

abbrev pub job_spec : JobSpec ℕ
job_spec = record {
  backoff_limit = none;
  selector = none;
  template = record {
    labels = some (insert empty "app" "backup");
    annotations = none;
    other = none;
    spec = pod_spec none;
  };
  other = none;
}

abbrev pub broadcast_spec : BroadcastJobSpec ℕ
broadcast_spec = record {
  affinity = none;
  image_pull_secrets = [];
  node_name = "";
  node_selector = none;
  preemption_policy = none;
  priority = none;
  priority_class_name = "";
  resources = none;
  scheduler_name = "";
  tolerations = [];
  topology_spread_constraints = [];
}

abbrev pub daemon_job_spec : DaemonJobSpec ℕ
daemon_job_spec = record {
  job_template = record {
    metadata = record { labels = some (insert empty "team" "ops"); annotations = none };
    spec = job_spec;
  };
  node_selector = some (insert empty "zone" "a");
  broadcast_job_spec = broadcast_spec;
}

abbrev pub daemon_job : String → String → DaemonJob ℕ
daemon_job namespace name = record {
  type_meta = zero_type_meta;
  metadata = meta namespace name;
  spec = daemon_job_spec;
  status = record { conditions = []; state = "" };
}

abbrev pub daemon_job_args : String → String → DaemonJobBroadcastArgs ℕ
daemon_job_args namespace name = record {
  daemon_job = daemon_job namespace name;
  cluster_role_name = "broadcast-role";
  image = "broadcast:1";
}

abbrev pub cron_job_spec : CronJobSpec ℕ
cron_job_spec = record {
  schedule = "0 * * * *";
  time_zone = none;
  starting_deadline_seconds = none;
  concurrency_policy = "Forbid";
  suspend = none;
  job_template = record {
    labels = some (insert empty "team" "ops");
    annotations = none;
    other = none;
    spec = job_spec;
  };
  successful_jobs_history_limit = none;
  failed_jobs_history_limit = none;
}

-- With the labels of the cron job template
abbrev pub daemon_cron_job_args : Option StringMap → DaemonCronJobBroadcastArgs ℕ
daemon_cron_job_args labels = record {
  daemon_cron_job = record {
    type_meta = zero_type_meta;
    metadata = meta "jobs" "nightly";
    spec = record {
      cron_job_template = record {
        metadata = record { labels = labels; annotations = none };
        spec = cron_job_spec;
      };
      node_selector = none;
      broadcast_job_spec = broadcast_spec;
    };
    conditions = [];
  };
  cluster_role_name = "broadcast-role";
  image = "broadcast:1";
}

abbrev pub daemon_cron_job_set : DaemonCronJobSet ℕ
daemon_cron_job_set = record {
  type_meta = zero_type_meta;
  metadata = meta "jobs" "rotate";
  spec = record {
    cron_job_template = record {
      metadata = record { labels = none; annotations = none };
      spec = cron_job_spec;
    };
    node_selector = none;
  };
  status = record { conditions = []; desired = 0; available = 0 };
}

abbrev pub config : String → String → Config
config daemon_job_name daemon_cron_job_name = record {
  self_name = "backup-dj";
  namespace = "jobs";
  daemon_job_name = daemon_job_name;
  daemon_cron_job_name = daemon_cron_job_name;
  controller_uid = "0f3c";
}

-- A matcher that knows the field terms of one name only.
abbrev meets_values : List String → String → Bool
meets_values [] n = false
meets_values (v ∷ vs) n = v == n

abbrev meets_fields : List NodeSelectorRequirement → String → Bool
meets_fields [] n = false
meets_fields (r ∷ rs) n = meets_values r.values n

abbrev pub meets : TermMatch
meets t n = meets_fields t.match_fields n

pub meets-MatchesNames : MatchesNames meets
meets-MatchesNames = record { by_name = λ node n. refl }
