-- ===== src/Ctl/Skeleton.antt =====
-- internal/daemonjobctl/skeleton.go and the defaults of constants.go: a minimal manifest of each
-- custom resource. A field that the code leaves out has its zero value.
use daemonjob.Prelude.{pos, String, none, some, [], ◌∷◌}
use daemonjob.StringMap.{empty, insert}
use daemonjob.Kube.{ObjectMeta, Container, PodSpec, JobSpec, CronJobSpec}
use daemonjob.Api.{BroadcastJobSpec, TemplateMeta, DaemonJob, DaemonCronJob, DaemonCronJobSet}
use daemonjob.Resources.Constants.{zero_meta}
use daemonjob.Ctl.Resource.{
  group_version, kind_daemon_job, kind_daemon_cron_job, kind_daemon_cron_job_set,
}
use daemonjob.Ctl.Manifest.{default_namespace}

abbrev default_label_name : String
default_label_name = "app.kubernetes.io/name"

abbrev default_container : String
default_container = "main"

abbrev default_image : String
default_image = "debian:trixie-slim"

abbrev default_shell : String
default_shell = "bash"

abbrev default_command : String
default_command = "echo Hello from node"

-- The metadata of the template; annotations are an empty map.
abbrev skeleton_template_meta : (name : String) → TemplateMeta
skeleton_template_meta name = record {
  labels = some (insert empty default_label_name name);
  annotations = some empty;
}

module _ {X : Type 0} where
  abbrev skeleton_meta : (name : String) → ObjectMeta X
  skeleton_meta name = record (zero_meta {X = X}) { name = name; namespace = default_namespace }

  abbrev skeleton_container : Container X
  skeleton_container = record {
    name = default_container;
    image = default_image;
    command = default_shell ∷ "-c" ∷ default_command ∷ [];
    env = [];
    resources = none;
    volume_mounts = [];
    security_context = none;
    other = none;
  }

  abbrev skeleton_pod_spec : PodSpec X
  skeleton_pod_spec = record {
    restart_policy = "Never";
    service_account_name = "";
    security_context = none;
    affinity = none;
    image_pull_secrets = [];
    node_name = "";
    node_selector = none;
    preemption_policy = none;
    priority = none;
    priority_class_name = "";
    scheduler_name = "";
    tolerations = [];
    topology_spread_constraints = [];
    volumes = [];
    containers = skeleton_container ∷ [];
    other = none;
  }

  abbrev skeleton_job_spec : JobSpec X
  skeleton_job_spec = record {
    backoff_limit = some (pos 0);
    selector = none;
    template = record { labels = none; annotations = none; spec = skeleton_pod_spec; other = none };
    other = none;
  }

  -- BroadcastJobSpec, which no skeleton sets
  abbrev zero_broadcast_spec : BroadcastJobSpec X
  zero_broadcast_spec = record {
    affinity = none;
    image_pull_secrets = [];
    node_name = "";
    node_selector = none;
    preemption_policy = none;
    priority = none;
    priority_class_name = "";
    resources = none;
    scheduler_name = "";
    tolerations = [];
    topology_spread_constraints = [];
  }

  unfoldable pub daemon_job_skeleton : DaemonJob X
  daemon_job_skeleton = record {
    type_meta = record { api_version = group_version; kind = kind_daemon_job };
    metadata = skeleton_meta "my-daemonjob";
    spec = record {
      node_selector = some empty;
      job_template = record {
        metadata = skeleton_template_meta "my-daemonjob";
        spec = skeleton_job_spec;
      };
      broadcast_job_spec = zero_broadcast_spec;
    };
    status = record { conditions = []; state = "" };
  }

  abbrev skeleton_cron_job_spec : CronJobSpec X
  skeleton_cron_job_spec = record {
    schedule = "*/5 * * * *";
    time_zone = none;
    starting_deadline_seconds = none;
    concurrency_policy = "";
    suspend = none;
    job_template = record {
      labels = none;
      annotations = none;
      other = none;
      spec = skeleton_job_spec;
    };
    successful_jobs_history_limit = none;
    failed_jobs_history_limit = none;
  }

  unfoldable pub daemon_cron_job_skeleton : DaemonCronJob X
  daemon_cron_job_skeleton = record {
    type_meta = record { api_version = group_version; kind = kind_daemon_cron_job };
    metadata = skeleton_meta "my-daemoncronjob";
    spec = record {
      node_selector = some empty;
      cron_job_template = record {
        metadata = skeleton_template_meta "my-daemoncronjob";
        spec = skeleton_cron_job_spec;
      };
      broadcast_job_spec = zero_broadcast_spec;
    };
    conditions = [];
  }

  unfoldable pub daemon_cron_job_set_skeleton : DaemonCronJobSet X
  daemon_cron_job_set_skeleton = record {
    type_meta = record { api_version = group_version; kind = kind_daemon_cron_job_set };
    metadata = skeleton_meta "my-daemoncronjobset";
    spec = record {
      node_selector = some empty;
      cron_job_template = record {
        metadata = skeleton_template_meta "my-daemoncronjobset";
        spec = skeleton_cron_job_spec;
      };
    };
    status = record { conditions = []; desired = 0; available = 0 };
  }
