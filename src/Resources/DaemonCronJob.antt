-- ===== src/Resources/DaemonCronJob.antt =====
-- internal/controller/daemoncronjob.go: the objects behind a DaemonCronJob.
pub mod Labels
use daemonjob.Prelude.{
  String, ◌<>◌, Bool, Option, none, some, List, [], ◌∷◌, ◌++◌, ◌==◌, delete_func, Outcome, panicked,
  returned,
}
use daemonjob.StringMap.{StringMap, empty, insert, remove, copy, copy_into, get_or_zero}
use daemonjob.Kube.{
  ObjectMeta, EnvVar, Container, PodTemplateSpec, Job, CronJob, CronJobSpec, ServiceAccount,
  ClusterRoleBinding, Subject,
}
use daemonjob.Api.{DaemonJob, DaemonCronJob, BroadcastJobSpec}
use daemonjob.Resources.Constants.{
  label_daemon_job_name, label_daemon_cron_job_name, label_instance, env_daemon_job_name,
  env_daemon_cron_job_name, daemon_cron_job_suffix, zero_type_meta, zero_meta, label_field_path,
}
use daemonjob.Resources.DaemonJob
use daemonjob.Resources.DaemonJob.{DaemonJobBroadcastArgs, or_empty, field_env}

pub record DaemonCronJobBroadcastArgs (X : Type 0) : Type 0 where
  pub daemon_cron_job : DaemonCronJob X
  pub cluster_role_name : String
  pub image : String

-- x.Subjects[0].Name = name
abbrev rename_first : String → List Subject → List Subject
rename_first name [] = []
rename_first name (s ∷ ss) = record s { name = name } ∷ ss

module _ {X : Type 0} where
  unfoldable pub as_daemon_job : DaemonCronJobBroadcastArgs X → DaemonJob X
  as_daemon_job a =
      let d = a.daemon_cron_job in
      let job_template = d.spec.cron_job_template.spec.job_template in
      record {
        type_meta = zero_type_meta;
        metadata = record (zero_meta {X = X}) {
          name = d.metadata.name;
          namespace = d.metadata.namespace;
          labels = d.metadata.labels;
          annotations = d.metadata.annotations;
        };
        spec = record {
          job_template = record {
            metadata = record {
              labels = job_template.labels;
              annotations = job_template.annotations;
            };
            spec = job_template.spec;
          };
          node_selector = d.spec.node_selector;
          broadcast_job_spec = d.spec.broadcast_job_spec;
        };
        status = record { conditions = []; state = "" };
      }

  unfoldable pub daemon_job_args : DaemonCronJobBroadcastArgs X → DaemonJobBroadcastArgs X
  unfolding as_daemon_job
  daemon_job_args a = record {
    daemon_job = as_daemon_job a;
    cluster_role_name = a.cluster_role_name;
    image = a.image;
  }

  -- fixCommonLabels: the map is changed in place, here returned.
  unfoldable pub fix_common_labels : DaemonCronJobBroadcastArgs X → StringMap → StringMap
  fix_common_labels a d =
      let d1 = remove d label_daemon_job_name in
      let d2 = insert d1 label_daemon_cron_job_name a.daemon_cron_job.metadata.name in
      insert d2 label_instance (get_or_zero d2 label_daemon_cron_job_name)

  abbrev fix_labels : DaemonCronJobBroadcastArgs X → Option StringMap → Option StringMap
  fix_labels a none = none
  fix_labels a (some m) = some (fix_common_labels a m)

  unfoldable pub resource_name : DaemonCronJobBroadcastArgs X → String
  resource_name a = a.daemon_cron_job.metadata.name <> ("-" <> daemon_cron_job_suffix)

  abbrev pub job_name : DaemonCronJobBroadcastArgs X → String
  job_name a = resource_name a

  abbrev pub cron_job_name : DaemonCronJobBroadcastArgs X → String
  cron_job_name a = resource_name a

  abbrev pub service_account_name : DaemonCronJobBroadcastArgs X → String
  service_account_name a = resource_name a

  unfoldable pub cluster_role_binding : DaemonCronJobBroadcastArgs X → ClusterRoleBinding X
  unfolding daemon_job_args DaemonJob.cluster_role_binding
  cluster_role_binding a =
      let x = DaemonJob.cluster_role_binding (daemon_job_args a) in
      record x {
        metadata = record x.metadata {
          labels = fix_labels a x.metadata.labels;
          name = DaemonJob.namespace (daemon_job_args a) <> ("-" <> service_account_name a);
        };
        subjects = rename_first (service_account_name a) x.subjects;
      }

  unfoldable pub service_account : DaemonCronJobBroadcastArgs X → ServiceAccount X
  unfolding daemon_job_args DaemonJob.service_account
  service_account a =
      let x = DaemonJob.service_account (daemon_job_args a) in
      record x {
        metadata = record x.metadata {
          labels = fix_labels a x.metadata.labels;
          name = service_account_name a;
        };
      }

  abbrev fix_env : List (EnvVar X) → List (EnvVar X)
  fix_env env =
      delete_func (λ x. x.name == env_daemon_job_name) env
      ++ field_env env_daemon_cron_job_name (label_field_path label_daemon_cron_job_name) ∷ []

  -- job.Spec.Template.Spec.Containers[0].Env
  abbrev fix_containers : List (Container X) → List (Container X)
  fix_containers [] = []
  fix_containers (c ∷ cs) = record c { env = fix_env c.env } ∷ cs

  -- The labels of the Job and of its pod template are one map, which is fixed twice.
  unfoldable pub job : DaemonCronJobBroadcastArgs X → Job X
  unfolding daemon_job_args DaemonJob.job
  job a =
      let j = DaemonJob.job (daemon_job_args a) in
      let shared = fix_labels a (fix_labels a j.metadata.labels) in
      let template = j.spec.template in
      record j {
        metadata = record j.metadata { name = job_name a; labels = shared };
        spec = record j.spec {
          template = record template {
            labels = shared;
            spec = record template.spec {
              service_account_name = service_account_name a;
              containers = fix_containers template.spec.containers;
            };
          };
        };
      }

  -- cronJob.Labels, cronJob.Spec.JobTemplate.Labels and the labels of the DaemonCronJob's own
  -- template are one map, which is changed in place; a nil map cannot be written to.
  abbrev share_labels :
      DaemonCronJobBroadcastArgs X → Outcome (Option StringMap) → Outcome StringMap
  share_labels a panicked = panicked
  share_labels a (returned m) =
      returned
        (fix_common_labels a (copy (or_empty m) (DaemonJob.broadcast_labels (daemon_job_args a))))

  unfoldable pub cron_job_labels : DaemonCronJobBroadcastArgs X → Outcome StringMap
  unfolding job daemon_job_args
  cron_job_labels a = share_labels a (
      copy_into a.daemon_cron_job.spec.cron_job_template.metadata.labels
        (or_empty (job a).metadata.labels))

  abbrev pub build_cron_job : DaemonCronJobBroadcastArgs X → StringMap → CronJob X
  build_cron_job a shared =
      let template = a.daemon_cron_job.spec.cron_job_template in
      let d_spec = template.spec in
      record {
        type_meta = zero_type_meta;
        metadata = record (zero_meta {X = X}) {
          name = cron_job_name a;
          namespace = a.daemon_cron_job.metadata.namespace;
          annotations = template.metadata.annotations;
          labels = some shared;
        };
        spec = record {
          schedule = d_spec.schedule;
          time_zone = d_spec.time_zone;
          starting_deadline_seconds = d_spec.starting_deadline_seconds;
          concurrency_policy = d_spec.concurrency_policy;
          suspend = d_spec.suspend;
          job_template = record {
            labels = some shared;
            annotations = template.metadata.annotations;
            other = none;
            spec = (job a).spec;
          };
          successful_jobs_history_limit = d_spec.successful_jobs_history_limit;
          failed_jobs_history_limit = d_spec.failed_jobs_history_limit;
        };
      }

  -- The receiver after the call: its template's labels are the shared map.
  abbrev pub relabel : DaemonCronJob X → StringMap → DaemonCronJob X
  relabel d shared = record d {
    spec = record d.spec {
      cron_job_template = record d.spec.cron_job_template {
        metadata = record d.spec.cron_job_template.metadata { labels = some shared };
      };
    };
  }

  -- The CronJob, and the DaemonCronJob as the call leaves it.
  abbrev with_labels :
      DaemonCronJobBroadcastArgs X → Outcome StringMap → Outcome (CronJob X × DaemonCronJob X)
  with_labels a panicked = panicked
  with_labels a (returned shared) =
      returned (build_cron_job a shared, relabel a.daemon_cron_job shared)

  unfoldable pub cron_job : DaemonCronJobBroadcastArgs X → Outcome (CronJob X × DaemonCronJob X)
  unfolding cron_job_labels
  cron_job a = with_labels a (cron_job_labels a)
