-- ===== src/Resources/DaemonJob.antt =====
-- internal/controller/daemonjob.go: the objects behind a DaemonJob. DeepCopy is the identity on
-- values; where the code shares one map between two objects, both hold the same value.
pub mod Labels
use daemonjob.Prelude.{
  ℕ, ℤ, pos, String, ◌<>◌, Bool, true, false, Option, none, some, List, [], ◌∷◌,
}
use daemonjob.StringMap.{StringMap, empty, insert, get_or_zero, copy}
use daemonjob.Kube.{
  ObjectMeta, EnvVar, Container, PodSpec, PodTemplateSpec, Job, ServiceAccount, ClusterRoleBinding,
}
use daemonjob.Api.{DaemonJob, BroadcastJobSpec}
use daemonjob.Resources.Constants.{
  label_daemon_job_name, label_role, role_broadcast, label_instance, label_component,
  label_namespace, env_self_name, env_namespace, env_controller_uid, env_daemon_job_name,
  broadcast_container_name, daemon_job_suffix, common_labels, zero_type_meta, zero_meta,
  label_field_path,
}

pub record DaemonJobBroadcastArgs (X : Type 0) : Type 0 where
  pub daemon_job : DaemonJob X
  pub cluster_role_name : String
  pub image : String

-- `if meta.Labels == nil { meta.Labels = map[string]string{} }`
abbrev pub or_empty : Option StringMap → StringMap
or_empty none = empty
or_empty (some m) = m

module _ {X : Type 0} where
  abbrev pub field_env : String → String → EnvVar X
  field_env name path = record { name = name; field_path = some path; other = none }

  unfoldable pub resource_name : DaemonJobBroadcastArgs X → String
  resource_name a = a.daemon_job.metadata.name <> ("-" <> daemon_job_suffix)

  abbrev pub job_name : DaemonJobBroadcastArgs X → String
  job_name a = resource_name a

  abbrev pub service_account_name : DaemonJobBroadcastArgs X → String
  service_account_name a = resource_name a

  abbrev pub namespace : DaemonJobBroadcastArgs X → String
  namespace a = a.daemon_job.metadata.namespace

  unfoldable pub broadcast_labels : DaemonJobBroadcastArgs X → StringMap
  unfolding common_labels
  broadcast_labels a =
      let x = common_labels in
      let x1 = insert x label_daemon_job_name a.daemon_job.metadata.name in
      let x2 = insert x1 label_role role_broadcast in
      let x3 = insert x2 label_instance (get_or_zero x2 label_daemon_job_name) in
      insert x3 label_component (get_or_zero x3 label_role)

  unfoldable pub cluster_role_binding : DaemonJobBroadcastArgs X → ClusterRoleBinding X
  cluster_role_binding a = record {
    type_meta = zero_type_meta;
    metadata = record (zero_meta {X = X}) {
      name = namespace a <> ("-" <> service_account_name a);
      labels = some (insert (broadcast_labels a) label_namespace (namespace a));
    };
    subjects =
        record { kind = "ServiceAccount"; name = service_account_name a; namespace = namespace a }
        ∷ [];
    role_ref = record {
      kind = "ClusterRole";
      name = a.cluster_role_name;
      api_group = "rbac.authorization.k8s.io";
    };
  }

  unfoldable pub service_account : DaemonJobBroadcastArgs X → ServiceAccount X
  service_account a = record {
    type_meta = zero_type_meta;
    metadata = record (zero_meta {X = X}) {
      name = service_account_name a;
      namespace = namespace a;
      labels = some (broadcast_labels a);
    };
  }

  abbrev broadcast_env : List (EnvVar X)
  broadcast_env =
      field_env env_self_name "metadata.labels['batch.kubernetes.io/job-name']"
      ∷ field_env env_namespace "metadata.namespace"
      ∷ field_env env_controller_uid "metadata.labels['batch.kubernetes.io/controller-uid']"
      ∷ field_env env_daemon_job_name (label_field_path label_daemon_job_name)
      ∷ []

  abbrev broadcast_container : DaemonJobBroadcastArgs X → Container X
  broadcast_container a = record {
    name = broadcast_container_name;
    image = a.image;
    command = [];
    env = broadcast_env;
    resources = a.daemon_job.spec.broadcast_job_spec.resources;
    volume_mounts = record { name = "tmp"; mount_path = "/tmp"; other = none } ∷ [];
    security_context = some (record {
      allow_privilege_escalation = some false;
      read_only_root_filesystem = some true;
      drop = "ALL" ∷ [];
      other = none;
    });
    other = none;
  }

  abbrev broadcast_pod : DaemonJobBroadcastArgs X → BroadcastJobSpec X → PodSpec X
  broadcast_pod a b = record {
    restart_policy = "Never";
    service_account_name = service_account_name a;
    security_context = some (record {
      run_as_non_root = some true;
      seccomp_profile = some "RuntimeDefault";
      other = none;
    });
    affinity = b.affinity;
    image_pull_secrets = b.image_pull_secrets;
    node_name = b.node_name;
    node_selector = b.node_selector;
    preemption_policy = b.preemption_policy;
    priority = b.priority;
    priority_class_name = b.priority_class_name;
    scheduler_name = b.scheduler_name;
    tolerations = b.tolerations;
    topology_spread_constraints = b.topology_spread_constraints;
    volumes = record { name = "tmp"; empty_dir = true; other = none } ∷ [];
    containers = broadcast_container a ∷ [];
    other = none;
  }

  -- The template's own labels, overwritten by the labels that identify the object.
  unfoldable pub job_labels : DaemonJobBroadcastArgs X → StringMap
  job_labels a = copy (or_empty a.daemon_job.spec.job_template.metadata.labels) (broadcast_labels a)

  unfoldable pub job : DaemonJobBroadcastArgs X → Job X
  unfolding job_labels
  job a =
      let annotations = a.daemon_job.spec.job_template.metadata.annotations in
      record {
        type_meta = zero_type_meta;
        metadata = record (zero_meta {X = X}) {
          name = job_name a;
          namespace = namespace a;
          annotations = annotations;
          labels = some (job_labels a);
        };
        spec = record {
          backoff_limit = some (pos 0);
          selector = none;
          template = record {
            labels = some (job_labels a);
            annotations = annotations;
            other = none;
            spec = broadcast_pod a a.daemon_job.spec.broadcast_job_spec;
          };
          other = none;
        };
        conditions = [];
      }
