-- ===== src/Broadcast/Worker.antt =====
-- internal/broadcast/broadcast.go, BuildWorkerJob: the worker Job for one node.
pub mod Labels
pub mod Placement
use daemonjob.Prelude.{
  String, ◌<>◌, Bool, true, Option, none, some, List, [], ◌∷◌, ◌++◌, ◌==◌, not, if◌then◌else◌,
}
use daemonjob.StringMap.{StringMap, empty, insert, remove, copy}
use daemonjob.Kube.{
  OwnerReference, ObjectMeta, Toleration, NodeSelector, NodeSelectorTerm, NodeAffinity, Affinity,
  PodSpec, PodTemplateSpec, JobSpec, Job,
}
use daemonjob.Api.{DaemonJobSpec}
use daemonjob.Resources.Constants.{
  label_node, label_role, role_worker, label_daemon_job_name, label_daemon_cron_job_name,
  zero_type_meta, zero_meta,
}
use daemonjob.Resources.DaemonJob.{or_empty}
use daemonjob.Resources.DaemonCronJobSet.{exists_toleration, node_term}
use daemonjob.Broadcast.Config.{Config}

-- Labels that Kubernetes generates for Jobs.
abbrev pub generated_labels : List String
generated_labels =
    "controller-uid" ∷ "job-name" ∷ "batch.kubernetes.io/controller-uid"
    ∷ "batch.kubernetes.io/job-name" ∷ []

-- for _, l := range ls { delete(labels, l) }
unfoldable pub delete_all : StringMap → List String → StringMap
delete_all labels [] = labels
delete_all labels (l ∷ ls) = delete_all (remove labels l) ls

unfoldable pub default_tolerations : List Toleration
default_tolerations =
    exists_toleration "NoExecute" "node.kubernetes.io/not-ready"
    ∷ exists_toleration "NoExecute" "node.kubernetes.io/unreachable"
    ∷ exists_toleration "NoSchedule" "node.kubernetes.io/disk-pressure"
    ∷ exists_toleration "NoSchedule" "node.kubernetes.io/memory-pressure"
    ∷ exists_toleration "NoSchedule" "node.kubernetes.io/pid-pressure"
    ∷ exists_toleration "NoSchedule" "node.kubernetes.io/unschedulable"
    ∷ []

abbrev add_term : String → Option NodeSelector → NodeSelector
add_term node none = record { node_selector_terms = [] ++ node_term node ∷ [] }
add_term node (some s) = record {
  node_selector_terms = s.node_selector_terms ++ node_term node ∷ [];
}

abbrev owner : Config → OwnerReference
owner cfg = record {
  api_version = "batch/v1";
  kind = "Job";
  name = cfg.self_name;
  uid = cfg.controller_uid;
  controller = some true;
  block_owner_deletion = some true;
}

module _ {X : Type 0} where
  abbrev add_node_term : String → Option (NodeAffinity X) → NodeAffinity X
  add_node_term node none = record { required = some (add_term node none); preferred = [] }
  add_node_term node (some a) = record a { required = some (add_term node a.required) }

  -- Missing levels of the affinity are filled in, and the term of the node is appended.
  unfoldable pub pin : String → Option (Affinity X) → Affinity X
  pin node none = record {
    node_affinity = some (add_node_term node none);
    pod_affinity = none;
    pod_anti_affinity = none;
  }
  pin node (some a) = record a { node_affinity = some (add_node_term node a.node_affinity) }

  unfoldable pub worker_labels : Config → String → DaemonJobSpec X → StringMap
  worker_labels cfg node spec =
      let x1 = copy empty (or_empty spec.job_template.metadata.labels) in
      let x2 = insert (insert x1 label_node node) label_role role_worker in
      let x3 =
        if not (cfg.daemon_job_name == "")
        then insert x2 label_daemon_job_name cfg.daemon_job_name
        else insert x2 label_daemon_cron_job_name cfg.daemon_cron_job_name in
      delete_all x3 generated_labels

  unfoldable pub pod_labels : Config → String → DaemonJobSpec X → StringMap
  pod_labels cfg node spec =
      delete_all
        (copy (copy empty (or_empty spec.job_template.spec.template.labels))
          (worker_labels cfg node spec))
        generated_labels

  unfoldable pub build_worker_job : Config → String → DaemonJobSpec X → Job X
  unfolding pin
  build_worker_job cfg node spec =
      let annotations = copy empty (or_empty spec.job_template.metadata.annotations) in
      let base = spec.job_template.spec in
      let template = base.template in
      record {
        type_meta = zero_type_meta;
        metadata = record (zero_meta {X = X}) {
          name = cfg.self_name <> ("-" <> node);
          namespace = cfg.namespace;
          labels = some (worker_labels cfg node spec);
          annotations = some annotations;
          owner_references = owner cfg ∷ [];
        };
        spec = record base {
          selector = none;
          template = record template {
            labels = some (pod_labels cfg node spec);
            annotations = some (copy (copy empty (or_empty template.annotations)) annotations);
            spec = record template.spec {
              affinity = some (pin node template.spec.affinity);
              tolerations = default_tolerations ++ template.spec.tolerations;
            };
          };
        };
        conditions = [];
      }
