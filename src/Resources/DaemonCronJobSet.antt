-- ===== src/Resources/DaemonCronJobSet.antt =====
-- internal/controller/daemoncronjobset.go: the CronJob of a DaemonCronJobSet for one node.
pub mod Cron
pub mod Nodes
use daemonjob.Prelude.{String, ◌<>◌, Option, none, some, List, [], ◌∷◌, ◌++◌}
use daemonjob.StringMap.{StringMap, insert, copy, get_or_zero}
use daemonjob.Kube.{Toleration, NodeSelectorTerm, Affinity, CronJob, ObjectMeta}
use daemonjob.Api.{DaemonCronJobSet}
use daemonjob.Resources.Constants.{
  label_daemon_cron_job_set_name, label_role, role_worker, label_node, label_instance,
  label_component, daemon_cron_job_set_suffix, common_labels, zero_type_meta, zero_meta,
}
use daemonjob.Resources.DaemonJob.{or_empty}

-- A toleration with the operator Exists, the other fields unset.
abbrev pub exists_toleration : String → String → Toleration
exists_toleration effect key = record {
  key = key;
  operator = "Exists";
  value = "";
  effect = effect;
  toleration_seconds = none;
}

unfoldable pub default_tolerations : List Toleration
default_tolerations =
    exists_toleration "NoExecute" "node.kubernetes.io/not-ready"
    ∷ exists_toleration "NoExecute" "node.kubernetes.io/unreachable"
    ∷ exists_toleration "NoSchedule" "node.kubernetes.io/disk-pressure"
    ∷ exists_toleration "NoSchedule" "node.kubernetes.io/memory-pressure"
    ∷ exists_toleration "NoSchedule" "node.kubernetes.io/pid-pressure"
    ∷ exists_toleration "NoSchedule" "node.kubernetes.io/unschedulable"
    ∷ []

-- The node selector term that only the node of this name meets.
abbrev pub node_term : String → NodeSelectorTerm
node_term node = record {
  match_expressions = [];
  match_fields = record { key = "metadata.name"; operator = "In"; values = node ∷ [] } ∷ [];
}

module _ {X : Type 0} where
  unfoldable pub cron_job_name : DaemonCronJobSet X → String → String
  cron_job_name a node = a.metadata.name <> ("-" <> (node <> ("-" <> daemon_cron_job_set_suffix)))

  unfoldable pub node_labels : DaemonCronJobSet X → String → StringMap
  unfolding common_labels
  node_labels a node =
      let x1 = insert common_labels label_daemon_cron_job_set_name a.metadata.name in
      let x2 = insert x1 label_role role_worker in
      let x3 = insert x2 label_node node in
      let x4 = insert x3 label_instance (get_or_zero x3 label_daemon_cron_job_set_name) in
      insert x4 label_component (get_or_zero x4 label_role)

  abbrev pub node_affinity : String → Affinity X
  node_affinity node = record {
    node_affinity = some (record {
      required = some (record { node_selector_terms = node_term node ∷ [] });
      preferred = [];
    });
    pod_affinity = none;
    pod_anti_affinity = none;
  }

  abbrev overlay : DaemonCronJobSet X → String → Option StringMap → Option StringMap
  overlay a node labels = some (copy (or_empty labels) (node_labels a node))

  unfoldable pub new_cron_job_for_node : DaemonCronJobSet X → String → CronJob X
  unfolding node_labels cron_job_name
  new_cron_job_for_node a node =
      let d_spec = a.spec.cron_job_template in
      let job_template = d_spec.spec.job_template in
      let template = job_template.spec.template in
      record {
        type_meta = zero_type_meta;
        metadata = record (zero_meta {X = X}) {
          name = cron_job_name a node;
          namespace = a.metadata.namespace;
          annotations = d_spec.metadata.annotations;
          labels = overlay a node d_spec.metadata.labels;
        };
        spec = record d_spec.spec {
          job_template = record job_template {
            labels = overlay a node job_template.labels;
            spec = record job_template.spec {
              template = record template {
                labels = overlay a node template.labels;
                spec = record template.spec {
                  affinity = some (node_affinity node);
                  tolerations = template.spec.tolerations ++ default_tolerations;
                };
              };
            };
          };
        };
      }
