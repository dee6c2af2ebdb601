-- ===== src/Broadcast/Pod.antt =====
-- The environment of the broadcast in a pod of its Job, and the configuration that it loads there.
use text.Mathlib.TextLemmas.{append-ne-nil_of_right_ne-nil, cons-ne-nil}
use daemonjob.Prelude.{
  true, false, ==_false, String, ◌<>◌, ◌≡◌, refl, sym, subst, ◌∙◌, Option, none, some, List, [],
  ◌∷◌, ◌==◌, if◌then◌else◌,
}
use daemonjob.StringMap.{get}
use daemonjob.Result.{ok}
use daemonjob.Kube.{EnvVar, Job, Container}
use daemonjob.Resources.Constants.{label_daemon_job_name, label_field_path, daemon_job_suffix}
use daemonjob.Resources.DaemonJob
use daemonjob.Resources.DaemonJob.{DaemonJobBroadcastArgs, or_empty}
use daemonjob.Resources.DaemonJob.Labels.{job_labels-get, broadcast_labels-name}
use daemonjob.Broadcast.Config.{
  Config, load_config_from_env, read_config, load_config_from_env-ok, is_complete,
}

-- The environment of a container whose variables read fields of its pod: `field` is the downward
-- API. An unset variable reads as the empty text.
unfoldable pub env_of : {X : Type 0} → (field : String → String) → List (EnvVar X) → String → String
env_of field [] name = ""
env_of field (v ∷ vs) name =
    let rest = env_of field vs name in
    if v.name == name then field_value field v.field_path else rest
  where
    field_value : (String → String) → Option String → String
    field_value field none = ""
    field_value field (some path) = field path

-- The variables of the pods of a Job, which has one container.
abbrev pub env_vars : {X : Type 0} → List (Container X) → List (EnvVar X)
env_vars [] = []
env_vars (c ∷ cs) = c.env

abbrev pub pod_env : {X : Type 0} → Job X → (field : String → String) → String → String
pod_env j field = env_of field (env_vars j.spec.template.spec.containers)

-- What the downward API gives in a pod of the broadcast Job of a DaemonJob: the labels of the pod are
-- those of the Job's template and, by Kubernetes, the Job's name and UID.
pub record PodFields {X : Type 0} (j : Job X) (uid : String) (field : String → String)
    : Type 0 where
  pub job_name : field "metadata.labels['batch.kubernetes.io/job-name']" ≡ j.metadata.name
  pub controller_uid : field "metadata.labels['batch.kubernetes.io/controller-uid']" ≡ uid
  pub namespace : field "metadata.namespace" ≡ j.metadata.namespace
  pub label :
      (value : String)
      → get (or_empty j.spec.template.labels) label_daemon_job_name ≡ some value
      → field (label_field_path label_daemon_job_name) ≡ value

-- The Config that the broadcast of a DaemonJob loads in the cluster
abbrev pub runtime_config : {X : Type 0} → DaemonJobBroadcastArgs X → (uid : String) → Config
runtime_config a uid = record {
  self_name = DaemonJob.job_name a;
  namespace = a.daemon_job.metadata.namespace;
  daemon_job_name = a.daemon_job.metadata.name;
  daemon_cron_job_name = "";
  controller_uid = uid;
}

not_empty : (s : String) → ((s <> ("-" <> daemon_job_suffix)) == "") ≡ false
not_empty s = ==_false _ _ (append-ne-nil_of_right_ne-nil s (cons-ne-nil "-" "dj"))

module _ {X : Type 0} (a : DaemonJobBroadcastArgs X) where
  pub template_owner :
      get (or_empty (DaemonJob.job a).spec.template.labels) label_daemon_job_name
      ≡ some a.daemon_job.metadata.name
  unfolding DaemonJob.job
  template_owner = job_labels-get a label_daemon_job_name ∙ broadcast_labels-name a

  module _ (uid : String) (field : String → String)
      (h : PodFields (DaemonJob.job a) uid field) where
    abbrev getenv : String → String
    getenv = pod_env (DaemonJob.job a) field

    read_runtime : read_config getenv ≡ runtime_config a uid
    unfolding env_of DaemonJob.job
    read_runtime =
        let name : field "metadata.labels['batch.kubernetes.io/job-name']"
            ≡ DaemonJob.resource_name a =
          h.job_name in
        let namespace : field "metadata.namespace" ≡ a.daemon_job.metadata.namespace =
          h.namespace in
        let owner : field (label_field_path label_daemon_job_name) ≡ a.daemon_job.metadata.name =
          h.label _ template_owner in
        rw (name, namespace, owner, h.controller_uid) refl

    complete :
        (a.daemon_job.metadata.namespace == "") ≡ false
        → (a.daemon_job.metadata.name == "") ≡ false
        → is_complete (runtime_config a uid) ≡ true
    unfolding DaemonJob.resource_name
    complete ns name = rw (ns, name, not_empty a.daemon_job.metadata.name) refl

    pub load_runtime :
        (a.daemon_job.metadata.namespace == "") ≡ false
        → (a.daemon_job.metadata.name == "") ≡ false
        → load_config_from_env getenv ≡ ok (runtime_config a uid)
    load_runtime ns name = (load_config_from_env-ok getenv (runtime_config a uid)).1 (
      sym read_runtime,
      subst (λ cfg. is_complete cfg ≡ true) (sym read_runtime) (complete ns name),
    )
