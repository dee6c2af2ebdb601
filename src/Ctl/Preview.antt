-- ===== src/Ctl/Preview.antt =====
-- What the tool previews, beside what the broadcast does in the cluster.
pub mod Cron
pub mod Skeletons
pub mod Nodes
use text.Mathlib.TextLemmas.{append-ne-nil_of_right_ne-nil, cons-ne-nil}
use daemonjob.Prelude.{
  true, false, ==_false, String, ◌<>◌, ◌≡◌, refl, ap, sym, subst, ◌∙◌, ◌↔◌, Option, none, some,
  List, [], ◌∷◌, map, ◌==◌, if◌then◌else◌, Outcome, panicked, returned,
}
use daemonjob.StringMap.{get}
use daemonjob.Result.{ok}
use daemonjob.Kube.{OwnerReference, EnvVar, Node, Job, PodSpec, Container}
use daemonjob.Api.{DaemonJob, DaemonCronJob}
use daemonjob.Resources.Constants.{label_daemon_job_name, label_field_path, daemon_job_suffix}
use daemonjob.Resources.DaemonJob
use daemonjob.Resources.DaemonJob.{DaemonJobBroadcastArgs, or_empty}
use daemonjob.Resources.DaemonJob.Labels.{job_labels-get, broadcast_labels-name}
use daemonjob.Broadcast.Config.{
  Config, load_config_from_env, read_config, load_config_from_env-ok, is_complete,
}
use daemonjob.Broadcast.Worker.{build_worker_job, worker_labels, pod_labels}
use daemonjob.Broadcast.Runner.{build_jobs}
use daemonjob.Broadcast.Pod.{pod_env, PodFields, runtime_config, load_runtime}
use daemonjob.Client.{Client}
use daemonjob.Ctl.Resource.{ApiObject, AnnotatedResource, WriteResult, job, placeholder_uid}
use daemonjob.Ctl.Generate.{simulate, preview_config, args_of, generate_daemon_job}

-- The same Job with another UID of its owner
abbrev pub owned_by : {X : Type 0} → (uid : String) → Job X → Job X
owned_by uid j = record j {
  metadata = record j.metadata {
    owner_references =
        map {A = OwnerReference} (λ o. record o { uid = uid }) j.metadata.owner_references;
  };
}

module _ {X : Type 0} (a : DaemonJobBroadcastArgs X) where
  worker-placeholder :
      (node uid : String)
      → build_worker_job (preview_config a) node a.daemon_job.spec
        ≡ owned_by placeholder_uid (build_worker_job (runtime_config a uid) node a.daemon_job.spec)
  unfolding build_worker_job worker_labels pod_labels
  worker-placeholder node uid = refl

  objects_of-simulate :
      {U : Type 0} {W E : Type 0} (c : Client X W E) (uid : String) (nodes : List Node)
      → map
          (λ r. r.object)
          (simulate {U = U} (preview_config a) a.daemon_job.spec (map (λ n. n.name) nodes))
        ≡ map
            (λ j. job (owned_by placeholder_uid j))
            (build_jobs c (runtime_config a uid) a.daemon_job.spec nodes)
  unfolding simulate
  objects_of-simulate c uid [] = refl
  objects_of-simulate c uid (n ∷ nodes) =
      λ i. job (worker-placeholder n.name uid i) ∷ objects_of-simulate c uid nodes i

-- In a pod of the broadcast Job of a DaemonJob with a name and a namespace, the broadcast loads a
-- configuration; and the worker Jobs that the tool previews for some nodes are those that the
-- broadcast then builds for them, but for the UID of their owner, which is the placeholder.
pub generate_daemon_job-build_jobs :
    {X U W E : Type 0} (c : Client X W E) (d : DaemonJob X) (image role uid : String)
    (field : String → String) (nodes : List Node)
    → PodFields (DaemonJob.job (args_of d role image)) uid field
    → (d.metadata.namespace == "") ≡ false
    → (d.metadata.name == "") ≡ false
    → (cfg : Config) × (load_config_from_env (pod_env (DaemonJob.job (args_of d role image)) field)
        ≡ ok cfg)
      × (map
            (λ r. r.object)
            (generate_daemon_job {U = U} d (map (λ n. n.name) nodes) image role).simulated
          ≡ map (λ j. job (owned_by placeholder_uid j)) (build_jobs c cfg d.spec nodes))
unfolding generate_daemon_job
generate_daemon_job-build_jobs c d image role uid field nodes h ns name =
    let a = args_of d role image in
    (runtime_config a uid, load_runtime a uid field h ns name, objects_of-simulate a c uid nodes)
