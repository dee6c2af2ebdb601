-- ===== src/Samples/Preview.antt =====
-- The preview of a DaemonJob and the broadcast in its pod.
use daemonjob.Prelude.{ℕ, String, ◌≡◌, refl, [], ◌∷◌, map, ◌==◌, if◌then◌else◌}
use daemonjob.StringMap.{get_unique}
use daemonjob.Result.{ok}
use daemonjob.Resources.DaemonJob
use daemonjob.Resources.DaemonJob.{or_empty}
use daemonjob.Broadcast.Config.{Config, load_config_from_env}
use daemonjob.Broadcast.Runner.{build_jobs}
use daemonjob.Ctl.Resource.{job, placeholder_uid}
use daemonjob.Ctl.Generate.{args_of, generate_daemon_job}
use daemonjob.Ctl.Preview.{owned_by, generate_daemon_job-build_jobs}
use daemonjob.Broadcast.Pod.{PodFields, pod_env, template_owner}
use daemonjob.Samples.{daemon_job}
use daemonjob.Samples.Cluster.{cluster, a_node}

abbrev pub pod_field : String → String
pod_field path =
    if path == "metadata.labels['batch.kubernetes.io/job-name']"
    then "backup-dj"
    else if path == "metadata.labels['batch.kubernetes.io/controller-uid']"
    then "7c1e"
    else if path == "metadata.namespace"
    then "jobs"
    else "backup"

pod_field-PodFields :
    PodFields (DaemonJob.job (args_of (daemon_job "jobs" "backup") "r" "i")) "7c1e" pod_field
unfolding DaemonJob.job DaemonJob.resource_name
pod_field-PodFields = record {
  job_name = refl;
  controller_uid = refl;
  namespace = refl;
  label =
      λ v e. get_unique _ _ _ _ (template_owner (args_of (daemon_job "jobs" "backup") "r" "i")) e;
}

generate_daemon_job-build_jobs_example :
    (cfg : Config) × (load_config_from_env
        (pod_env (DaemonJob.job (args_of (daemon_job "jobs" "backup") "r" "i")) pod_field)
      ≡ ok cfg)
    × (map
          (λ r. r.object)
          (generate_daemon_job {U = ℕ}
            (daemon_job "jobs" "backup")
            ("n1" ∷ "n2" ∷ [])
            "i"
            "r").simulated
        ≡ map
            (λ j. job (owned_by placeholder_uid j))
            (build_jobs
              (cluster (ok tt))
              cfg
              (daemon_job "jobs" "backup").spec
              (a_node "n1" ∷ a_node "n2" ∷ [])))
generate_daemon_job-build_jobs_example =
    generate_daemon_job-build_jobs (cluster (ok tt)) (daemon_job "jobs" "backup") "i" "r" "7c1e"
      pod_field (a_node "n1" ∷ a_node "n2" ∷ []) pod_field-PodFields refl refl
