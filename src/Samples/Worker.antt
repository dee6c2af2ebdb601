-- ===== src/Samples/Worker.antt =====
-- Concrete worker Jobs.
use daemonjob.Prelude.{
  ℕ, String, ◌≡◌, ◌↔◌, refl, true, none, some, [], ◌∷◌, ◌==◌, ◌||◌, or_else, contains,
  if◌then◌else◌,
}
use daemonjob.StringMap.{get, insert, empty}
use daemonjob.Result.{ok}
use daemonjob.Broadcast.Config.{
  load_config_from_env, load_config_from_env-ok, environment_config, is_complete,
}
use daemonjob.Kube.{Affinity}
use daemonjob.Api.{DaemonJobSpec}
use daemonjob.Resources.DaemonJob.{or_empty}
use daemonjob.Resources.DaemonCronJobSet
use daemonjob.Resources.DaemonCronJobSet.{node_term}
use daemonjob.Broadcast.Worker.{build_worker_job, generated_labels, default_tolerations}
use daemonjob.Broadcast.Worker.Labels.{build_worker_job-labels, expected_label}
use daemonjob.Broadcast.Worker.Placement.{build_worker_job-placed, build_worker_job-tolerates}
use daemonjob.Scheduling.{affinity_admits, tolerates, tolerated_by_daemon_sets, Taint}
use daemonjob.Reconcile.DaemonJob.Watch.{job_requests, job_requests-build_worker_job}
use daemonjob.Samples.{config, daemon_job_spec, pod_spec, meets, meets-MatchesNames}

abbrev team : String
team = "team"

abbrev n1 : String
n1 = "n1"

-- A template whose pods require node n2
abbrev requires_n2 : Affinity ℕ
requires_n2 = record {
  node_affinity = some (record {
    required = some (record { node_selector_terms = node_term "n2" ∷ [] });
    preferred = [];
  });
  pod_affinity = none;
  pod_anti_affinity = none;
}

abbrev pinned_spec : DaemonJobSpec ℕ
pinned_spec = record daemon_job_spec {
  job_template = record daemon_job_spec.job_template {
    spec = record daemon_job_spec.job_template.spec {
      template = record daemon_job_spec.job_template.spec.template {
        spec = pod_spec (some requires_n2);
      };
    };
  };
}

build_worker_job-labels_example :
    (get (or_empty (build_worker_job (config "backup" "") n1 daemon_job_spec).metadata.labels) team
      ≡ expected_label (config "backup" "") n1 daemon_job_spec team)
    × (get
          (or_empty (build_worker_job (config "backup" "") n1 daemon_job_spec).spec.template.labels)
          team
        ≡ (if contains generated_labels team
            then none
            else or_else
                (expected_label (config "backup" "") n1 daemon_job_spec team)
                (get (insert empty "app" "backup") team)))
    × (get
          (or_empty
            (build_worker_job (config "backup" "") n1 daemon_job_spec).spec.template.annotations)
          team
        ≡ or_else (get empty team) (get empty team))
build_worker_job-labels_example =
    build_worker_job-labels (config "backup" "") n1 daemon_job_spec team

-- The worker for n1 may run on n2.
build_worker_job-placed_example :
    affinity_admits meets
      (build_worker_job (config "backup" "") n1 pinned_spec).spec.template.spec.affinity
      "n2"
    ≡ true
build_worker_job-placed_example =
    build_worker_job-placed meets meets-MatchesNames (config "backup" "") n1 "n2" pinned_spec

build_worker_job-tolerates_example :
    (default_tolerations ≡ DaemonCronJobSet.default_tolerations)
    × ((t : Taint)
        → tolerates
            (build_worker_job
              (config "backup" "")
              n1
              daemon_job_spec).spec.template.spec.tolerations
            t
          ≡ (tolerated_by_daemon_sets t || tolerates [] t))
build_worker_job-tolerates_example =
    build_worker_job-tolerates (config "backup" "") n1 daemon_job_spec

abbrev only_job : String → String
only_job name = if name == "DAEMON_CRONJOB_NAME" then "" else "backup"

load_config_from_env-ok_example :
    (load_config_from_env only_job ≡ ok (environment_config only_job)) ↔ (
      (environment_config only_job ≡ environment_config only_job)
      × (is_complete (environment_config only_job) ≡ true))
load_config_from_env-ok_example = load_config_from_env-ok only_job (environment_config only_job)

job_requests-build_worker_job_example :
    job_requests (build_worker_job (config "backup" "") n1 daemon_job_spec)
    ≡ record { namespace = "jobs"; name = "backup" } ∷ []
job_requests-build_worker_job_example =
    job_requests-build_worker_job (config "backup" "") n1 daemon_job_spec refl
