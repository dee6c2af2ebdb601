-- ===== src/Samples/Resources.antt =====
-- Concrete resources behind the custom resources.
use daemonjob.Prelude.{
  ℕ, String, ◌≡◌, ◌≢◌, ◌↔◌, refl, none, some, [], ◌==◌, ◌||◌, panicked, returned,
}
use daemonjob.StringMap.{StringMap, get, insert, empty}
use daemonjob.Kube.{CronJob, PodTemplateSpec}
use daemonjob.Api.{DaemonCronJob}
use daemonjob.Resources.DaemonJob
use daemonjob.Resources.DaemonJob.{or_empty}
use daemonjob.Resources.DaemonJob.Labels.{job_labels-get}
use daemonjob.Resources.DaemonCronJob
use daemonjob.Resources.DaemonCronJob.{
  DaemonCronJobBroadcastArgs, build_cron_job, cron_job, relabel, fix_common_labels,
}
use daemonjob.Resources.DaemonCronJob.Labels.{
  cron_job-panics, cron_job-returns, expected_label, shared_labels,
}
use daemonjob.Resources.DaemonCronJobSet.{new_cron_job_for_node}
use daemonjob.Resources.DaemonCronJobSet.Cron.{new_cron_job_for_node-placed, pods_of}
use daemonjob.Resources.Names.{resource_names_apart, cluster_role_binding-collides}
use daemonjob.Scheduling.{affinity_admits, tolerates, tolerated_by_daemon_sets, Taint}
use daemonjob.Samples.{
  daemon_job_args, daemon_cron_job_args, daemon_cron_job_set, meets, meets-MatchesNames,
}

abbrev jobs : String
jobs = "jobs"

abbrev backup : String
backup = "backup"

abbrev n1 : String
n1 = "n1"

job_labels-get_example :
    get (or_empty (DaemonJob.job (daemon_job_args jobs backup)).metadata.labels) "team" ≡ some "ops"
unfolding get insert
job_labels-get_example = job_labels-get (daemon_job_args jobs backup) "team"

abbrev labelled : DaemonCronJobBroadcastArgs ℕ
labelled = daemon_cron_job_args (some (insert empty "tier" "batch"))

abbrev bare : DaemonCronJobBroadcastArgs ℕ
bare = daemon_cron_job_args none

cron_job-panics_example :
    (cron_job bare ≡ panicked)
    ↔ (bare.daemon_cron_job.spec.cron_job_template.metadata.labels ≡ none)
cron_job-panics_example = cron_job-panics bare

cron_job-returns_example :
    (c : CronJob ℕ) × (d : DaemonCronJob ℕ) × (shared : StringMap) × (cron_job labelled
      ≡ returned (c, d))
    × ((k : String) → get shared k ≡ expected_label labelled (insert empty "tier" "batch") k)
    × (c.metadata.labels ≡ some shared)
    × (c.spec.job_template.labels ≡ some shared)
    × (d ≡ relabel labelled.daemon_cron_job shared)
    × (c.spec.job_template.spec ≡ (DaemonCronJob.job labelled).spec)
    × (c.metadata.name ≡ "nightly-dcj")
cron_job-returns_example = cron_job-returns labelled (insert empty "tier" "batch") refl

abbrev relabelled : StringMap
relabelled = shared_labels labelled (insert empty "tier" "batch")

abbrev placed : PodTemplateSpec ℕ
placed = pods_of daemon_cron_job_set n1 (new_cron_job_for_node daemon_cron_job_set n1)

new_cron_job_for_node-placed_example :
    ((n : String) → affinity_admits meets placed.spec.affinity n ≡ (n1 == n))
    × ((t : Taint)
        → tolerates placed.spec.tolerations t ≡ (tolerates [] t || tolerated_by_daemon_sets t))
new_cron_job_for_node-placed_example =
    new_cron_job_for_node-placed daemon_cron_job_set n1 meets meets-MatchesNames

resource_names_apart_example :
    (DaemonJob.resource_name (daemon_job_args jobs "a") ≢ DaemonCronJob.resource_name labelled)
    × ((DaemonJob.resource_name (daemon_job_args jobs "a")
          ≡ DaemonJob.resource_name (daemon_job_args jobs "b"))
        ↔ ((daemon_job_args jobs "a").daemon_job.metadata.name ≡ "b"))
    × ((DaemonCronJob.resource_name labelled ≡ DaemonCronJob.resource_name bare)
        ↔ (labelled.daemon_cron_job.metadata.name ≡ "nightly"))
resource_names_apart_example =
    resource_names_apart (daemon_job_args jobs "a") (daemon_job_args jobs "b") labelled bare

cluster_role_binding-collides_example :
    ((DaemonJob.cluster_role_binding (daemon_job_args "x" "y-z")).metadata.name
      ≡ (DaemonJob.cluster_role_binding (daemon_job_args "x-y" "z")).metadata.name)
    × ((DaemonJob.cluster_role_binding (daemon_job_args "x" "y-z")).subjects
        ≢ (DaemonJob.cluster_role_binding (daemon_job_args "x-y" "z")).subjects)
cluster_role_binding-collides_example =
    cluster_role_binding-collides (daemon_job_args "x" "y-z") (daemon_job_args "x-y" "z") "x" "y"
      "z" refl refl refl refl
