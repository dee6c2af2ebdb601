-- ===== src/Samples/Limits.antt =====
-- A broadcast with a long name.
use Prim.Native.String.{count}
use daemonjob.Prelude.{◌+◌, ◌≤◌, String, ◌≡◌, ◌↔◌, inl, refl, [], ◌∷◌, arith}
use daemonjob.Result.{err}
use daemonjob.Broadcast.Config.{Config}
use daemonjob.Broadcast.Pod.{runtime_config}
use daemonjob.Broadcast.Worker.{build_worker_job}
use daemonjob.Broadcast.Runner.{dry_run_failed, fetch_spec, run}
use daemonjob.Broadcast.Runner.Limits.{
  IsValidating, IsOversized, name_limit, build_worker_job-fits, run-oversized,
}
use daemonjob.Samples.{config, daemon_job_spec, daemon_job_args}
use daemonjob.Samples.Cluster.{cluster, cluster-IsQuiet, fresh, a_node}

-- Every dry run is refused.
refusing-IsValidating : IsValidating (cluster (err "invalid"))
refusing-IsValidating = record {
  checks_name = λ j w long. ("invalid", w, refl);
  checks_label = λ j key value w labelled long. ("invalid", w, refl);
}

abbrev long_config : Config
long_config = record (config "backup" "") {
  self_name = "a-name-of-sixty-one-characters-for-a-broadcast-job-of-a-team-";
}

long_config-IsOversized : IsOversized long_config (a_node "n2")
long_config-IsOversized = inl (omega arith)

run-oversized_example :
    (name : String) × (e : String) × (run (cluster (err "invalid")) long_config fresh
      ≡ (err (dry_run_failed name e), fresh))
unfolding fetch_spec
run-oversized_example =
    run-oversized (cluster (err "invalid")) long_config daemon_job_spec refusing-IsValidating
      (cluster-IsQuiet (err "invalid")) (a_node "n1" ∷ []) (a_node "n2") [] fresh fresh fresh refl
      refl long_config-IsOversized

build_worker_job-fits_example :
    (count
        (build_worker_job
          (runtime_config (daemon_job_args "jobs" "backup") "7c1e")
          "n1"
          daemon_job_spec).metadata.name
      ≤ name_limit)
    ↔ (count "backup" + count "n1" ≤ 59)
build_worker_job-fits_example =
    build_worker_job-fits (daemon_job_args "jobs" "backup") "7c1e" "n1" daemon_job_spec
