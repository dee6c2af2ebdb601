-- ===== src/Broadcast/Main.antt =====
-- cmd/broadcast/main.go, with NewRunner and WriteTerminationLog of internal/broadcast/broadcast.go.
-- The kube configuration, the client made from it and strings.TrimSpace are parameters.
pub mod Exits
use daemonjob.Prelude.{ℕ, String, ◌<>◌, Bool, Option, none, some, if◌then◌else◌}
use daemonjob.Result.{Result, ok, err}
use daemonjob.Client.{Client}
use daemonjob.Broadcast.Config.{
  Config, ConfigError, missing_required, either_required, load_config_from_env,
}
use daemonjob.Broadcast.Runner.{
  RunError, get_daemon_job, get_daemon_cron_job, list_nodes, dry_run_failed, create_failed, run,
}

-- err.Error() for the errors of LoadConfigFromEnv
unfoldable pub config_text : ConfigError → String
config_text (missing_required v) = "missing required environment variable: " <> v
config_text (either_required v v') = "either " <> (v <> (" or " <> (v' <> " must be specified")))

-- The errors of NewRunner
pub data RunnerError (K : Type 0) : Type 0 where
  kube_config_failed client_failed : K → RunnerError K

-- What is left of the process: its exit code, and the text of /dev/termination-log, if written
pub record Exit : Type 0 where
  pub exit_code : ℕ
  pub termination_log : Option String

module _ {K E : Type 0} (kube_text : K → String) (api_text : E → String) where
  unfoldable pub runner_text : RunnerError K → String
  runner_text (kube_config_failed e) = "failed to get kube config: " <> kube_text e
  runner_text (client_failed e) = "failed to create k8s client: " <> kube_text e

  unfoldable pub run_text : RunError E → String
  run_text (get_daemon_job namespace name e) =
      "failed to get DaemonJob " <> (namespace <> ("/" <> (name <> (": " <> api_text e))))
  run_text (get_daemon_cron_job namespace name e) =
      "failed to get DaemonCronJob " <> (namespace <> ("/" <> (name <> (": " <> api_text e))))
  run_text (list_nodes e) = "failed to list nodes: " <> api_text e
  run_text (dry_run_failed name e) =
      "dry-run validation failed for worker job " <> (name <> (": " <> api_text e))
  run_text (create_failed name e) = "failed to create worker job " <> (name <> (": " <> api_text e))

-- `writable`: the file could be opened. An error of the write is ignored, as if there were none.
unfoldable pub write_termination_log :
    (trim_space : String → String) (writable : Bool) → String → Option String
write_termination_log trim_space writable msg =
    if writable then some (trim_space msg <> "\n") else none

module _ {X W E K C : Type 0} (kube_config : Result K C)
    (new_client : C → Result K (Client X W E)) where
  abbrev client_of : Result K C → Result (RunnerError K) (Client X W E)
  client_of (err e) = err (kube_config_failed e)
  client_of (ok k) = elim (new_client k) [ err e ↦ err (client_failed e) | ok c ↦ ok c ]

  unfoldable pub new_runner : Result (RunnerError K) (Client X W E)
  new_runner = client_of kube_config

  module _ (kube_text : K → String) (api_text : E → String) (trim_space : String → String)
      (writable : Bool) where
    -- WriteTerminationLog(err.Error()); os.Exit(1)
    abbrev pub fail_with : String → Exit
    fail_with msg = record {
      exit_code = 1;
      termination_log = write_termination_log trim_space writable msg;
    }

    abbrev pub succeeded : Exit
    succeeded = record { exit_code = 0; termination_log = none }

    abbrev pub exit_of : Result (RunError E) (Unit {0}) × W → Exit × W
    exit_of (ok u, w) = (succeeded, w)
    exit_of (err e, w) = (fail_with (run_text kube_text api_text e), w)

    abbrev pub run_with : Config → Result (RunnerError K) (Client X W E) → W → Exit × W
    run_with cfg (err e) w = (fail_with (runner_text kube_text api_text e), w)
    run_with cfg (ok c) w = exit_of (run c cfg w)

    abbrev pub main_with : Result ConfigError Config → W → Exit × W
    main_with (err e) w = (fail_with (config_text e), w)
    main_with (ok cfg) w = run_with cfg new_runner w

    unfoldable pub broadcast_main : (getenv : String → String) → W → Exit × W
    unfolding new_runner config_text runner_text run_text write_termination_log
    broadcast_main getenv w = main_with (load_config_from_env getenv) w
