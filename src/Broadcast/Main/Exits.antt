-- ===== src/Broadcast/Main/Exits.antt =====
-- How cmd/broadcast/main.go ends.
use daemonjob.Prelude.{String, ◌<>◌, Bool, none, some, if◌then◌else◌, ◌≡◌, refl, List, All}
use daemonjob.Result.{Result, ok, err}
use daemonjob.Kube.{Job, Node}
use daemonjob.Api.{DaemonJobSpec}
use daemonjob.Client.{Client}
use daemonjob.Client.Laws.{IsStored}
use daemonjob.Broadcast.Config.{Config, ConfigError, load_config_from_env}
use daemonjob.Broadcast.Runner.{RunError, fetch_spec, find_nodes, build_jobs, run}
use daemonjob.Broadcast.Runner.Created.{Ended, created, run-Ended}
use daemonjob.Broadcast.Main.{
  RunnerError, Exit, config_text, runner_text, run_text, new_runner, exit_of, run_with, main_with,
  broadcast_main, write_termination_log,
}

-- The exit with this text
abbrev pub fails : (trim_space : String → String) (writable : Bool) → String → Exit
fails trim_space writable msg = record {
  exit_code = 1;
  termination_log = if writable then some (trim_space msg <> "\n") else none;
}

abbrev pub succeeds : Exit
succeeds = record { exit_code = 0; termination_log = none }

module _ {X W E K C : Type 0} (kube_config : Result K C) (new_client : C → Result K (Client X W E))
    (kube_text : K → String) (api_text : E → String) (trim_space : String → String)
    (writable : Bool) (Stored : W → Job X → Type 0) (getenv : String → String) (w : W) where
  abbrev runner : Result (RunnerError K) (Client X W E)
  runner = new_runner kube_config new_client

  -- The ways the process ends: each failure with its text, in the order of the code, and the success
  -- with the worker Jobs of the nodes that it read in the cluster
  pub data Exits : Exit × W → Type 0 where
    unconfigured :
        (e : ConfigError)
        → load_config_from_env getenv ≡ err e
        → Exits (fails trim_space writable (config_text e), w)
    unconnected :
        (cfg : Config) (e : RunnerError K)
        → load_config_from_env getenv ≡ ok cfg
        → runner ≡ err e
        → Exits (fails trim_space writable (runner_text kube_text api_text e), w)
    broken :
        (cfg : Config) (c : Client X W E) (e : RunError E) (w' : W)
        → load_config_from_env getenv ≡ ok cfg
        → runner ≡ ok c
        → run c cfg w ≡ (err e, w')
        → Exits (fails trim_space writable (run_text kube_text api_text e), w')
    completed :
        (cfg : Config) (c : Client X W E) (spec : DaemonJobSpec X) (nodes : List Node)
        (w1 w2 w' : W)
        → load_config_from_env getenv ≡ ok cfg
        → runner ≡ ok c
        → fetch_spec c cfg w ≡ (ok spec, w1)
        → find_nodes c cfg spec w1 ≡ (ok nodes, w2)
        → All (Stored w') (build_jobs c cfg spec nodes)
        → Exits (succeeds, w')

  ran-Exits :
      (cfg : Config) (c : Client X W E) (laws : IsStored c Stored)
      (r : Result (RunError E) (Unit {0}) × W)
      → load_config_from_env getenv ≡ ok cfg
      → runner ≡ ok c
      → run c cfg w ≡ r
      → Ended c cfg Stored laws w r
      → Exits (exit_of kube_config new_client kube_text api_text trim_space writable r)
  unfolding write_termination_log
  ran-Exits cfg c laws (err e, w') p q h ended = broken cfg c e w' p q h
  ran-Exits cfg c laws (ok u, w') p q h (created spec nodes w1 w2 _ fetched found k) =
      completed cfg c spec nodes w1 w2 w' p q fetched found k

  runner-Exits :
      (cfg : Config) (r : Result (RunnerError K) (Client X W E))
      (laws : (c : Client X W E) → runner ≡ ok c → IsStored c Stored)
      → load_config_from_env getenv ≡ ok cfg
      → runner ≡ r
      → Exits (run_with kube_config new_client kube_text api_text trim_space writable cfg r w)
  unfolding write_termination_log
  runner-Exits cfg (err e) laws p q = unconnected cfg e p q
  runner-Exits cfg (ok c) laws p q =
      ran-Exits cfg c (laws c q) (run c cfg w) p q refl (run-Ended c cfg Stored (laws c q) w)

  config-Exits :
      (r : Result ConfigError Config)
      (laws : (c : Client X W E) → runner ≡ ok c → IsStored c Stored)
      → load_config_from_env getenv ≡ r
      → Exits (main_with kube_config new_client kube_text api_text trim_space writable r w)
  unfolding write_termination_log
  config-Exits (err e) laws p = unconfigured e p
  config-Exits (ok cfg) laws p = runner-Exits cfg runner laws p refl

  -- The broadcast process exits with 0 and no termination log, when it loaded its configuration,
  -- connected, and the worker Job of each node that it read is in the cluster; or with 1 and the text
  -- of the first of its errors, that of the configuration, the connection or the run, in the
  -- termination log where that file can be opened. The client's creations store what they succeed
  -- with and take away nothing.
  pub broadcast_main-Exits :
      (laws : (c : Client X W E) → runner ≡ ok c → IsStored c Stored)
      → Exits
          (broadcast_main kube_config new_client kube_text api_text trim_space writable getenv w)
  unfolding broadcast_main
  broadcast_main-Exits laws = config-Exits (load_config_from_env getenv) laws refl
