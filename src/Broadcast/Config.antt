-- ===== src/Broadcast/Config.antt =====
-- internal/broadcast/broadcast.go, Config and LoadConfigFromEnv. The environment is a function.
use daemonjob.Prelude.{
  String, ◌≡◌, ◌↔◌, refl, Bool, true, false, not, ◌==◌, ◌&&◌, ◌||◌, if◌then◌else◌,
}
use daemonjob.Resources.Constants.{
  env_self_name, env_namespace, env_daemon_job_name, env_daemon_cron_job_name, env_controller_uid,
}
use daemonjob.Result.{Result, ok, err}

pub record Config : Type 0 where
  pub self_name : String
  pub namespace : String
  pub daemon_job_name : String
  pub daemon_cron_job_name : String
  pub controller_uid : String

pub data ConfigError : Type 0 where
  missing_required : (variable : String) → ConfigError
  either_required : (first second : String) → ConfigError

abbrev pub read_config : (String → String) → Config
read_config getenv = record {
  self_name = getenv env_self_name;
  namespace = getenv env_namespace;
  daemon_job_name = getenv env_daemon_job_name;
  daemon_cron_job_name = getenv env_daemon_cron_job_name;
  controller_uid = getenv env_controller_uid;
}

-- `getenv` is os.Getenv: an unset variable reads as the empty text.
unfoldable pub load_config_from_env : (String → String) → Result ConfigError Config
load_config_from_env getenv =
    let cfg = read_config getenv in
    if cfg.namespace == ""
    then err (missing_required env_namespace)
    else if cfg.self_name == ""
    then err (missing_required env_self_name)
    else if cfg.daemon_job_name == "" && cfg.daemon_cron_job_name == ""
    then err (either_required env_daemon_job_name env_daemon_cron_job_name)
    else ok cfg

-- What the variables of the environment say, by their documented names
abbrev pub environment_config : (String → String) → Config
environment_config getenv = record {
  self_name = getenv "SELF_NAME";
  namespace = getenv "NAMESPACE";
  daemon_job_name = getenv "DAEMON_JOB_NAME";
  daemon_cron_job_name = getenv "DAEMON_CRONJOB_NAME";
  controller_uid = getenv "CONTROLLER_UID";
}

-- What a run of the broadcast needs: a namespace, its own name, and a resource to broadcast for.
abbrev pub is_complete : Config → Bool
is_complete cfg =
    not (cfg.namespace == "")
    && (not (cfg.self_name == "")
        && (not (cfg.daemon_job_name == "") || not (cfg.daemon_cron_job_name == "")))

checked :
    (b1 b2 b3 b4 : Bool) (e1 e2 e3 : ConfigError) (d cfg : Config)
    → ((if b1 then err e1 else if b2 then err e2 else if b3 && b4 then err e3 else ok d) ≡ ok cfg)
      ↔ ((cfg ≡ d) × ((not b1 && (not b2 && (not b3 || not b4))) ≡ true))
checked true b2 b3 b4 e1 e2 e3 d cfg = (λ e. cc, λ (e, h). cc)
checked false true b3 b4 e1 e2 e3 d cfg = (λ e. cc, λ (e, h). cc)
checked false false true true e1 e2 e3 d cfg = (λ e. cc, λ (e, h). cc)
checked false false true false e1 e2 e3 d cfg = (λ e. (cc, refl), λ (e, h). cc)
checked false false false b4 e1 e2 e3 d cfg = (λ e. (cc, refl), λ (e, h). cc)

-- Loading the configuration succeeds exactly when NAMESPACE, SELF_NAME and one at least of
-- DAEMON_JOB_NAME and DAEMON_CRONJOB_NAME are set, and then returns the values of these variables and
-- of CONTROLLER_UID, each under the field of its name.
pub load_config_from_env-ok :
    (getenv : String → String) (cfg : Config)
    → (load_config_from_env getenv ≡ ok cfg)
      ↔ ((cfg ≡ environment_config getenv) × (is_complete (environment_config getenv) ≡ true))
unfolding load_config_from_env
load_config_from_env-ok getenv cfg =
    checked (getenv env_namespace == "") (getenv env_self_name == "")
      (getenv env_daemon_job_name == "") (getenv env_daemon_cron_job_name == "") _ _ _
      (environment_config getenv) cfg
