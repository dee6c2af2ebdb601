-- ===== src/Manager.antt =====
-- cmd/controller/main.go: the options of the manager, and its start with the three controllers. The
-- parsing of the flags and the manager are parameters; `K` is the type of the manager's errors.
pub mod Start
use daemonjob.Prelude.{
  ℕ, String, ◌<>◌, Bool, true, false, Option, some, none, List, [], ◌∷◌, ◌==◌, not, if◌then◌else◌,
}
use daemonjob.StringMap.{StringMap}
use daemonjob.Result.{Result, ok, err}
use daemonjob.Kube.{TypeMeta, ObjectMeta}
use daemonjob.Client.{Client, Call, fail, wrap, ◌>>=◌, ◌>>◌}
use daemonjob.Reconcile.DaemonJob.{DaemonJobReconciler}
use daemonjob.Reconcile.DaemonCronJob.{DaemonCronJobReconciler}
use daemonjob.Reconcile.Setup.{
  Registration, setup_daemon_job, setup_daemon_cron_job, setup_daemon_cron_job_set,
}

-- The values of the flags
pub record Flags : Type 0 where
  pub metrics_addr : String
  pub probe_addr : String
  pub enable_leader_election : Bool
  pub secure_metrics : Bool
  pub webhook_cert_path : String
  pub webhook_cert_name : String
  pub webhook_cert_key : String
  pub metrics_cert_path : String
  pub metrics_cert_name : String
  pub metrics_cert_key : String
  pub enable_http2 : Bool
  pub broadcast_image_repository : String
  pub broadcast_image_tag : String
  pub broadcast_role : String

-- Before flag.Parse
unfoldable pub default_flags : (getenv : String → String) → Flags
default_flags getenv = record {
  metrics_addr = "0";
  probe_addr = ":8081";
  enable_leader_election = false;
  secure_metrics = true;
  webhook_cert_path = "";
  webhook_cert_name = "tls.crt";
  webhook_cert_key = "tls.key";
  metrics_cert_path = "";
  metrics_cert_name = "tls.crt";
  metrics_cert_key = "tls.key";
  enable_http2 = false;
  broadcast_image_repository = getenv "BROADCAST_IMAGE_REPOSITORY";
  broadcast_image_tag = getenv "BROADCAST_IMAGE_TAG";
  broadcast_role = getenv "BROADCAST_ROLE";
}

-- tls.Config, as far as the program sets it
pub record TlsConfig (X : Type 0) : Type 0 where
  pub next_protos : List String
  pub other : Option X

abbrev pub disable_http2 : {X : Type 0} → TlsConfig X → TlsConfig X
disable_http2 c = record c { next_protos = "http/1.1" ∷ [] }

pub record WebhookOptions (X : Type 0) : Type 0 where
  pub tls_opts : List (TlsConfig X → TlsConfig X)
  pub cert_dir : String
  pub cert_name : String
  pub key_name : String

-- `authenticated`: FilterProvider is filters.WithAuthenticationAndAuthorization.
pub record MetricsOptions (X : Type 0) : Type 0 where
  pub bind_address : String
  pub secure_serving : Bool
  pub tls_opts : List (TlsConfig X → TlsConfig X)
  pub authenticated : Bool
  pub cert_dir : String
  pub cert_name : String
  pub key_name : String

-- An object on its way into the cache; `rest` is the spec and the status.
pub data Cached (X : Type 0) : Type 0 where
  node : TypeMeta → ObjectMeta X → (rest : Option X) → Cached X
  another : X → Cached X

-- Save metadata only to save memory
unfoldable pub transform : {X : Type 0} → Cached X → Cached X
transform (node t m rest) = node t m none
transform (another o) = another o

pub record ManagerOptions (X : Type 0) : Type 0 where
  pub metrics : MetricsOptions X
  pub webhook : WebhookOptions X
  pub health_probe_bind_address : String
  pub node_transform : Cached X → Cached X
  pub leader_election : Bool
  pub leader_election_id : String

module _ {X : Type 0} where
  unfoldable pub tls_options : Flags → List (TlsConfig X → TlsConfig X)
  tls_options f = if not f.enable_http2 then disable_http2 ∷ [] else []

  -- Where no path is given, the names are not set either.
  unfoldable pub webhook_options : Flags → WebhookOptions X
  unfolding tls_options
  webhook_options f =
      if f.webhook_cert_path == ""
      then record { tls_opts = tls_options f; cert_dir = ""; cert_name = ""; key_name = "" }
      else record {
        tls_opts = tls_options f;
        cert_dir = f.webhook_cert_path;
        cert_name = f.webhook_cert_name;
        key_name = f.webhook_cert_key;
      }

  abbrev without_certificate : Flags → MetricsOptions X
  unfolding tls_options
  without_certificate f = record {
    bind_address = f.metrics_addr;
    secure_serving = f.secure_metrics;
    tls_opts = tls_options f;
    authenticated = f.secure_metrics;
    cert_dir = "";
    cert_name = "";
    key_name = "";
  }

  unfoldable pub metrics_options : Flags → MetricsOptions X
  unfolding tls_options
  metrics_options f =
      if f.metrics_cert_path == "" then without_certificate f else record (without_certificate f) {
        cert_dir = f.metrics_cert_path;
        cert_name = f.metrics_cert_name;
        key_name = f.metrics_cert_key;
      }

  unfoldable pub manager_options : Flags → ManagerOptions X
  unfolding metrics_options webhook_options transform
  manager_options f = record {
    metrics = metrics_options f;
    webhook = webhook_options f;
    health_probe_bind_address = f.probe_addr;
    node_transform = transform;
    leader_election = f.enable_leader_election;
    leader_election_id = "1e98011f.berquerant.github.io";
  }

-- The reconciler that a controller runs
pub data Reconciler : Type 0 where
  daemon_job : DaemonJobReconciler → Reconciler
  daemon_cron_job : DaemonCronJobReconciler → Reconciler
  daemon_cron_job_set : Reconciler

pub record Manager (X W K : Type 0) : Type 0 where
  pub new_manager : ManagerOptions X → Call W K (Unit {0})
  -- Complete of the builder
  pub complete : Registration X W → Reconciler → Call W K (Unit {0})
  pub add_healthz_check : String → Call W K (Unit {0})
  pub add_readyz_check : String → Call W K (Unit {0})
  pub start : Call W K (Unit {0})

-- What is logged before os.Exit(1)
pub data StartError (K : Type 0) : Type 0 where
  empty_repository empty_tag : StartError K
  start_manager health_check ready_check run_manager : K → StartError K
  create_controller : (controller : String) → K → StartError K

abbrev pub broadcast_image : Flags → String
broadcast_image f = f.broadcast_image_repository <> (":" <> f.broadcast_image_tag)

abbrev pub daemon_job_reconciler : Flags → DaemonJobReconciler
daemon_job_reconciler f = record {
  broadcast_image = broadcast_image f;
  broadcast_role = f.broadcast_role;
}

abbrev pub daemon_cron_job_reconciler : Flags → DaemonCronJobReconciler
daemon_cron_job_reconciler f = record {
  broadcast_image = broadcast_image f;
  broadcast_role = f.broadcast_role;
}

module _ {X W E K : Type 0} (c : Client X W E) (m : Manager X W K)
    (deep_equal : Option StringMap → Option StringMap → Bool) where
  unfoldable pub start_manager_with : Flags → Call W (StartError K) (Unit {0})
  start_manager_with f = do
    wrap start_manager (m.new_manager (manager_options f))
    wrap (create_controller "daemonjob")
        (m.complete (setup_daemon_job c) (daemon_job (daemon_job_reconciler f)))
    wrap (create_controller "daemoncronjob")
        (m.complete (setup_daemon_cron_job c) (daemon_cron_job (daemon_cron_job_reconciler f)))
    wrap (create_controller "daemoncronjobset")
        (m.complete (setup_daemon_cron_job_set c deep_equal) daemon_cron_job_set)
    wrap health_check (m.add_healthz_check "healthz")
    wrap ready_check (m.add_readyz_check "readyz")
    wrap run_manager m.start

  abbrev pub controller_main_with : Flags → Call W (StartError K) (Unit {0})
  unfolding start_manager_with
  controller_main_with f =
      if f.broadcast_image_repository == ""
      then fail empty_repository
      else if f.broadcast_image_tag == ""
      then fail empty_tag
      else start_manager_with f

  -- os.Exit(1) after any error
  abbrev pub exit_code : {A : Type 0} → Result (StartError K) A → ℕ
  exit_code (ok a) = 0
  exit_code (err e) = 1

  unfoldable pub controller_main :
      (getenv : String → String) (parse : Flags → Flags) → Call W (StartError K) (Unit {0})
  unfolding default_flags start_manager_with
  controller_main getenv parse = controller_main_with (parse (default_flags getenv))
