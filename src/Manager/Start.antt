-- ===== src/Manager/Start.antt =====
-- When cmd/controller starts, and with what.
use daemonjob.Prelude.{
  String, Bool, true, false, none, ◌<>◌, eq_iff, ◌≡◌, refl, List, [], ◌∷◌, ◌==◌, Option, arith,
  if◌then◌else◌,
}
use daemonjob.StringMap.{StringMap}
use daemonjob.Result.{Result, ok}
use daemonjob.Kube.{TypeMeta, ObjectMeta}
use daemonjob.Client.{Client, Call}
use daemonjob.Reconcile.Setup.{setup_daemon_job, setup_daemon_cron_job, setup_daemon_cron_job_set}
use daemonjob.Manager.{
  Flags, ManagerOptions, node, another, transform, TlsConfig, tls_options, webhook_options,
  metrics_options, manager_options, Manager, daemon_job, daemon_cron_job, daemon_cron_job_set,
}

module _ {W K : Type 0} where
  -- The calls succeed, one after the other.
  abbrev pub Runs : List (Call W K (Unit {0})) → W → W → Type 0
  Runs [] w w' = w ≡ w'
  Runs (s ∷ ss) w w' = (w1 : W) × (s w ≡ (ok tt, w1)) × Runs ss w1 w'

-- The options are applied one after the other.
abbrev pub applied : {T : Type 0} → List (T → T) → T → T
applied [] t = t
applied (f ∷ fs) t = applied fs (f t)

module _ {X : Type 0} (f : Flags) where
  -- Offers HTTP/2 only if the flag enables it.
  abbrev pub LimitsProtocols : List (TlsConfig X → TlsConfig X) → Type 0
  LimitsProtocols opts =
      (t : TlsConfig X)
      → applied opts t ≡ (if f.enable_http2 then t else record t { next_protos = "http/1.1" ∷ [] })

  -- The options that the flags ask for: the addresses; HTTP/2 only where it is enabled; a metrics
  -- endpoint that asks for authentication exactly where it is secure; for each server the path of its
  -- certificate, and the files in it where there is a path; the leader election; and of a node in the
  -- cache only its type and metadata.
  pub record IsAsked (o : ManagerOptions X) : Type 0 where
    pub metrics_address : o.metrics.bind_address ≡ f.metrics_addr
    pub metrics_secure : o.metrics.secure_serving ≡ f.secure_metrics
    pub metrics_authenticated : o.metrics.authenticated ≡ f.secure_metrics
    pub metrics_protocols : LimitsProtocols o.metrics.tls_opts
    pub metrics_path : o.metrics.cert_dir ≡ f.metrics_cert_path
    pub metrics_files :
        (f.metrics_cert_path == "") ≡ false
        → (o.metrics.cert_name ≡ f.metrics_cert_name) × (o.metrics.key_name ≡ f.metrics_cert_key)
    pub webhook_protocols : LimitsProtocols o.webhook.tls_opts
    pub webhook_path : o.webhook.cert_dir ≡ f.webhook_cert_path
    pub webhook_files :
        (f.webhook_cert_path == "") ≡ false
        → (o.webhook.cert_name ≡ f.webhook_cert_name) × (o.webhook.key_name ≡ f.webhook_cert_key)
    pub probes : o.health_probe_bind_address ≡ f.probe_addr
    pub elects : o.leader_election ≡ f.enable_leader_election
    pub nodes :
        (t : TypeMeta) (m : ObjectMeta X) (rest : Option X)
        → o.node_transform (node t m rest) ≡ node t m none
    pub others : (x : X) → o.node_transform (another x) ≡ another x

  pub manager_options-IsAsked : IsAsked (manager_options f)
  unfolding manager_options metrics_options webhook_options tls_options transform
  manager_options-IsAsked = record {
    metrics_address = ground arith;
    metrics_secure = ground arith;
    metrics_authenticated = ground arith;
    metrics_protocols = λ t. ground arith;
    metrics_path = ground (arith, eq_iff f.metrics_cert_path "");
    metrics_files = λ h. ground arith;
    webhook_protocols = λ t. ground arith;
    webhook_path = ground (arith, eq_iff f.webhook_cert_path "");
    webhook_files = λ h. ground arith;
    probes = refl;
    elects = refl;
    nodes = λ t m rest. refl;
    others = λ x. refl;
  }

-- Flags that nothing sets: the image and the role are those of the environment, and neither HTTP/2
-- nor leader election is on, but metrics are secure.
pub record IsDefault (getenv : String → String) (f : Flags) : Type 0 where
  pub repository : f.broadcast_image_repository ≡ getenv "BROADCAST_IMAGE_REPOSITORY"
  pub tag : f.broadcast_image_tag ≡ getenv "BROADCAST_IMAGE_TAG"
  pub role : f.broadcast_role ≡ getenv "BROADCAST_ROLE"
  pub plain : f.enable_http2 ≡ false
  pub alone : f.enable_leader_election ≡ false
  pub secure : f.secure_metrics ≡ true

module _ {X W E K : Type 0} (c : Client X W E) (m : Manager X W K)
    (deep_equal : Option StringMap → Option StringMap → Bool) where
  -- The manager with its options, the three controllers with their reconcilers, the first two with
  -- the image `repository:tag` and the role of the flags, the two checks, and the run of the manager
  abbrev pub startup : Flags → List (Call W K (Unit {0}))
  startup f =
      m.new_manager (manager_options f)
      ∷ m.complete (setup_daemon_job c) (
          daemon_job (record {
            broadcast_image = f.broadcast_image_repository <> (":" <> f.broadcast_image_tag);
            broadcast_role = f.broadcast_role;
          }))
      ∷ m.complete (setup_daemon_cron_job c) (
          daemon_cron_job (record {
            broadcast_image = f.broadcast_image_repository <> (":" <> f.broadcast_image_tag);
            broadcast_role = f.broadcast_role;
          }))
      ∷ m.complete (setup_daemon_cron_job_set c deep_equal) daemon_cron_job_set
      ∷ m.add_healthz_check "healthz"
      ∷ m.add_readyz_check "readyz"
      ∷ m.start
      ∷ []
