-- ===== src/Reconcile/DaemonJob/Watch.antt =====
-- The watches of the reconciler of a DaemonJob: which requests a change of a Job, or the deletion of
-- a node, leads to. An error of the list on a deleted node is logged and leads to none.
use daemonjob.Prelude.{
  String, ◌≡◌, ◌∙◌, refl, false, not, Option, none, some, List, [], ◌∷◌, map, ◌==◌, delete_func,
  if◌then◌else◌,
}
use daemonjob.Result.{Result, ok, err}
use daemonjob.Kube.{Job}
use daemonjob.Api.{DaemonJobSpec}
use daemonjob.Resources.Constants.{label_daemon_job_name}
use daemonjob.Broadcast.Config.{Config}
use daemonjob.Broadcast.Worker.{build_worker_job}
use daemonjob.Broadcast.Worker.Labels.{build_worker_job-labels, expected_label}
use daemonjob.Reconcile.Watches.{Request, owner_of, has_owner, owner_requests}
use daemonjob.Client
use daemonjob.Client.{Client, Call, pure, ◌>>=◌}
use daemonjob.Client.Selectors.{worker_jobs_by_node}

-- A Job with an empty name in its label is ignored, like one without the label.
abbrev pub named_request : (namespace : String) → Option String → List Request
named_request namespace none = []
named_request namespace (some name) =
    if name == "" then [] else record { namespace = namespace; name = name } ∷ []

module _ {X : Type 0} where
  abbrev pub daemon_job_label : Job X → Option String
  daemon_job_label j = owner_of label_daemon_job_name j.metadata

  unfoldable pub job_requests : Job X → List Request
  job_requests j = named_request j.metadata.namespace (daemon_job_label j)

  worker-namespace :
      (cfg : Config) (node : String) (spec : DaemonJobSpec X)
      → (build_worker_job cfg node spec).metadata.namespace ≡ cfg.namespace
  unfolding build_worker_job
  worker-namespace cfg node spec = refl

  expected-name :
      (cfg : Config) (node : String) (spec : DaemonJobSpec X)
      → (cfg.daemon_job_name == "") ≡ false
      → expected_label cfg node spec label_daemon_job_name ≡ some cfg.daemon_job_name
  expected-name cfg node spec given = simp given

  worker-label :
      (cfg : Config) (node : String) (spec : DaemonJobSpec X)
      → (cfg.daemon_job_name == "") ≡ false
      → daemon_job_label (build_worker_job cfg node spec) ≡ some cfg.daemon_job_name
  worker-label cfg node spec given =
      (build_worker_job-labels cfg node spec label_daemon_job_name).0
      ∙ expected-name cfg node spec given

  -- Where the configuration names a DaemonJob, a change of a worker Job leads to one request: for the
  -- DaemonJob of that name in the namespace of the broadcast.
  pub job_requests-build_worker_job :
      (cfg : Config) (node : String) (spec : DaemonJobSpec X)
      → (cfg.daemon_job_name == "") ≡ false
      → job_requests (build_worker_job cfg node spec)
        ≡ record { namespace = cfg.namespace; name = cfg.daemon_job_name } ∷ []
  unfolding job_requests
  job_requests-build_worker_job cfg node spec given =
      rw (worker-label cfg node spec given) (rw (given) (rw (worker-namespace cfg node spec) refl))

module _ {X W E : Type 0} (c : Client X W E) where
  unfoldable pub daemon_job_worker_jobs_by_node : String → Call W E (List (Job X))
  daemon_job_worker_jobs_by_node node = do
    jobs ← c.list Client.job (worker_jobs_by_node node)
    pure (delete_func (λ j. not (has_owner label_daemon_job_name j.metadata)) jobs)

  abbrev pub requests_of : Result E (List (Job X)) × W → List Request × W
  requests_of (ok jobs, w) = (owner_requests label_daemon_job_name (map (λ j. j.metadata) jobs), w)
  requests_of (err e, w) = ([], w)

  unfoldable pub node_deleted : String → W → List Request × W
  node_deleted node w = requests_of (daemon_job_worker_jobs_by_node node w)
