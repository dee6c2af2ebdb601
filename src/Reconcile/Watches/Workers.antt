-- ===== src/Reconcile/Watches/Workers.antt =====
-- The deletion of a node with worker Jobs: which reconciler gets a request for which of them.
use daemonjob.Prelude.{
  String, ◌≡◌, refl, ap, ◌∙◌, Bool, not, Option, none, some, List, [], ◌∷◌, map, ◌==◌, All,
  delete_func, if◌then◌else◌, Bool-cases, inl, inr, arith,
}
use daemonjob.StringMap.{get}
use daemonjob.Result.{ok}
use daemonjob.Kube.{Job}
use daemonjob.Api.{DaemonJobSpec}
use daemonjob.Resources.Constants.{label_daemon_job_name, label_daemon_cron_job_name}
use daemonjob.Resources.DaemonJob.{or_empty}
use daemonjob.Broadcast.Config.{Config}
use daemonjob.Broadcast.Worker.{build_worker_job}
use daemonjob.Broadcast.Worker.Labels.{build_worker_job-labels, expected_label, owner_name}
use daemonjob.Client
use daemonjob.Client.{Client}
use daemonjob.Client.Selectors.{worker_jobs_by_node}
use daemonjob.Reconcile.Watches.{Request, owner_of, has_owner, owner_requests}
use daemonjob.Reconcile.DaemonJob.Watch.{node_deleted, daemon_job_worker_jobs_by_node}
use daemonjob.Reconcile.DaemonCronJob.Watch.{cron_node_deleted, daemon_cron_job_worker_jobs_by_node}

-- What a worker Job was built from.
pub record Origin (X : Type 0) : Type 0 where
  pub config : Config
  pub node : String
  pub spec : DaemonJobSpec X

module _ {X : Type 0} where
  abbrev pub worker_of : Origin X → Job X
  worker_of o = build_worker_job o.config o.node o.spec

  -- A Job in the cluster that was created as this worker Job: its namespace and labels are still the
  -- same. What else the API server and the Job controller add or change is left open.
  abbrev pub IsStoredAs : Origin X → Job X → Type 0
  IsStoredAs o j =
      (j.metadata.namespace ≡ (worker_of o).metadata.namespace)
      × (j.metadata.labels ≡ (worker_of o).metadata.labels)

  -- A broadcast for a DaemonCronJob has no name of a DaemonJob.
  abbrev pub is_cron : Origin X → Bool
  is_cron o = o.config.daemon_job_name == ""

  abbrev pub template_owner : String → Origin X → Option String
  template_owner label o = get (or_empty o.spec.job_template.metadata.labels) label

  -- The template does not name an owner itself.
  abbrev pub Plain : Origin X → Type 0
  Plain o =
      (template_owner label_daemon_job_name o ≡ none)
      × (template_owner label_daemon_cron_job_name o ≡ none)

  abbrev pub origin_request : Origin X → Request
  origin_request o = record { namespace = o.config.namespace; name = owner_name o.config }

  -- A list by a label that already has only objects with this label keeps their requests.
  owner_requests-delete_func :
      (label : String) (js : List (Job X))
      → owner_requests label
          (map (λ j. j.metadata) (delete_func (λ j. not (has_owner label j.metadata)) js))
        ≡ owner_requests label (map (λ j. j.metadata) js)
  unfolding owner_requests
  owner_requests-delete_func label [] = refl
  owner_requests-delete_func label (j ∷ js) = ground (arith, owner_requests-delete_func label js)

  worker-namespace : (o : Origin X) → (worker_of o).metadata.namespace ≡ o.config.namespace
  unfolding build_worker_job
  worker-namespace o = refl

  owner_of-worker :
      (label : String) (o : Origin X)
      → owner_of label (worker_of o).metadata ≡ expected_label o.config o.node o.spec label
  owner_of-worker label o = (build_worker_job-labels o.config o.node o.spec label).0

  daemon_job_owner :
      (o : Origin X)
      → Plain o
      → owner_of label_daemon_job_name (worker_of o).metadata
        ≡ (if is_cron o then none else some (owner_name o.config))
  daemon_job_owner o h = elim (Bool-cases (is_cron o)) [
    | inl c ↦ owner_of-worker label_daemon_job_name o ∙ simp (c, h.0)
    | inr c ↦ owner_of-worker label_daemon_job_name o ∙ simp (c, h.0)
  ]

  daemon_cron_job_owner :
      (o : Origin X)
      → Plain o
      → owner_of label_daemon_cron_job_name (worker_of o).metadata
        ≡ (if not (is_cron o) then none else some (owner_name o.config))
  daemon_cron_job_owner o h = elim (Bool-cases (is_cron o)) [
    | inl c ↦ owner_of-worker label_daemon_cron_job_name o ∙ simp (c, h.1)
    | inr c ↦ owner_of-worker label_daemon_cron_job_name o ∙ simp (c, h.1)
  ]

  owner_requests-workers :
      (label : String) (other : Origin X → Bool)
      → ((o : Origin X)
          → Plain o
          → owner_of label (worker_of o).metadata
            ≡ (if other o then none else some (owner_name o.config)))
      → (ps : List (Origin X × Job X)) → All (λ p. Plain p.0 × IsStoredAs p.0 p.1) ps
      → owner_requests label (map (λ j. j.metadata) (map (λ p. p.1) ps))
        ≡ map origin_request (delete_func other (map (λ p. p.0) ps))
  unfolding owner_requests
  owner_requests-workers label other h [] p = refl
  owner_requests-workers label other h ((o, j) ∷ ps) ((plain, (namespace, labels)), rest) = ground (
    arith,
    h o plain,
    ap (λ m. get (or_empty m) label) labels,
    namespace ∙ worker-namespace o,
    owner_requests-workers label other h ps rest,
  )

module _ {X W E : Type 0} (c : Client X W E) where
  -- Where each Job in the list of the worker Jobs on a node was created by a broadcast, from a template
  -- which names no owner itself, and still has its namespace and labels: the deletion of the node
  -- leads to one request for each of them, in their order, for the owner in its broadcast's
  -- configuration. The watch of DaemonJobs makes those for DaemonJobs and the watch of DaemonCronJobs
  -- the others.
  pub node_deleted-workers :
      (node : String) (w w' : W) (ps : List (Origin X × Job X))
      → All (λ p. Plain p.0 × IsStoredAs p.0 p.1) ps
      → c.list Client.job (worker_jobs_by_node node) w ≡ (ok (map (λ p. p.1) ps), w')
      → (node_deleted c node w ≡ (map origin_request (delete_func is_cron (map (λ p. p.0) ps)), w'))
        × (cron_node_deleted c node w
            ≡ (map origin_request (delete_func (λ o. not (is_cron o)) (map (λ p. p.0) ps)), w'))
  unfolding node_deleted cron_node_deleted daemon_job_worker_jobs_by_node
      daemon_cron_job_worker_jobs_by_node
  node_deleted-workers node w w' ps stored listed = (
    rw listed (
        ap (λ rs. (rs, w'))
          (owner_requests-delete_func label_daemon_job_name (map (λ p. p.1) ps)
            ∙ owner_requests-workers label_daemon_job_name is_cron daemon_job_owner ps stored)),
    rw listed (
        ap (λ rs. (rs, w'))
          (owner_requests-delete_func label_daemon_cron_job_name (map (λ p. p.1) ps)
            ∙ owner_requests-workers label_daemon_cron_job_name (λ o. not (is_cron o))
                daemon_cron_job_owner ps stored)),
  )
