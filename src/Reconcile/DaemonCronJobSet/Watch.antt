-- ===== src/Reconcile/DaemonCronJobSet/Watch.antt =====
-- The watch on nodes of the reconciler of a DaemonCronJobSet: which events pass the predicates, and
-- the requests that an event leads to.
use daemonjob.Prelude.{
  arith, String, ◌≡◌, refl, ap, Bool, true, false, not, Option, List, [], ◌∷◌, map, delete_func,
  All, ◌∙◌, if◌then◌else◌,
}
use daemonjob.StringMap.{StringMap, empty, get}
use daemonjob.Resources.DaemonJob.{or_empty}
use daemonjob.Result.{Result, ok, err}
use daemonjob.Kube.{CronJob}
use daemonjob.Api.{DaemonCronJobSet}
use daemonjob.Resources.Constants.{label_daemon_cron_job_set_name}
use daemonjob.Resources.DaemonCronJobSet.{new_cron_job_for_node}
use daemonjob.Resources.DaemonCronJobSet.Cron.{
  new_cron_job_for_node-owner, new_cron_job_for_node-namespace,
}
use daemonjob.Client
use daemonjob.Client.{Client, Call, pure, ◌>>=◌}
use daemonjob.Client.Selectors.{ListOptions, worker_cron_jobs_by_node}
use daemonjob.Reconcile.Watches.{Request, has_owner, owner_requests}

-- An event of a node; an update has the labels before and after.
pub data NodeEvent : Type 0 where
  created deleted generic : NodeEvent
  updated : (before after : Option StringMap) → NodeEvent

-- `deep_equal` is reflect.DeepEqual.
unfoldable pub passes : (deep_equal : Option StringMap → Option StringMap → Bool) → NodeEvent → Bool
passes deep_equal created = true
passes deep_equal deleted = true
passes deep_equal generic = false
passes deep_equal (updated before after) = not (deep_equal before after)

abbrev all_namespaces : ListOptions
all_namespaces = record { namespace = ""; selector = empty }

module _ {X : Type 0} where
  abbrev pub set_request : DaemonCronJobSet X → Request
  set_request d = record { namespace = d.metadata.namespace; name = d.metadata.name }

module _ {X W E : Type 0} (c : Client X W E) where
  unfoldable pub daemon_cron_job_set_cron_jobs_by_node : String → Call W E (List (CronJob X))
  daemon_cron_job_set_cron_jobs_by_node node = do
    jobs ← c.list Client.cron_job (worker_cron_jobs_by_node node)
    pure (delete_func (λ j. not (has_owner label_daemon_cron_job_set_name j.metadata)) jobs)

  abbrev set_requests_of : Result E (List (CronJob X)) × W → List Request × W
  set_requests_of (ok jobs, w) =
      (owner_requests label_daemon_cron_job_set_name (map (λ j. j.metadata) jobs), w)
  set_requests_of (err e, w) = ([], w)

  abbrev all_requests_of : Result E (List (DaemonCronJobSet X)) × W → List Request × W
  all_requests_of (ok sets, w) = (map set_request sets, w)
  all_requests_of (err e, w) = ([], w)

  -- `deleting`: the node has a deletion timestamp.
  unfoldable pub node_changed : (deleting : Bool) → String → W → List Request × W
  node_changed deleting node w =
      if deleting
      then set_requests_of (daemon_cron_job_set_cron_jobs_by_node node w)
      else all_requests_of (c.list Client.daemon_cron_job_set all_namespaces w)

  -- What the controller makes of an event and of the node that it shows: one that a predicate drops
  -- never comes to the map function, and of an update this is the call for one of its two nodes.
  unfoldable pub node_event :
      (deep_equal : Option StringMap → Option StringMap → Bool)
      → NodeEvent
      → (deleting : Bool) → String
      → W
      → List Request × W
  unfolding passes node_changed
  node_event deep_equal event deleting node w =
      if passes deep_equal event then node_changed deleting node w else ([], w)

module _ {X : Type 0} where
  -- A CronJob in the cluster that was created for this set and node: its namespace and labels are
  -- still the same. It has an owner besides, and what else the API server adds is left open.
  abbrev pub IsStoredFor : DaemonCronJobSet X × String → CronJob X → Type 0
  IsStoredFor (d, node) j =
      (j.metadata.namespace ≡ (new_cron_job_for_node d node).metadata.namespace)
      × (j.metadata.labels ≡ (new_cron_job_for_node d node).metadata.labels)

  owner_requests-stored :
      (ps : List ((DaemonCronJobSet X × String) × CronJob X))
      → All (λ p. IsStoredFor p.0 p.1) ps
      → owner_requests label_daemon_cron_job_set_name (
          map
            (λ j. j.metadata)
            (delete_func
              (λ j. not (has_owner label_daemon_cron_job_set_name j.metadata))
              (map (λ p. p.1) ps)))
        ≡ map (λ p. set_request p.0.0) ps
  unfolding owner_requests
  owner_requests-stored [] h = refl
  owner_requests-stored (((d, node), j) ∷ ps) ((namespace, labels), rest) = ground (
    arith,
    ap (λ m. get (or_empty m) label_daemon_cron_job_set_name) labels
        ∙ new_cron_job_for_node-owner d node,
    namespace ∙ new_cron_job_for_node-namespace d node,
    owner_requests-stored ps rest,
  )

-- Whether an event is of interest: not an update that leaves the labels as they are, and no
-- generic one
abbrev pub Matters : (Option StringMap → Option StringMap → Bool) → NodeEvent → Type 0
Matters deep_equal generic = ⊥
Matters deep_equal (updated before after) = deep_equal before after ≡ false
Matters deep_equal e = Unit

passes-Matters :
    (deep_equal : Option StringMap → Option StringMap → Bool) (e : NodeEvent)
    → Matters deep_equal e
    → passes deep_equal e ≡ true
unfolding passes
passes-Matters deep_equal created m = refl
passes-Matters deep_equal deleted m = refl
passes-Matters deep_equal generic m = absurd m
passes-Matters deep_equal (updated before after) m = rw (m) refl

module _ {X W E : Type 0} (c : Client X W E) where
  -- An update of a node that leaves its labels as they are (by reflect.DeepEqual), and a generic
  -- event, lead to no request and no call. Any other event, where the lists succeed: of a node that is
  -- being deleted, to one request for each listed CronJob on it, in their order, for the
  -- DaemonCronJobSet for which it was created, if the CronJobs still have their namespace and labels;
  -- of another node, to one request for each DaemonCronJobSet.
  pub node_event-requests :
      (deep_equal : Option StringMap → Option StringMap → Bool) (node : String) (w w' : W)
      (ps : List ((DaemonCronJobSet X × String) × CronJob X)) (sets : List (DaemonCronJobSet X))
      → All (λ p. IsStoredFor p.0 p.1) ps
      → c.list Client.cron_job (worker_cron_jobs_by_node node) w ≡ (ok (map (λ p. p.1) ps), w')
      → c.list Client.daemon_cron_job_set all_namespaces w ≡ (ok sets, w')
      → ((e : NodeEvent)
          → Matters deep_equal e
          → (node_event c deep_equal e true node w ≡ (map (λ p. set_request p.0.0) ps, w'))
            × (node_event c deep_equal e false node w ≡ (map set_request sets, w')))
        × ((deleting : Bool) → node_event c deep_equal generic deleting node w ≡ ([], w))
        × ((before after : Option StringMap) (deleting : Bool)
            → deep_equal before after ≡ true
            → node_event c deep_equal (updated before after) deleting node w ≡ ([], w))
  unfolding node_event node_changed passes daemon_cron_job_set_cron_jobs_by_node
  node_event-requests deep_equal node w w' ps sets stored on_node all = (
    λ e m. (
      rw (passes-Matters deep_equal e m, on_node)
          (ap (λ rs. (rs, w')) (owner_requests-stored ps stored)),
      rw (passes-Matters deep_equal e m, all) refl,
    ),
    λ deleting. refl,
    λ before after deleting same. rw (same) refl,
  )
