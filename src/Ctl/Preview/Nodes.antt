-- ===== src/Ctl/Preview/Nodes.antt =====
-- For which nodes the Jobs and the CronJobs of a preview are.
use daemonjob.Prelude.{
  String, ◌≡◌, refl, ap, ◌∙◌, Option, none, some, List, [], ◌∷◌, map, ◌==◌, Bool-cases, inl, inr,
}
use daemonjob.StringMap.{get}
use daemonjob.Api.{DaemonJobSpec, DaemonCronJobSet}
use daemonjob.Resources.DaemonJob.{or_empty}
use daemonjob.Resources.DaemonCronJobSet.{new_cron_job_for_node}
use daemonjob.Resources.DaemonCronJobSet.Cron.{new_cron_job_for_node-selected}
use daemonjob.Broadcast.Config.{Config}
use daemonjob.Broadcast.Worker.{build_worker_job}
use daemonjob.Broadcast.Worker.Labels.{build_worker_job-labels}
use daemonjob.Ctl.Resource
use daemonjob.Ctl.Resource.{ApiObject, AnnotatedResource}

module _ {X U : Type 0} where
  -- The node in the label of a Job or a CronJob
  abbrev pub node_of : ApiObject X U → Option String
  node_of (Resource.job j) = get (or_empty j.metadata.labels) "daemonjob.berquerant.github.io/node"
  node_of (Resource.cron_job c) =
      get (or_empty c.metadata.labels) "daemonjob.berquerant.github.io/node"
  node_of o = none

module _ {X : Type 0} (U : Type 0) where
  worker-node :
      (cfg : Config) (spec : DaemonJobSpec X) (n : String)
      → node_of {U = U} (Resource.job (build_worker_job cfg n spec)) ≡ some n
  worker-node cfg spec n =
      (build_worker_job-labels cfg n spec "daemonjob.berquerant.github.io/node").0
      ∙ elim (Bool-cases (cfg.daemon_job_name == "")) [ inl h ↦ rw (h) refl | inr h ↦ rw (h) refl ]

  pub nodes_of_workers :
      (cfg : Config) (spec : DaemonJobSpec X) (nodes : List String)
      → map (node_of {U = U}) (map (λ n. Resource.job (build_worker_job cfg n spec)) nodes)
        ≡ map some nodes
  nodes_of_workers cfg spec [] = refl
  nodes_of_workers cfg spec (n ∷ ns) =
      rw (worker-node cfg spec n) (ap (◌∷◌ (some n)) (nodes_of_workers cfg spec ns))

  abbrev pub noted : (String → String) → DaemonCronJobSet X → String → AnnotatedResource X U
  noted comment d n = record {
    comment = comment n;
    object = Resource.cron_job (new_cron_job_for_node d n);
  }

  pub nodes_of_cron_jobs :
      (comment : String → String) (d : DaemonCronJobSet X) (nodes : List String)
      → map (node_of {U = U}) (map (λ r. r.object) (map (noted comment d) nodes)) ≡ map some nodes
  nodes_of_cron_jobs comment d [] = refl
  nodes_of_cron_jobs comment d (n ∷ ns) =
      rw ((new_cron_job_for_node-selected d n "" "").0.0)
        (ap (◌∷◌ (some n)) (nodes_of_cron_jobs comment d ns))
