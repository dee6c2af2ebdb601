-- ===== src/Broadcast/Runner.antt =====
-- internal/broadcast/broadcast.go, Runner.Run: find the nodes, try every worker Job with a dry run,
-- then create them.
pub mod Outcome
pub mod Created
pub mod Refusal
pub mod Limits
pub mod Again
use daemonjob.Prelude.{
  String, Bool, true, false, not, Option, none, some, List, [], ◌∷◌, map, ◌==◌, if◌then◌else◌,
}
use daemonjob.StringMap.{StringMap, empty, is_empty}
use daemonjob.Result.{Result, ok, err}
use daemonjob.Kube.{Job, Node}
use daemonjob.Api.{DaemonJobSpec, DaemonJob, DaemonCronJob}
use daemonjob.Resources.DaemonJob.{or_empty}
use daemonjob.Client
use daemonjob.Client.{Client, Call, pure, wrap, ◌>>=◌, ◌>>◌}
use daemonjob.Client.Selectors.{ListOptions}
use daemonjob.Broadcast.Config.{Config}
use daemonjob.Broadcast.Worker.{build_worker_job}

-- The contexts that Run adds to an error of the client.
pub data RunError (E : Type 0) : Type 0 where
  get_daemon_job get_daemon_cron_job : (namespace name : String) → E → RunError E
  list_nodes : E → RunError E
  dry_run_failed create_failed : (job : String) → E → RunError E

-- The DaemonJobSpec that a DaemonCronJob stands for.
unfoldable pub spec_of_cron : {X : Type 0} → DaemonCronJob X → DaemonJobSpec X
spec_of_cron d =
    let job_template = d.spec.cron_job_template.spec.job_template in
    record {
      job_template = record {
        metadata = record { labels = job_template.labels; annotations = job_template.annotations };
        spec = job_template.spec;
      };
      broadcast_job_spec = d.spec.broadcast_job_spec;
      node_selector = d.spec.node_selector;
    }

-- client.MatchingLabels(nodeSelector), where there is one
abbrev pub node_list_options : Option StringMap → ListOptions
node_list_options selector = record {
  namespace = "";
  selector = if is_empty (or_empty selector) then empty else or_empty selector;
}

module _ {X W E : Type 0} (c : Client X W E) (cfg : Config) where
  unfoldable pub fetch_spec : Call W (RunError E) (DaemonJobSpec X)
  unfolding spec_of_cron
  fetch_spec =
      if not (cfg.daemon_job_name == "")
      then (do
        d ←
            wrap (get_daemon_job cfg.namespace cfg.daemon_job_name)
              (c.get Client.daemon_job cfg.namespace cfg.daemon_job_name)
        pure d.spec)
      else do
        d ←
            wrap (get_daemon_cron_job cfg.namespace cfg.daemon_cron_job_name)
              (c.get Client.daemon_cron_job cfg.namespace cfg.daemon_cron_job_name)
        pure (spec_of_cron d)

  -- for _, node := range nodeList.Items
  abbrev pub build_jobs : DaemonJobSpec X → List Node → List (Job X)
  build_jobs spec nodes = map (λ n. build_worker_job cfg n.name spec) nodes

  -- The first loop, with `dry`, and the second: both end at the first error.
  unfoldable pub create_all : Bool → List (Job X) → Call W (RunError E) (Unit {0})
  create_all dry [] = pure tt
  create_all dry (j ∷ js) =
      let rest = create_all dry js in
      do
        wrap (if dry then dry_run_failed j.metadata.name else create_failed j.metadata.name)
            (c.create dry Client.job j)
        rest

  unfoldable pub apply_jobs : List (Job X) → Call W (RunError E) (Unit {0})
  unfolding create_all
  apply_jobs js = do create_all true js; create_all false js

  -- Nothing is created where no node was found.
  abbrev pub process : DaemonJobSpec X → List Node → Call W (RunError E) (Unit {0})
  process spec [] = pure tt
  process spec (n ∷ ns) = apply_jobs (build_jobs spec (n ∷ ns))

  abbrev pub find_nodes : DaemonJobSpec X → Call W (RunError E) (List Node)
  find_nodes spec = wrap list_nodes (c.list Client.node (node_list_options spec.node_selector))

  unfoldable pub run : Call W (RunError E) (Unit {0})
  unfolding fetch_spec apply_jobs
  run = do spec ← fetch_spec; nodes ← find_nodes spec; process spec nodes
