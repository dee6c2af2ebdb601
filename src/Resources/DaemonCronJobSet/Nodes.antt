-- ===== src/Resources/DaemonCronJobSet/Nodes.antt =====
-- The CronJobs of a DaemonCronJobSet: ListNodes and CronJobs of daemoncronjobset.go.
use daemonjob.Prelude.{String, ◌≡◌, refl, Option, some, List, [], ◌∷◌, map}
use daemonjob.StringMap.{get}
use daemonjob.Result.{Result, ok, err}
use daemonjob.Kube.{CronJob, Node}
use daemonjob.Api.{DaemonCronJobSet}
use daemonjob.Resources.Constants.{label_node}
use daemonjob.Resources.DaemonJob.{or_empty}
use daemonjob.Resources.DaemonCronJobSet.{new_cron_job_for_node}
use daemonjob.Resources.DaemonCronJobSet.Cron.{new_cron_job_for_node-selected}
use daemonjob.Client
use daemonjob.Client.{Client, Call, continue, pure, ◌>>=◌}
use daemonjob.Client.Selectors.{ListOptions}

abbrev pub set_node_options : {X : Type 0} → DaemonCronJobSet X → ListOptions
set_node_options a = record { namespace = ""; selector = or_empty a.spec.node_selector }

module _ {X W E : Type 0} (c : Client X W E) (a : DaemonCronJobSet X) where
  unfoldable pub list_set_nodes : Call W E (List String)
  list_set_nodes = do
    nodes ← c.list Client.node (set_node_options a)
    pure (map (λ n. n.name) nodes)

  unfoldable pub set_cron_jobs : Call W E (List (CronJob X))
  unfolding list_set_nodes
  set_cron_jobs = do names ← list_set_nodes; pure (map (new_cron_job_for_node a) names)

  abbrev pub node_of : CronJob X → Option String
  node_of j = get (or_empty j.metadata.labels) label_node

  nodes_of :
      (nodes : List Node)
      → map node_of (map (new_cron_job_for_node a) (map (λ n. n.name) nodes))
        ≡ map (λ n. some n.name) nodes
  nodes_of [] = refl
  nodes_of (n ∷ nodes) =
      rw (nodes_of nodes) (rw ((new_cron_job_for_node-selected a n.name "" "").0.0) refl)

  -- What the result of CronJobs says about the list call.
  abbrev pub Covers : W → Result E (List (CronJob X)) × W → Type 0
  Covers w (ok js, w') =
      (nodes : List Node) × (c.list Client.node (set_node_options a) w ≡ (ok nodes, w'))
      × (map node_of js ≡ map (λ n. some n.name) nodes)
  Covers w (err e, w') = c.list Client.node (set_node_options a) w ≡ (err e, w')

  listed-Covers :
      (w : W) (r : Result E (List Node) × W)
      → c.list Client.node (set_node_options a) w ≡ r
      → Covers w (
          continue
            (λ names. pure (map (new_cron_job_for_node a) names))
            (continue (λ nodes. pure (map (λ n. n.name) nodes)) r))
  listed-Covers w (ok nodes, w') e = (nodes, e, nodes_of nodes)
  listed-Covers w (err x, w') e = e

  -- CronJobs fails exactly with the error of the list of the selected nodes; otherwise it returns one
  -- CronJob for each of them, in their order, labelled with the node's name.
  pub set_cron_jobs-Covers : (w : W) → Covers w (set_cron_jobs w)
  unfolding set_cron_jobs
  set_cron_jobs-Covers w = listed-Covers w (c.list Client.node (set_node_options a) w) refl
