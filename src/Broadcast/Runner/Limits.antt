-- ===== src/Broadcast/Runner/Limits.antt =====
-- The limits of Kubernetes on names and labels, and what a node beyond them does to a broadcast.
use Prim.Native.String.{count}
use text.Mathlib.TextLemmas.{length-append}
use daemonjob.Prelude.{
  ℕ, ◌+◌, ◌≤◌, ◌<◌, String, ◌<>◌, true, ◌≡◌, ◌⊎◌, ◌↔◌, inl, inr, ◌∙◌, ◌==◌, Bool-cases, some, List,
  ◌∷◌, ◌++◌, arith,
}
use daemonjob.StringMap.{get}
use daemonjob.Result.{ok, err}
use daemonjob.Kube.{Job, Node}
use daemonjob.Api.{DaemonJobSpec}
use daemonjob.Resources.Constants.{label_node}
use daemonjob.Resources.DaemonJob
use daemonjob.Resources.DaemonJob.{DaemonJobBroadcastArgs, or_empty}
use daemonjob.Client
use daemonjob.Client.{Client, Call, continue, recover}
use daemonjob.Client.Laws.{IsQuiet}
use daemonjob.Broadcast.Config.{Config}
use daemonjob.Broadcast.Pod.{runtime_config}
use daemonjob.Broadcast.Worker.{build_worker_job}
use daemonjob.Broadcast.Worker.Labels.{build_worker_job-labels, expected_label}
use daemonjob.Broadcast.Runner.Refusal.{run-refused}
use daemonjob.Broadcast.Runner.{dry_run_failed, fetch_spec, find_nodes, run}

-- The number of characters that the name of a Job, and the value of a label, may have at most
abbrev pub name_limit : ℕ
name_limit = 63

-- A dry run is validated like a creation: it fails for a name or a label value beyond the limit.
pub record IsValidating {X W E : Type 0} (c : Client X W E) : Type 0 where
  pub checks_name :
      (j : Job X) (w : W)
      → name_limit < count j.metadata.name
      → (e : E) × (w' : W) × (c.create true Client.job j w ≡ (err e, w'))
  pub checks_label :
      (j : Job X) (key value : String) (w : W)
      → get (or_empty j.metadata.labels) key ≡ some value
      → name_limit < count value
      → (e : E) × (w' : W) × (c.create true Client.job j w ≡ (err e, w'))

module _ {X : Type 0} (cfg : Config) (node : String) (spec : DaemonJobSpec X) where
  count-build_worker_job :
      count (build_worker_job cfg node spec).metadata.name ≡ count cfg.self_name + count node + 1
  unfolding build_worker_job
  count-build_worker_job =
      omega (arith, length-append cfg.self_name ("-" <> node), length-append "-" node)

  expected_label-node : expected_label cfg node spec label_node ≡ some node
  expected_label-node = elim (Bool-cases (cfg.daemon_job_name == "")) [
    | inl none_given ↦ simp none_given
    | inr given ↦ simp given
  ]

-- The name of a worker Job of a DaemonJob is within the limit exactly if the names of the DaemonJob
-- and of the node have at most 59 characters together.
pub build_worker_job-fits :
    {X : Type 0} (a : DaemonJobBroadcastArgs X) (uid node : String) (spec : DaemonJobSpec X)
    → (count (build_worker_job (runtime_config a uid) node spec).metadata.name ≤ name_limit)
      ↔ (count a.daemon_job.metadata.name + count node ≤ 59)
unfolding DaemonJob.resource_name
build_worker_job-fits a uid node spec =
    let size = count-build_worker_job (runtime_config a uid) node spec in
    let named = length-append a.daemon_job.metadata.name "-dj" in
    (λ h. omega (arith, size, named, h), λ h. omega (arith, size, named, h))

-- A node whose worker Job is beyond a limit
abbrev pub IsOversized : Config → Node → Type 0
IsOversized cfg n =
    (name_limit < count cfg.self_name + count n.name + 1) ⊎ (name_limit < count n.name)

module _ {X W E : Type 0} (c : Client X W E) (cfg : Config) (spec : DaemonJobSpec X) where
  oversized-refused :
      (validating : IsValidating c) (n : Node) (w : W)
      → IsOversized cfg n
      → (e : E) × (w' : W) × (c.create true Client.job (build_worker_job cfg n.name spec) w
          ≡ (err e, w'))
  oversized-refused validating n w (inl long) =
      validating.checks_name (build_worker_job cfg n.name spec) w
        (omega (arith, count-build_worker_job cfg n.name spec, long))
  oversized-refused validating n w (inr long) =
      validating.checks_label (build_worker_job cfg n.name spec) label_node n.name w
        ((build_worker_job-labels cfg n.name spec label_node).0
          ∙ expected_label-node cfg n.name spec)
        long

  -- Where dry runs are validated, and reads and dry runs do not change the cluster: if some node that
  -- the run has read is oversized, that is, its name has more than 63 characters, or together with the
  -- name of the broadcast Job and the dash between them, then the run ends with the error of a dry run
  -- and leaves the cluster as it was. So no node gets a worker Job, not even those whose names fit.
  pub run-oversized :
      (validating : IsValidating c) (quiet : IsQuiet c) (before : List Node) (n : Node)
      (after : List Node) (w w1 w2 : W)
      → fetch_spec c cfg w ≡ (ok spec, w1)
      → find_nodes c cfg spec w1 ≡ (ok (before ++ n ∷ after), w2)
      → IsOversized cfg n
      → (name : String) × (e : E) × (run c cfg w ≡ (err (dry_run_failed name e), w))
  run-oversized validating quiet before n after w w1 w2 fetched found long =
      run-refused c cfg spec quiet before n after w w1 w2 fetched found
        (oversized-refused validating n w long)
