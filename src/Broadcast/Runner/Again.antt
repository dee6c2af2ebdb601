-- ===== src/Broadcast/Runner/Again.antt =====
-- A broadcast that runs again, as that of a DaemonJob does when its Job is made anew.
use daemonjob.Prelude.{String, ◌<>◌, true, ◌≡◌, subst, List, [], ◌∷◌, ◌++◌, All}
use daemonjob.Result.{Result, ok, err}
use daemonjob.Kube.{Job, Node}
use daemonjob.Api.{DaemonJobSpec}
use daemonjob.Client
use daemonjob.Client.{Client}
use daemonjob.Client.Laws.{IsQuiet, IsStored}
use daemonjob.Broadcast.Config.{Config}
use daemonjob.Broadcast.Worker.{build_worker_job}
use daemonjob.Broadcast.Runner.{RunError, dry_run_failed, fetch_spec, find_nodes, build_jobs, run}
use daemonjob.Broadcast.Runner.Created.{Ended, refused, created, run-Ended}
use daemonjob.Broadcast.Runner.Refusal.{run-refused}

-- A dry run for a name and a namespace that a Job in the cluster has already fails.
abbrev pub Excludes : {X W E : Type 0} → Client X W E → (W → Job X → Type 0) → Type 0
Excludes {X = X} {W = W} {E = E} c Stored =
    (i j : Job X) (w : W)
    → Stored w i
    → j.metadata.name ≡ i.metadata.name
    → j.metadata.namespace ≡ i.metadata.namespace
    → (e : E) × (w' : W) × (c.create true Client.job j w ≡ (err e, w'))

module _ {X W E : Type 0} (c : Client X W E) (Stored : W → Job X → Type 0)
    (laws : IsStored c Stored) (cfg : Config) (spec : DaemonJobSpec X) where
  All-job :
      (w : W) (before : List Node) (n : Node) (after : List Node)
      → All (Stored w) (build_jobs c cfg spec (before ++ n ∷ after))
      → Stored w (build_worker_job cfg n.name spec)
  All-job w [] n after h = h.0
  All-job w (b ∷ before) n after h = All-job w before n after h.1

  Ended-job :
      (before : List Node) (n : Node) (after : List Node) (w w1 w2 w' : W)
      (r : Result (RunError E) (Unit {0}) × W)
      → fetch_spec c cfg w ≡ (ok spec, w1)
      → find_nodes c cfg spec w1 ≡ (ok (before ++ n ∷ after), w2)
      → r ≡ (ok tt, w')
      → Ended c cfg Stored laws w r
      → Stored w' (build_worker_job cfg n.name spec)
  Ended-job before n after w w1 w2 w' r fetched found ended (refused e v early) = cc
  Ended-job before n after w w1 w2 w' (ok u, v) fetched found ended
        (created spec' nodes' w1' w2' r fetched' found' all) =
      let same_spec : spec' ≡ spec = cc in
      let same_nodes : nodes' ≡ before ++ n ∷ after = cc in
      let same : v ≡ w' = cc in
      All-job w' before n after (
        subst (λ js. All (Stored w') js) (λ i. build_jobs c cfg (same_spec i) (same_nodes i))
          (subst (λ x. All (Stored x) (build_jobs c cfg spec' nodes')) same all))
  Ended-job before n after w w1 w2 w' (err e, v) fetched found ended
        (created spec' nodes' w1' w2' r fetched' found' all) =
      cc

  -- Where a run has succeeded and listed some node, and a later run, under the same name and in the
  -- same namespace, lists a node of that name while the worker Job of the first run is still there: the
  -- later run ends with the error of a dry run and leaves the cluster as it was. So a node that has
  -- come since gets no worker Job from it either. The client's creations store what they succeed with
  -- and take away nothing, reads and dry runs change nothing, and a dry run fails for a Job that is
  -- there.
  pub run-again :
      (quiet : IsQuiet c) (excludes : Excludes c Stored) (before : List Node) (n : Node)
      (after : List Node) (w w1 w2 w' : W) (cfg' : Config) (spec' : DaemonJobSpec X)
      (before' : List Node) (n' : Node) (after' : List Node) (v v1 v2 : W)
      → fetch_spec c cfg w ≡ (ok spec, w1)
      → find_nodes c cfg spec w1 ≡ (ok (before ++ n ∷ after), w2)
      → run c cfg w ≡ (ok tt, w')
      → cfg'.self_name ≡ cfg.self_name
      → cfg'.namespace ≡ cfg.namespace
      → n'.name ≡ n.name
      → (Stored w' (build_worker_job cfg n.name spec) → Stored v (build_worker_job cfg n.name spec))
      → fetch_spec c cfg' v ≡ (ok spec', v1)
      → find_nodes c cfg' spec' v1 ≡ (ok (before' ++ n' ∷ after'), v2)
      → (name : String) × (e : E) × (run c cfg' v ≡ (err (dry_run_failed name e), v))
  unfolding build_worker_job
  run-again quiet excludes before n after w w1 w2 w' cfg' spec' before' n' after' v v1 v2 fetched
        found ended same_name same_namespace same_node stays fetched' found' =
      run-refused c cfg' spec' quiet before' n' after' v v1 v2 fetched' found' (
        excludes (build_worker_job cfg n.name spec) (build_worker_job cfg' n'.name spec') v
          (stays (
            Ended-job before n after w w1 w2 w' (run c cfg w) fetched found ended
              (run-Ended c cfg Stored laws w)))
          (λ i. same_name i <> ("-" <> same_node i)) same_namespace)
