-- ===== src/Broadcast/Runner/Refusal.antt =====
-- One worker Job whose dry run fails ends the whole run.
use daemonjob.Prelude.{String, true, ◌≡◌, refl, ap, sym, subst, ◌∙◌, List, [], ◌∷◌, ◌++◌}
use daemonjob.Result.{Result, ok, err}
use daemonjob.Kube.{Node}
use daemonjob.Api.{DaemonJobSpec}
use daemonjob.Client
use daemonjob.Client.{Client, Call, continue, recover}
use daemonjob.Client.Laws.{IsQuiet}
use daemonjob.Broadcast.Config.{Config}
use daemonjob.Broadcast.Worker.{build_worker_job}
use daemonjob.Broadcast.Runner.{
  RunError, list_nodes, node_list_options, dry_run_failed, fetch_spec, find_nodes, build_jobs,
  create_all, apply_jobs, process, run,
}
use daemonjob.Broadcast.Runner.Outcome.{run-unchanged, fetch_spec-world, wrap-world}

module _ {X W E : Type 0} (c : Client X W E) (cfg : Config) (spec : DaemonJobSpec X) where
  -- It ended with the error of a dry run.
  abbrev Refused : {A : Type 0} → Result (RunError E) A × W → Type 0
  Refused r = (name : String) × (e : E) × (r.0 ≡ err (dry_run_failed name e))

  Refused-step :
      (name : String) (f : Call W (RunError E) (Unit {0})) (w : W) (r : Result E (Unit {0}) × W)
      → r.1 ≡ w
      → Refused (f w)
      → Refused (continue (λ _. f) (recover (dry_run_failed name) r))
  Refused-step name f w (ok u, w') e h = subst (λ v. Refused (f v)) (sym e) h
  Refused-step name f w (err x, w') e h = (name, x, refl)

  Refused-bind :
      {A B : Type 0} (f : A → Call W (RunError E) B) (r : Result (RunError E) A × W)
      → Refused r
      → Refused (continue f r)
  Refused-bind f (ok a, w) (name, e, h) = cc
  Refused-bind f (err x, w) (name, e, h) = (name, e, cc)

  -- The dry run of the worker Job for this node fails.
  abbrev pub IsRefused : Node → W → Type 0
  IsRefused n w =
      (e : E) × (w' : W) × (c.create true Client.job (build_worker_job cfg n.name spec) w
        ≡ (err e, w'))

  dry_runs-Refused :
      (quiet : IsQuiet c) (before : List Node) (n : Node) (after : List Node) (w : W)
      → IsRefused n w
      → Refused (create_all c cfg true (build_jobs c cfg spec (before ++ n ∷ after)) w)
  unfolding create_all
  dry_runs-Refused quiet [] n after w (e, w', failed) = rw (failed) (_, e, refl)
  dry_runs-Refused quiet (b ∷ before) n after w failed =
      Refused-step _ (create_all c cfg true (build_jobs c cfg spec (before ++ n ∷ after))) w
        (c.create true Client.job (build_worker_job cfg b.name spec) w)
        (quiet.dry_run_keeps Client.job (build_worker_job cfg b.name spec) w)
        (dry_runs-Refused quiet before n after w failed)

  process-Refused :
      (quiet : IsQuiet c) (before : List Node) (n : Node) (after : List Node) (w : W)
      → IsRefused n w
      → Refused (process c cfg spec (before ++ n ∷ after) w)
  unfolding apply_jobs
  process-Refused quiet [] n after w failed =
      Refused-bind _ (create_all c cfg true (build_jobs c cfg spec (n ∷ after)) w)
        (dry_runs-Refused quiet [] n after w failed)
  process-Refused quiet (b ∷ before) n after w failed =
      Refused-bind _ (create_all c cfg true (build_jobs c cfg spec (b ∷ before ++ n ∷ after)) w)
        (dry_runs-Refused quiet (b ∷ before) n after w failed)

  reads_keep :
      (quiet : IsQuiet c) (nodes : List Node) (w w1 w2 : W)
      → fetch_spec c cfg w ≡ (ok spec, w1)
      → find_nodes c cfg spec w1 ≡ (ok nodes, w2)
      → w2 ≡ w
  reads_keep quiet nodes w w1 w2 fetched found =
      sym (ap (λ r. r.1) found)
      ∙ wrap-world w1 list_nodes (c.list Client.node (node_list_options spec.node_selector) w1)
          (quiet.list_keeps Client.node (node_list_options spec.node_selector) w1)
      ∙ sym (ap (λ r. r.1) fetched)
      ∙ fetch_spec-world c cfg quiet w

  -- Where reads and dry runs do not change the cluster: if the dry run of the worker Job of one listed
  -- node fails, the run ends with the error of a dry run and leaves the cluster as it was.
  pub run-refused :
      (quiet : IsQuiet c) (before : List Node) (n : Node) (after : List Node) (w w1 w2 : W)
      → fetch_spec c cfg w ≡ (ok spec, w1)
      → find_nodes c cfg spec w1 ≡ (ok (before ++ n ∷ after), w2)
      → IsRefused n w
      → (name : String) × (e : E) × (run c cfg w ≡ (err (dry_run_failed name e), w))
  unfolding run
  run-refused quiet before n after w w1 w2 fetched found failed =
      let same = reads_keep quiet (before ++ n ∷ after) w w1 w2 fetched found in
      let (name, e, stopped) =
        process-Refused quiet before n after w2 (subst (λ v. IsRefused n v) (sym same) failed) in
      let ended : (run c cfg w).0 ≡ err (dry_run_failed name e) =
        rw (fetched) (rw (found) stopped) in
      let left = run-unchanged c cfg w (dry_run_failed name e) quiet ended refl in
      (name, e, λ i. (ended i, left i))
