-- ===== src/Samples/Again.antt =====
-- A broadcast that runs twice, in a cluster that has each name once.
use daemonjob.Prelude.{
  ℕ, String, ◌≡◌, refl, sym, ◌∙◌, ap, Bool, true, ◌&&◌, [], ◌∷◌, any, ◌==◌, eq_refl, arith,
  if◌then◌else◌,
}
use daemonjob.Result.{Result, ok, err}
use daemonjob.Kube.{Job}
use daemonjob.Client
use daemonjob.Client.{Client, Kind, Object}
use daemonjob.Client.Laws.{IsQuiet, IsStored}
use daemonjob.Broadcast.Config.{Config}
use daemonjob.Broadcast.Runner.{dry_run_failed, fetch_spec, create_all, apply_jobs, run}
use daemonjob.Broadcast.Runner.Again.{Excludes, run-again}
use daemonjob.Samples.{config, daemon_job_spec}
use daemonjob.Samples.Cluster.{World, cluster, fresh, a_node}

abbrev same_key : Job ℕ → Job ℕ → Bool
same_key j i = i.metadata.name == j.metadata.name && i.metadata.namespace == j.metadata.namespace

abbrev create_once : Bool → (k : Kind) → Object ℕ k → World → Result String (Unit {0}) × World
create_once dry Client.job j w =
    if dry
    then (if any (same_key j) w.jobs then err "exists" else ok tt, w)
    else (ok tt, record w { jobs = j ∷ w.jobs })
create_once dry k o w = (ok tt, w)

abbrev exclusive : Client ℕ World String
exclusive = record (cluster (ok tt)) { create = create_once }

abbrev Stored : World → Job ℕ → Type 0
Stored w j = any (same_key j) w.jobs ≡ true

exclusive-IsStored : IsStored exclusive Stored
exclusive-IsStored = record {
  stored = λ j w w' e. ap (λ r. any (same_key j) r.1.jobs) (sym e) ∙ here j w;
  stays = λ i j w h. ground arith;
}
  where
    here : (j : Job ℕ) (w : World) → any (same_key j) (j ∷ w.jobs) ≡ true
    here j w = ground (arith, eq_refl j.metadata.name, eq_refl j.metadata.namespace)

create_once-world : (k : Kind) (o : Object ℕ k) (w : World) → (create_once true k o w).1 ≡ w
create_once-world Client.job o w = refl
create_once-world Client.daemon_job o w = refl
create_once-world Client.daemon_cron_job o w = refl
create_once-world Client.daemon_cron_job_set o w = refl
create_once-world Client.service_account o w = refl
create_once-world Client.cluster_role_binding o w = refl
create_once-world Client.cron_job o w = refl
create_once-world Client.node o w = refl
create_once-world Client.pod o w = refl

exclusive-IsQuiet : IsQuiet exclusive
exclusive-IsQuiet = record {
  get_keeps = λ k namespace name w. refl;
  list_keeps = λ k o w. refl;
  dry_run_keeps = create_once-world;
}

exclusive-Excludes : Excludes exclusive Stored
exclusive-Excludes i j w there name namespace = ("exists", w, rw (name, namespace, there) refl)

-- The later run has another UID of its Job.
abbrev later : Config
later = record (config "backup" "") { controller_uid = "9a1d" }

abbrev first_left : World
first_left = (run exclusive (config "backup" "") fresh).1

run-again_example :
    (name : String) × (e : String) × (run exclusive later first_left
      ≡ (err (dry_run_failed name e), first_left))
unfolding run fetch_spec apply_jobs create_all
run-again_example =
    run-again exclusive Stored exclusive-IsStored (config "backup" "") daemon_job_spec
      exclusive-IsQuiet exclusive-Excludes [] (a_node "n1") (a_node "n2" ∷ []) fresh fresh fresh
      first_left later daemon_job_spec [] (a_node "n1") (a_node "n2" ∷ []) first_left first_left
      first_left refl refl refl refl refl refl (λ h. h) refl refl
