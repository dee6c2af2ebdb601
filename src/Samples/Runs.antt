-- ===== src/Samples/Runs.antt =====
-- Concrete runs of the broadcast and of the reconciler against the cluster in memory.
use daemonjob.Prelude.{
  ℕ, String, ◌≡◌, refl, ap, sym, subst, true, false, some, List, [], ◌∷◌, ◌++◌, contains, arith,
  ◌==◌, if◌then◌else◌, eq_iff, eq_refl,
}
use daemonjob.Result.{Result, ok, err}
use daemonjob.Kube.{Job, ClusterRoleBinding}
use daemonjob.Api.{DaemonJob}
use daemonjob.Resources.Constants.{env_namespace, env_self_name, env_daemon_job_name}
use daemonjob.Status.{new_status}
use daemonjob.Status.JobStatus
use daemonjob.Status.Verdict.{IsWellFormed, degraded}
use daemonjob.Client
use daemonjob.Client.{Client, Kind, Object, Call}
use daemonjob.Client.Operations.{exist}
use daemonjob.Client.Laws.{IsStored, IsRemoved}
use daemonjob.Broadcast.Worker
use daemonjob.Broadcast.Runner.{dry_run_failed, run, fetch_spec, apply_jobs, create_all}
use daemonjob.Broadcast.Runner.Outcome.{run-unchanged}
use daemonjob.Broadcast.Runner.Created.{Ended, run-Ended}
use daemonjob.Broadcast.Main.{new_runner, broadcast_main}
use daemonjob.Broadcast.Main.Exits.{Exits, broadcast_main-Exits}
use daemonjob.Reconcile.DaemonJob.{DaemonJobReconciler, reconciler_finalizer}
use daemonjob.Reconcile.DaemonJob.Cycle.{reconcile_deleted}
use daemonjob.Reconcile.DaemonJob.Deletion.{Listed, reconcile_deleted-Listed}
use daemonjob.Reconcile.DaemonJob.Report.{update_status}
use daemonjob.Reconcile.DaemonJob.Verdict.{IsObserved, Writes, update_status-Writes}
use daemonjob.Samples.{meta, daemon_job, config}
use daemonjob.Samples.Conditions.{set_condition, set_condition_laws}
use daemonjob.Samples.Cluster.{
  finalizers, World, a_job, condition, store, cluster, cluster-IsQuiet, fresh,
}

run-unchanged_example : (run (cluster (err "invalid")) (config "backup" "") fresh).1 ≡ fresh
unfolding run fetch_spec apply_jobs create_all Worker.build_worker_job
run-unchanged_example =
    run-unchanged (cluster (err "invalid")) (config "backup" "") fresh
      (dry_run_failed "backup-dj-n1" "invalid") (cluster-IsQuiet (err "invalid")) refl refl

abbrev pub Stored : World → Job ℕ → Type 0
Stored w j = (before : List (Job ℕ)) × (after : List (Job ℕ)) × (w.jobs ≡ before ++ j ∷ after)

store-Stored :
    (js : List (Job ℕ)) (j : Job ℕ) (d : List String) (w' : World)
    → store js j d ≡ (ok tt, w')
    → Stored w' j
store-Stored [] j d w' e = ([], [], sym (ap (λ r. r.1.jobs) e))
store-Stored (i ∷ is) j d w' e = cc

store-stays :
    (js : List (Job ℕ)) (i j : Job ℕ) (d : List String)
    → Stored (record { jobs = js; deleted = d }) i
    → Stored (store js j d).1 i
store-stays [] i j d ([], after, e) = cc
store-stays [] i j d (x ∷ before, after, e) = cc
store-stays (x ∷ js) i j d h = h

cluster-IsStored : IsStored (cluster (ok tt)) Stored
cluster-IsStored = record {
  stored = λ j w w' e. store-Stored w.jobs j w.deleted w' e;
  stays = λ i j w h. store-stays w.jobs i j w.deleted h;
}

-- The second creation meets the quota.
run-Ended_example :
    Ended
      (cluster (ok tt))
      (config "backup" "")
      Stored
      cluster-IsStored
      fresh
      (run (cluster (ok tt)) (config "backup" "") fresh)
run-Ended_example = run-Ended (cluster (ok tt)) (config "backup" "") Stored cluster-IsStored fresh

-- The environment of a broadcast of the DaemonJob "backup"
abbrev backup_env : String → String
backup_env name =
    if name == env_namespace
    then "ops"
    else if name == env_self_name
    then "backup-dj"
    else if name == env_daemon_job_name
    then "backup"
    else ""

-- The kube configuration is a number, of which any gives the client of the cluster in memory.
abbrev pub connect : ℕ → Result String (Client ℕ World String)
connect k = ok (cluster (ok tt))

abbrev IsConnected : {K : Type 0} → Result K (Client ℕ World String) → Type 0
IsConnected (err e) = Unit
IsConnected (ok c) = IsStored c Stored

pub connect-IsStored :
    (c : Client ℕ World String) → new_runner (ok 0) connect ≡ ok c → IsStored c Stored
unfolding new_runner
connect-IsStored c e = subst (λ r. IsConnected r) e cluster-IsStored

broadcast_main-Exits_example :
    Exits
      (ok 0)
      connect
      (λ e. e)
      (λ e. e)
      (λ t. t)
      true
      Stored
      backup_env
      fresh
      (broadcast_main (ok 0) connect (λ e. e) (λ e. e) (λ t. t) true backup_env fresh)
broadcast_main-Exits_example =
    broadcast_main-Exits (ok 0) connect (λ e. e) (λ e. e) (λ t. t) true Stored backup_env fresh
      connect-IsStored

abbrev Gone : World → ClusterRoleBinding ℕ → Type 0
Gone w b = contains w.deleted b.metadata.name ≡ true

cluster-IsRemoved : IsRemoved (cluster (ok tt)) Client.cluster_role_binding Gone
cluster-IsRemoved = record {
  gone = λ o w w' e. subst (λ r. Gone r.1 o) e (ground (arith, eq_refl o.metadata.name));
  delete_keeps = λ i o w h. ground arith;
  update_keeps = λ i d w h. h;
}

abbrev pub dying : DaemonJob ℕ
dying = record (daemon_job "jobs" "backup") {
  metadata = record (meta "jobs" "backup") { finalizers = reconciler_finalizer ∷ [] };
}

abbrev pub reconciler : DaemonJobReconciler
reconciler = record { broadcast_image = "broadcast:1"; broadcast_role = "broadcast-role" }

reconcile_deleted-Listed_example :
    Listed
      (cluster (ok tt))
      Gone
      cluster-IsRemoved
      dying
      fresh
      (reconcile_deleted (cluster (ok tt)) finalizers set_condition reconciler dying fresh)
reconcile_deleted-Listed_example =
    reconcile_deleted-Listed (cluster (ok tt)) Gone cluster-IsRemoved finalizers set_condition
      reconciler dying fresh refl

abbrev pub steady : DaemonJob ℕ
steady = daemon_job "jobs" "backup"

pub steady-IsWellFormed :
    IsWellFormed (new_status [] "Complete" "Progressing" "Degraded" "Reconciling")
steady-IsWellFormed = record {
  exclusive = record {
    unique = tt;
    apart = λ e. ground (arith, eq_iff "Complete" "Degraded");
    exclusive = refl;
  };
  progressing-available = λ e. ground (arith, eq_iff "Progressing" "Complete");
  progressing-degraded = λ e. ground (arith, eq_iff "Progressing" "Degraded");
}

steady-IsObserved :
    IsObserved
      (cluster (ok tt))
      reconciler
      steady
      fresh
      true
      false
      (some (a_job (condition "Complete" ∷ [])))
      (a_job [] ∷ a_job (condition "Failed" ∷ []) ∷ [])
unfolding exist
steady-IsObserved = record {
  account = refl;
  binding = refl;
  job_there = refl;
  job_read = λ j e. cc;
  workers_read = refl;
}

-- One of two workers has failed.
update_status-Writes_example :
    Writes
      (cluster (ok tt))
      reconciler
      set_condition
      set_condition_laws
      (cluster-IsQuiet (ok tt))
      steady
      fresh
      true
      false
      (some (a_job (condition "Complete" ∷ [])))
      (a_job [] ∷ a_job (condition "Failed" ∷ []) ∷ [])
      steady-IsObserved
      (update_status set_condition (cluster (ok tt)) reconciler steady fresh)
      degraded
unfolding JobStatus.standing
update_status-Writes_example =
    update_status-Writes (cluster (ok tt)) reconciler set_condition set_condition_laws
      (cluster-IsQuiet (ok tt)) steady fresh true false (some (a_job (condition "Complete" ∷ [])))
      (a_job [] ∷ a_job (condition "Failed" ∷ []) ∷ []) steady-IsObserved steady-IsWellFormed
