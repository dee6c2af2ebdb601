-- ===== src/Samples/Settle.antt =====
-- A DaemonJob against a store: a node is gone, and there is no broadcast Job yet.
use daemonjob.Prelude.{
  ℕ, String, ◌≡◌, refl, ap, Bool, true, false, arith, Option, none, some, is_some, List, [], ◌∷◌,
  delete_func, if◌then◌else◌,
}
use daemonjob.StringMap.{get, insert}
use daemonjob.Result.{Result, ok, err}
use daemonjob.Kube.{Job, OwnerReference}
use daemonjob.Status.Verdict.{progressing}
use daemonjob.Resources.DaemonJob.{job, service_account, cluster_role_binding}
use daemonjob.Status.JobStatus
use daemonjob.Api.{DaemonJob}
use daemonjob.Client
use daemonjob.Client.{Client, Kind, Object}
use daemonjob.Client.Laws.{IsQuiet}
use daemonjob.Client.Operations.{exist}
use daemonjob.Reconcile.Sweep.{named, Distinct}
use daemonjob.Reconcile.Sweep.Tally.{Distinct-delete_func}
use daemonjob.Reconcile.DaemonJob.{broadcast_args}
use daemonjob.Reconcile.DaemonJob.Cycle.{reconcile_live, add_finalizer_if_not_exist}
use daemonjob.Reconcile.DaemonJob.Standing.{IsWritten}
use daemonjob.Reconcile.Contents.{Contents, job_name_of}
use daemonjob.Reconcile.DaemonJob.Converge.{
  IsJobStore, owned_job, applied_job, reconcile_live-settles,
}
use daemonjob.Samples.{daemon_job}
use daemonjob.Samples.Conditions.{set_condition, set_condition_laws}
use daemonjob.Samples.Cluster.{
  a_binding, finalizers, a_job, a_node, condition, get_object, list_objects,
}
use daemonjob.Samples.Runs.{reconciler, dying, steady-IsWellFormed}

record Store : Type 0 where
  contents : Contents ℕ (Job ℕ)
  distinct : Distinct job_name_of contents.workers

abbrev pub when : {A : Type 0} → Bool → Result String A → Result String A
when b r = if b then r else err "not found"

abbrev pub of_option : {A : Type 0} → Option A → Result String A
of_option none = err "not found"
of_option (some a) = ok a

abbrev get_in : Store → (k : Kind) → Result String (Object ℕ k)
get_in w Client.service_account = when w.contents.account (get_object Client.service_account)
get_in w Client.cluster_role_binding = when w.contents.binding (ok a_binding)
get_in w Client.job = of_option w.contents.broadcast
get_in w k = get_object k

abbrev list_in : Store → (k : Kind) → List (Object ℕ k)
list_in w Client.node = w.contents.nodes
list_in w Client.job = w.contents.workers
list_in w k = list_objects k

abbrev delete_in : (k : Kind) → Object ℕ k → Store → Store
delete_in Client.job j w = record {
  contents = record w.contents {
    workers = delete_func (named job_name_of j.metadata.name) w.contents.workers;
  };
  distinct =
      Distinct-delete_func job_name_of (named job_name_of j.metadata.name) w.contents.workers
        w.distinct;
}
delete_in k o w = w

-- The server records no owners.
abbrev no_owners : Job ℕ → List OwnerReference
no_owners j = []

abbrev put_in : (k : Kind) → Object ℕ k → Store → Store
put_in Client.service_account o w = record {
  contents = record w.contents { account = true };
  distinct = w.distinct;
}
put_in Client.cluster_role_binding o w = record {
  contents = record w.contents { binding = true };
  distinct = w.distinct;
}
put_in Client.job j w = record {
  contents = record w.contents { broadcast = some (applied_job no_owners j w.contents.broadcast) };
  distinct = w.distinct;
}
put_in k o w = w

abbrev server : Client ℕ Store String
server = record {
  is_not_found = λ e. true;
  get = λ k namespace name w. (get_in w k, w);
  list = λ k o w. (ok (list_in w k), w);
  create = λ dry k o w. (ok tt, w);
  update = λ k o w. (ok o, w);
  update_status = λ k o w. (ok tt, w);
  delete = λ k o w. (ok tt, delete_in k o w);
  create_or_update = λ owner k o w. (ok tt, put_in k o w);
}

server-IsQuiet : IsQuiet server
server-IsQuiet = record {
  get_keeps = λ k namespace name w. refl;
  list_keeps = λ k o w. refl;
  dry_run_keeps = λ k o w. refl;
}

exist-account :
    (namespace name : String) (w : Store)
    → exist server Client.service_account namespace name w ≡ (ok w.contents.account, w)
unfolding exist
exist-account namespace name w = ground arith

exist-binding :
    (namespace name : String) (w : Store)
    → exist server Client.cluster_role_binding namespace name w ≡ (ok w.contents.binding, w)
unfolding exist
exist-binding namespace name w = ground arith

exist-job :
    (namespace name : String) (w : Store)
    → exist server Client.job namespace name w ≡ (ok (is_some w.contents.broadcast), w)
unfolding exist
exist-job namespace name w = ground arith

server-IsJobStore : IsJobStore server reconciler dying (λ w. w.contents)
server-IsJobStore = record {
  has_workers = record {
    distinct = λ w. w.distinct;
    deletes = λ j w there. (delete_in Client.job j w, refl, refl);
  };
  list_nodes = λ w. refl;
  observed = λ w. record {
    account = exist-account _ _ w;
    binding = exist-binding _ _ w;
    job_there = exist-job _ _ w;
    job_read = λ j e. ap (λ b. (of_option b, w)) e;
    workers_read = refl;
  };
  account_applied = λ w. (
    put_in Client.service_account (service_account (broadcast_args reconciler dying)) w,
    refl,
    refl,
  );
  binding_applied = λ w. (
    put_in Client.cluster_role_binding (cluster_role_binding (broadcast_args reconciler dying)) w,
    refl,
    refl,
  );
  owners = no_owners;
  job_applied = λ w. (put_in Client.job (job (broadcast_args reconciler dying)) w, refl, refl);
}

-- The worker Job on n1 has failed, and its node is gone.
abbrev before : Store
before = record {
  contents = record {
    nodes = a_node "n2" ∷ [];
    account = true;
    binding = false;
    broadcast = none;
    workers = a_job (condition "Failed" ∷ []) ∷ [];
  };
  distinct = (refl, tt);
}

reconcile_live-settles_example :
    (w : Store) × (d' : DaemonJob ℕ) × (reconcile_live server finalizers set_condition reconciler
        (daemon_job "jobs" "backup")
        before
      ≡ server.update_status Client.daemon_job d' w)
    × (w.contents ≡ record {
      nodes = a_node "n2" ∷ [];
      account = true;
      binding = true;
      broadcast = some (owned_job no_owners (job (broadcast_args reconciler dying)));
      workers = [];
    })
    × IsWritten dying d' progressing
unfolding job JobStatus.standing add_finalizer_if_not_exist server-IsJobStore get insert
reconcile_live-settles_example =
    reconcile_live-settles server finalizers set_condition reconciler dying (λ w. w.contents)
      server-IsJobStore set_condition_laws server-IsQuiet (daemon_job "jobs" "backup") before before
      refl steady-IsWellFormed
