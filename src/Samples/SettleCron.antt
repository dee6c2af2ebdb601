-- ===== src/Samples/SettleCron.antt =====
-- A DaemonCronJob against a store: a node is gone, and there is no CronJob yet.
use daemonjob.Prelude.{
  ℕ, String, ◌≡◌, refl, arith, true, false, none, some, is_some, List, [], ◌∷◌, delete_func,
}
use daemonjob.Result.{Result, ok}
use daemonjob.Kube.{CronJob, OwnerReference}
use daemonjob.Api.{DaemonCronJob}
use daemonjob.Resources.DaemonCronJob.{service_account, cluster_role_binding}
use daemonjob.Client
use daemonjob.Client.{Client, Kind, Object, recover}
use daemonjob.Client.Operations.{exist}
use daemonjob.Reconcile.Sweep.{named, Distinct}
use daemonjob.Reconcile.Sweep.Tally.{Distinct-delete_func}
use daemonjob.Reconcile.Contents.{Contents, job_name_of}
use daemonjob.Reconcile.DaemonCronJob.{
  failed, cron_broadcast_args, reconcile_cron_live, add_cron_finalizer,
}
use daemonjob.Reconcile.DaemonCronJob.Available.{Reports}
use daemonjob.Reconcile.DaemonCronJob.Converge.{
  IsCronJobStore, applied_cron_job, settled, reconcile_cron_live-settles,
}
use daemonjob.Samples.Conditions.{set_condition, set_condition_laws}
use daemonjob.Samples.Cluster.{
  finalizers, a_binding, a_job, a_node, condition, get_object, list_objects,
}
use daemonjob.Samples.Settle.{when, of_option}
use daemonjob.Samples.Nightly.{nightly, tiers, cron_reconciler, nightly-IsExclusive}

record Store : Type 0 where
  contents : Contents ℕ (CronJob ℕ)
  distinct : Distinct job_name_of contents.workers

abbrev get_in : Store → (k : Kind) → Result String (Object ℕ k)
get_in w Client.service_account = when w.contents.account (get_object Client.service_account)
get_in w Client.cluster_role_binding = when w.contents.binding (ok a_binding)
get_in w Client.cron_job = of_option w.contents.broadcast
get_in w k = get_object k

abbrev list_in : Store → (k : Kind) → List (Object ℕ k)
list_in w Client.node = w.contents.nodes
list_in w Client.job = w.contents.workers
list_in w k = list_objects k

abbrev delete_in : (k : Kind) → Object ℕ k → Store → Store
delete_in Client.job j w = record {
  contents = record w.contents {
    workers = delete_func (named job_name_of j.metadata.name) w.contents.workers;
  };
  distinct =
      Distinct-delete_func job_name_of (named job_name_of j.metadata.name) w.contents.workers
        w.distinct;
}
delete_in k o w = w

-- The server records no owners.
abbrev no_owners : CronJob ℕ → List OwnerReference
no_owners j = []

abbrev put_in : (k : Kind) → Object ℕ k → Store → Store
put_in Client.service_account o w = record {
  contents = record w.contents { account = true };
  distinct = w.distinct;
}
put_in Client.cluster_role_binding o w = record {
  contents = record w.contents { binding = true };
  distinct = w.distinct;
}
put_in Client.cron_job j w = record {
  contents = record w.contents {
    broadcast = some (applied_cron_job no_owners j w.contents.broadcast);
  };
  distinct = w.distinct;
}
put_in k o w = w

abbrev server : Client ℕ Store String
server = record {
  is_not_found = λ e. true;
  get = λ k namespace name w. (get_in w k, w);
  list = λ k o w. (ok (list_in w k), w);
  create = λ dry k o w. (ok tt, w);
  update = λ k o w. (ok o, w);
  update_status = λ k o w. (ok tt, w);
  delete = λ k o w. (ok tt, delete_in k o w);
  create_or_update = λ owner k o w. (ok tt, put_in k o w);
}

exist-account :
    (namespace name : String) (w : Store)
    → exist server Client.service_account namespace name w ≡ (ok w.contents.account, w)
unfolding exist
exist-account namespace name w = ground arith

exist-binding :
    (namespace name : String) (w : Store)
    → exist server Client.cluster_role_binding namespace name w ≡ (ok w.contents.binding, w)
unfolding exist
exist-binding namespace name w = ground arith

exist-cron_job :
    (namespace name : String) (w : Store)
    → exist server Client.cron_job namespace name w ≡ (ok (is_some w.contents.broadcast), w)
unfolding exist
exist-cron_job namespace name w = ground arith

server-IsCronJobStore :
    IsCronJobStore server cron_reconciler (nightly (some tiers)) (λ w. w.contents)
server-IsCronJobStore = record {
  has_workers = record {
    distinct = λ w. w.distinct;
    deletes = λ j w there. (delete_in Client.job j w, refl, refl);
  };
  list_nodes = λ w. refl;
  list_workers = λ w. refl;
  account_exists = λ w. exist-account _ _ w;
  binding_exists = λ w. exist-binding _ _ w;
  cron_job_exists = λ w. exist-cron_job _ _ w;
  account_applied = λ w. (
    put_in Client.service_account
        (service_account (cron_broadcast_args cron_reconciler (nightly (some tiers)))) w,
    refl,
    refl,
  );
  binding_applied = λ w. (
    put_in Client.cluster_role_binding
        (cluster_role_binding (cron_broadcast_args cron_reconciler (nightly (some tiers)))) w,
    refl,
    refl,
  );
  owners = no_owners;
  cron_job_applied = λ j w here this. (put_in Client.cron_job j w, refl, refl);
}

-- The worker Job on n1 is left, and its node is gone.
abbrev before : Store
before = record {
  contents = record {
    nodes = a_node "n2" ∷ [];
    account = true;
    binding = false;
    broadcast = none;
    workers = a_job (condition "Failed" ∷ []) ∷ [];
  };
  distinct = (refl, tt);
}

reconcile_cron_live-settles_example :
    (w : Store) × (d' : DaemonCronJob ℕ) × (reconcile_cron_live server cron_reconciler set_condition
        finalizers
        (nightly (some tiers))
        before
      ≡ recover failed (server.update_status Client.daemon_cron_job d' w))
    × (w.contents
        ≡ settled server finalizers set_condition cron_reconciler
            (nightly (some tiers))
            (λ w. w.contents)
            server-IsCronJobStore
            tiers
            refl
            before.contents)
    × (d'.metadata ≡ (nightly (some tiers)).metadata)
    × Reports set_condition set_condition_laws d'.conditions true
unfolding add_cron_finalizer
reconcile_cron_live-settles_example =
    reconcile_cron_live-settles server finalizers set_condition cron_reconciler
      (nightly (some tiers)) (λ w. w.contents) server-IsCronJobStore tiers refl set_condition_laws
      (nightly (some tiers)) before before refl nightly-IsExclusive
