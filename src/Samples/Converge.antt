-- ===== src/Samples/Converge.antt =====
-- A DaemonCronJobSet against a store of CronJobs: one for a node that is gone, none for a new one.
use daemonjob.Prelude.{
  ℕ, String, ◌≡◌, refl, true, ◌||◌, All, some, none, List, [], ◌∷◌, contains, delete_func, any,
  arith, eq_iff, if◌then◌else◌,
}
use daemonjob.Result.{ok}
use daemonjob.Kube.{CronJob, Node, OwnerReference}
use daemonjob.Resources.DaemonCronJobSet.{cron_job_name, new_cron_job_for_node}
use daemonjob.Resources.DaemonCronJobSet.Cron.{
  new_cron_job_for_node-name, new_cron_job_for_node-selected,
}
use daemonjob.Client
use daemonjob.Client.{Client, Kind, Object}
use daemonjob.Reconcile.Sweep.{Distinct}
use daemonjob.Reconcile.Sweep.Tally.{Distinct-delete_func}
use daemonjob.Reconcile.DaemonCronJobSet.{reconcile_set_live, with_counts}
use daemonjob.Reconcile.DaemonCronJobSet.Store.{
  IsCronStore, IsOwn, name_of, has_name, store_cron_job, spec_at, or_new,
}
use daemonjob.Reconcile.DaemonCronJobSet.Converge.{reconcile_set_live-serves}
use daemonjob.Samples.{daemon_cron_job_set}
use daemonjob.Samples.Conditions.{set_condition}
use daemonjob.Samples.Cluster.{get_object, a_node, list_objects}

record Store : Type 0 where
  nodes : List Node
  jobs : List (CronJob ℕ)
  distinct : Distinct name_of jobs

abbrev list_in : Store → (k : Kind) → List (Object ℕ k)
list_in w Client.node = w.nodes
list_in w Client.cron_job = w.jobs
list_in w k = list_objects k

abbrev delete_in : (k : Kind) → Object ℕ k → Store → Store
delete_in Client.cron_job j w = record {
  nodes = w.nodes;
  jobs = delete_func (has_name j.metadata.name) w.jobs;
  distinct = Distinct-delete_func name_of (has_name j.metadata.name) w.jobs w.distinct;
}
delete_in k o w = w

-- The server records no owners.
abbrev no_owners : CronJob ℕ → List OwnerReference
no_owners j = []

any-store_cron_job :
    (n : String) (j : CronJob ℕ) (js : List (CronJob ℕ))
    → any (has_name n) (store_cron_job no_owners j js) ≡ (any (has_name n) js || has_name n j)
any-store_cron_job n j [] = ground arith
any-store_cron_job n j (k ∷ ks) = ground (
  arith,
  any-store_cron_job n j ks,
  eq_iff k.metadata.name j.metadata.name,
  eq_iff k.metadata.name n,
  eq_iff j.metadata.name n,
)

store_cron_job-Distinct :
    (j : CronJob ℕ) (js : List (CronJob ℕ))
    → Distinct name_of js
    → Distinct name_of (store_cron_job no_owners j js)
store_cron_job-Distinct j [] h = (refl, tt)
store_cron_job-Distinct j (k ∷ ks) h = ground (
  arith,
  any-store_cron_job k.metadata.name j ks,
  store_cron_job-Distinct j ks h.1,
  h.0,
  eq_iff k.metadata.name j.metadata.name,
  eq_iff j.metadata.name k.metadata.name,
)

abbrev put_in : (k : Kind) → Object ℕ k → Store → Store
put_in Client.cron_job j w = record {
  nodes = w.nodes;
  jobs = store_cron_job no_owners j w.jobs;
  distinct = store_cron_job-Distinct j w.jobs w.distinct;
}
put_in k o w = w

abbrev server : Client ℕ Store String
server = record {
  is_not_found = λ e. true;
  get = λ k namespace name w. (get_object k, w);
  list = λ k o w. (ok (list_in w k), w);
  create = λ dry k o w. (ok tt, w);
  update = λ k o w. (ok o, w);
  update_status = λ k o w. (ok tt, w);
  delete = λ k o w. (ok tt, delete_in k o w);
  create_or_update = λ owner k o w. (ok tt, put_in k o w);
}

server-IsCronStore : IsCronStore server daemon_cron_job_set (λ w. w.nodes) (λ w. w.jobs)
server-IsCronStore = record {
  distinct = λ w. w.distinct;
  owners = λ owner. no_owners;
  list_nodes = λ w. refl;
  list_jobs = λ w. refl;
  deletes = λ j w there. (delete_in Client.cron_job j w, refl, refl, refl);
  stores = λ owner j w found here. (put_in Client.cron_job j w, refl, refl, refl);
}

abbrev jobs_before : List (CronJob ℕ)
jobs_before =
    new_cron_job_for_node daemon_cron_job_set "n1"
    ∷ new_cron_job_for_node daemon_cron_job_set "gone"
    ∷ []

jobs_before-Distinct : Distinct name_of jobs_before
unfolding new_cron_job_for_node
jobs_before-Distinct = (refl, (refl, tt))

abbrev before : Store
before = record {
  nodes = a_node "n1" ∷ a_node "n2" ∷ [];
  jobs = jobs_before;
  distinct = jobs_before-Distinct;
}

new-IsOwn :
    (node : String) → IsOwn daemon_cron_job_set (new_cron_job_for_node daemon_cron_job_set node)
new-IsOwn node = (
  node,
  new_cron_job_for_node-name daemon_cron_job_set node,
  (new_cron_job_for_node-selected daemon_cron_job_set node "" "").0.0,
)

reconcile_set_live-serves_example :
    (w : Store) × (reconcile_set_live server set_condition daemon_cron_job_set before
      ≡ server.update_status Client.daemon_cron_job_set
          (with_counts set_condition daemon_cron_job_set 2 2)
          w)
    × All (IsOwn daemon_cron_job_set) w.jobs
    × ((node : String)
        → spec_at (cron_job_name daemon_cron_job_set node) w.jobs ≡ (
            if contains ("n1" ∷ "n2" ∷ []) node
            then some (
                or_new
                  (new_cron_job_for_node daemon_cron_job_set node).spec
                  (spec_at (cron_job_name daemon_cron_job_set node) before.jobs))
            else none))
reconcile_set_live-serves_example =
    reconcile_set_live-serves server daemon_cron_job_set (λ w. w.nodes) (λ w. w.jobs)
      server-IsCronStore set_condition before (new-IsOwn "n1", (new-IsOwn "gone", tt))
      (refl, (refl, tt))
