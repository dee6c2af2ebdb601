-- ===== src/Reconcile/DaemonCronJobSet/Converge.antt =====
-- What one reconcile of a DaemonCronJobSet makes of the CronJobs in the cluster.
use daemonjob.Prelude.{
  length, length-map, String, ◌≡◌, refl, ap, sym, subst, ◌∙◌, Option, none, some, List, [], ◌∷◌,
  map, eq_iff, All, contains, arith, if◌then◌else◌,
}
use daemonjob.StringMap.{Selects}
use daemonjob.Result.{Result, ok}
use daemonjob.Kube.{CronJob, CronJobSpec, Node, ObjectMeta}
use daemonjob.Api.{DaemonCronJobSet}
use daemonjob.Status.{SetStatusCondition}
use daemonjob.Resources.DaemonJob.{or_empty}
use daemonjob.Resources.DaemonCronJobSet.{cron_job_name, new_cron_job_for_node}
use daemonjob.Resources.DaemonCronJobSet.Nodes.{list_set_nodes, set_cron_jobs}
use daemonjob.Resources.DaemonCronJobSet.Cron.{
  new_cron_job_for_node-selected, new_cron_job_for_node-namespace, new_cron_job_for_node-name,
}
use daemonjob.Client
use daemonjob.Client.{Client, Kind, ◌>>◌}
use daemonjob.Reconcile.Sweep.{sweep, sweep_all, Distinct}
use daemonjob.Reconcile.DaemonCronJobSet.{
  is_mismatched, list_options_of, delete_mismatched, apply_each,
  delete_cron_jobs_on_mismatched_node, apply_cron_jobs, update_set_status, reconcile_set_live,
  with_counts,
}
use daemonjob.Reconcile.DaemonCronJobSet.Tally.{length_jobs}
use daemonjob.Reconcile.DaemonCronJobSet.Store.{
  IsCronStore, IsOwn, name_of, spec_at, or_new, spec_at-any_named, spec_at-store_cron_job,
  spec_at-delete_func, cron_job_name-eq, IsOwn-delete_func, IsOwn-store_cron_job,
}

delete_mismatched-eq-sweep :
    {X W E : Type 0} (c : Client X W E) (ns : List String) (js : List (CronJob X))
    → delete_mismatched c ns js ≡ sweep (is_mismatched ns) (c.delete Client.cron_job) js
unfolding delete_mismatched
delete_mismatched-eq-sweep c ns [] = refl
delete_mismatched-eq-sweep c ns (j ∷ js) =
    ap (λ rest. if is_mismatched ns j then c.delete Client.cron_job j >> rest else rest)
      (delete_mismatched-eq-sweep c ns js)

module _ {X W E : Type 0} (c : Client X W E) (d : DaemonCronJobSet X) (nodes : W → List Node)
    (jobs : W → List (CronJob X)) (store : IsCronStore c d nodes jobs) where
  abbrev names_of : W → List String
  names_of w = map (λ n. n.name) (nodes w)

  -- The spec of the set's CronJob for this node
  abbrev pub spec_for : String → W → Option (CronJobSpec X)
  spec_for node w = spec_at (cron_job_name d node) (jobs w)

  -- What a call of several writes leaves, for each node
  abbrev Leaves : Result E (Unit {0}) × W → W → (String → Option (CronJobSpec X)) → Type 0
  Leaves r w f =
      (w' : W) × (r ≡ (ok tt, w'))
      × (nodes w' ≡ nodes w)
      × (All (IsOwn d) (jobs w) → All (IsOwn d) (jobs w'))
      × ((node : String) → spec_for node w' ≡ f node)

  cleanup-Leaves :
      (w : W)
      → All (IsOwn d) (jobs w)
      → Leaves
          (delete_cron_jobs_on_mismatched_node c d w)
          w
          (λ node. if contains (names_of w) node then spec_for node w else none)
  unfolding delete_cron_jobs_on_mismatched_node list_set_nodes
  cleanup-Leaves w own =
      let (w', called, same, left) =
        sweep_all name_of (is_mismatched (names_of w)) (c.delete Client.cron_job) jobs nodes
          store.deletes w (store.distinct w) in
      (
        w',
        rw (store.list_nodes w, store.list_jobs w)
            (ap (λ f. f w) (delete_mismatched-eq-sweep c (names_of w) (jobs w)) ∙ called),
        same,
        λ own.
            subst (λ l. All (IsOwn d) l) (sym left)
              (IsOwn-delete_func d (is_mismatched (names_of w)) (jobs w) own),
        λ node.
            ap (spec_at (cron_job_name d node)) left
            ∙ spec_at-delete_func d (names_of w) node (jobs w) own,
      )

  -- The spec of a new CronJob for this node
  abbrev pub new_spec : String → CronJobSpec X
  new_spec node = (new_cron_job_for_node d node).spec

  apply_each-Leaves :
      (owner : ObjectMeta X) (ns : List String) (w : W)
      → Leaves (apply_each c owner (map (new_cron_job_for_node d) ns) w) w (λ node.
        if contains ns node
        then some (or_new (new_spec node) (spec_for node w))
        else spec_for node w)
  unfolding apply_each
  apply_each-Leaves owner [] w = (w, refl, refl, λ own. own, λ node. ground arith)
  apply_each-Leaves owner (n ∷ ns) w =
      let j = new_cron_job_for_node d n in
      let set_owner = some (Client.daemon_cron_job_set, owner) in
      let (w1, called, same, stored) =
        store.stores set_owner j w (found n) (new_cron_job_for_node-namespace d n) in
      let (w2, rest, same', kept, left) = apply_each-Leaves owner ns w1 in
      (
        w2,
        rw (called) rest,
        same' ∙ same,
        λ own. kept (
            subst (λ l. All (IsOwn d) l) (sym stored)
              (IsOwn-store_cron_job d (store.owners set_owner) j (jobs w) (made n) own)),
        λ node. ground (
          arith,
          left node,
          ap (spec_at (cron_job_name d node)) stored,
          spec_at-store_cron_job (cron_job_name d node) (store.owners set_owner) j (jobs w),
          new_cron_job_for_node-name d n,
          cron_job_name-eq d n node,
          eq_iff n node,
        ),
      )
    where
      made : (n : String) → IsOwn d (new_cron_job_for_node d n)
      made n = (
        n,
        new_cron_job_for_node-name d n,
        (new_cron_job_for_node-selected d n d.metadata.namespace d.metadata.name).0.0,
      )

      found :
          (n : String)
          → Selects
              (list_options_of d).selector
              (or_empty (new_cron_job_for_node d n).metadata.labels)
      found n = (new_cron_job_for_node-selected d n d.metadata.namespace d.metadata.name).0.1.1 refl

  apply-Leaves :
      (w : W)
      → Leaves (apply_cron_jobs c d w) w (λ node.
        if contains (names_of w) node
        then some (or_new (new_spec node) (spec_for node w))
        else spec_for node w)
  unfolding apply_cron_jobs set_cron_jobs list_set_nodes
  apply-Leaves w =
      let (w', called, same, kept, left) = apply_each-Leaves d.metadata (names_of w) w in
      (w', rw (store.list_nodes w) called, same, kept, left)

  -- Against an API server without failures and other actors, where no two CronJobs and no two nodes
  -- have one name, and the set's selector finds only CronJobs that the set made: a reconcile of a set
  -- that is not being deleted ends with one write of its status, which reports as many CronJobs as
  -- selected nodes. Then the selector again finds only CronJobs that the set made, one for each
  -- selected node and for no other: those that were there keep their spec, even where the set's
  -- template has changed, and the others have the spec that the set gives now.
  pub reconcile_set_live-serves :
      (ssc : SetStatusCondition) (w : W)
      → All (IsOwn d) (jobs w)
      → Distinct (λ n. n.name) (nodes w)
      → (w' : W) × (reconcile_set_live c ssc d w
          ≡ c.update_status Client.daemon_cron_job_set
              (with_counts ssc d (length (nodes w)) (length (nodes w)))
              w')
        × All (IsOwn d) (jobs w')
        × ((node : String)
            → spec_for node w' ≡ (
                if contains (map (λ n. n.name) (nodes w)) node
                then some (or_new (new_spec node) (spec_for node w))
                else none))
  unfolding reconcile_set_live update_set_status list_set_nodes
  reconcile_set_live-serves ssc w own apart =
      let (w1, cleaned, same, own1, left) = cleanup-Leaves w own in
      let (w2, applied, same', own2, made) = apply-Leaves w1 in
      let specs : (node : String)
          → spec_for node w2 ≡ (
              if contains (names_of w) node
              then some (or_new (new_spec node) (spec_for node w))
              else none) =
        λ node.
          ground
            (arith, left node, made node, ap (λ ns. contains (map (λ n. n.name) ns) node) same) in
      let counted : length (jobs w2) ≡ length (nodes w) =
        length_jobs d (jobs w2) (nodes w) (own2 (own1 own))
          (λ node. ground (arith, spec_at-any_named (cron_job_name d node) (jobs w2), specs node))
          (store.distinct w2) apart in
      (
        w2,
        rw (cleaned) (
            rw (applied) (
              rw (store.list_nodes w2, store.list_jobs w2, counted, same', same, length-map) refl)),
        own2 (own1 own),
        specs,
      )
