-- ===== src/Reconcile/DaemonCronJobSet/Tally.antt =====
-- As many CronJobs as nodes, where each selected node has its own and no other is there.
use daemonjob.Prelude.{
  length, String, ◌≡◌, refl, sym, ◌∙◌, true, false, List, [], ◌∷◌, map, any, eq_iff, All, contains,
  arith, Bool-cases, inl, inr,
}
use daemonjob.Kube.{CronJob, Node}
use daemonjob.Api.{DaemonCronJobSet}
use daemonjob.Resources.DaemonCronJobSet.{cron_job_name}
use daemonjob.Reconcile.Sweep.{named, Distinct}
use daemonjob.Reconcile.Sweep.Tally.{same_length}
use daemonjob.Reconcile.DaemonCronJobSet.Store.{
  IsOwn, name_of, has_name, cron_job_name-eq, own_name,
}

module _ {X : Type 0} (d : DaemonCronJobSet X) where
  -- The name of the set's CronJob for a node
  abbrev name_for : Node → String
  name_for n = cron_job_name d n.name

  name_for-contains :
      (node : String) (ns : List Node)
      → any (named name_for (cron_job_name d node)) ns ≡ contains (map (λ n. n.name) ns) node
  name_for-contains node [] = refl
  name_for-contains node (n ∷ ns) = ground (
    arith,
    name_for-contains node ns,
    cron_job_name-eq d n.name node,
    eq_iff n.name node,
    eq_iff node n.name,
  )

  name_for_some :
      (n : String) (ns : List Node)
      → any (named name_for n) ns ≡ true
      → (node : String) × (n ≡ cron_job_name d node)
  name_for_some n [] e = cc
  name_for_some n (x ∷ ns) e = elim (Bool-cases (named name_for n x)) [
    | inl this ↦ (x.name, ground (arith, eq_iff (name_for x) n))
    | inr other ↦ name_for_some n ns (ground arith)
  ]

  name_for-Distinct : (ns : List Node) → Distinct (λ n. n.name) ns → Distinct name_for ns
  name_for-Distinct [] h = tt
  name_for-Distinct (n ∷ ns) h = (apart n ns h.0, name_for-Distinct ns h.1)
    where
      apart :
          (n : Node) (ns : List Node)
          → any (named (λ n. n.name) n.name) ns ≡ false
          → any (named name_for (name_for n)) ns ≡ false
      apart n [] h = refl
      apart n (m ∷ ns) h = ground (arith, apart n ns, cron_job_name-eq d m.name n.name)

  module _ (js : List (CronJob X)) (ns : List Node) (own : All (IsOwn d) js)
      (each : (node : String)
        → any (has_name (cron_job_name d node)) js ≡ contains (map (λ n. n.name) ns) node) where
    same_names : (n : String) → any (has_name n) js ≡ any (named name_for n) ns
    same_names n = elim (Bool-cases (any (has_name n) js)) [
      | inl there ↦ for_node (own_name d n js own there)
      | inr absent ↦ elim (Bool-cases (any (named name_for n) ns)) [
        | inl there ↦ for_node (name_for_some n ns there)
        | inr missing ↦ absent ∙ sym missing
      ]
    ]
      where
        for_node :
            {n : String}
            → (node : String) × (n ≡ cron_job_name d node)
            → any (has_name n) js ≡ any (named name_for n) ns
        for_node (node, e) = rw (e) (each node ∙ sym (name_for-contains node ns))

    pub length_jobs : Distinct name_of js → Distinct (λ n. n.name) ns → length js ≡ length ns
    length_jobs p q = same_length name_of name_for js ns p (name_for-Distinct ns q) same_names
