-- ===== src/Reconcile/DaemonCronJobSet/Counts.antt =====
-- The status of a DaemonCronJobSet against the counts of nodes and CronJobs.
use daemonjob.Prelude.{
  ℕ, String, ◌≡◌, ◌↔◌, refl, Bool, true, false, not, List, map, ltb, length, length-map, arith,
  Bool-cases, inl, inr, sym, ap, ◌∙◌, ◌&&◌,
}
use daemonjob.Result.{ok}
use daemonjob.Kube.{CronJob, Node}
use daemonjob.Api.{DaemonCronJobSet}
use daemonjob.Status.{SetStatusCondition, ConditionLaws, set_pair}
use daemonjob.Status.Verdict.{holds, IsExclusive}
use daemonjob.Status.State.{set_pair-available, set_pair-degraded, set_pair-IsExclusive}
use daemonjob.Resources.DaemonCronJobSet.Nodes.{set_node_options, list_set_nodes}
use daemonjob.Client
use daemonjob.Client.{Client, Call, ◌>>=◌}
use daemonjob.Reconcile.DaemonCronJobSet.{
  set_status_of, list_options_of, settle, with_counts, update_set_status,
}

abbrev same_count : ℕ → ℕ → Bool
same_count n m = not (ltb n m) && not (ltb m n)

same_count_lem : (n m : ℕ) → (same_count n m ≡ true) ↔ (n ≡ m)
same_count_lem n m = (λ h. ground arith, λ h. ground arith)

module _ (set_status_condition : SetStatusCondition)
    (laws : ConditionLaws set_status_condition) where
  -- What a settled status tells of two counts
  abbrev pub Settled : {X : Type 0} → DaemonCronJobSet X → Type 0
  Settled d =
      IsExclusive (set_status_of d)
      × ((holds d.status.conditions "Available" ≡ true) ↔ (d.status.desired ≡ d.status.available))
      × (holds d.status.conditions "Degraded" ≡ not (holds d.status.conditions "Available"))

  settled :
      {X : Type 0} (d : DaemonCronJobSet X) (b : Bool) (reason message : String)
      → IsExclusive (set_status_of d)
      → IsExclusive (record (set_status_of d) {
        conditions = (set_pair set_status_condition (set_status_of d) b reason message).conditions;
      })
  unfolding set_pair
  settled d b reason message h =
      set_pair-IsExclusive set_status_condition laws (set_status_of d) b reason message h

  set_pair-Settled :
      {X : Type 0} (d : DaemonCronJobSet X) (n m : ℕ) (b : Bool) (reason message : String)
      → IsExclusive (set_status_of d)
      → same_count n m ≡ b
      → Settled (record d {
        status = record {
          conditions =
              (set_pair set_status_condition (set_status_of d) b reason message).conditions;
          desired = n;
          available = m;
        };
      })
  set_pair-Settled d n m b reason message h e = (
    settled d b reason message h,
    (
      λ q. (same_count_lem n m).0 (
          e
          ∙ sym (set_pair-available set_status_condition laws (set_status_of d) b reason message h)
          ∙ q),
      λ q.
          set_pair-available set_status_condition laws (set_status_of d) b reason message h
          ∙ sym e
          ∙ (same_count_lem n m).1 q,
    ),
    set_pair-degraded set_status_condition laws (set_status_of d) b reason message h
        ∙ ap not (
            sym
              (set_pair-available set_status_condition laws (set_status_of d) b reason message h)),
  )

  with_counts-Settled :
      {X : Type 0} (d : DaemonCronJobSet X) (n m : ℕ)
      → IsExclusive (set_status_of d)
      → Settled (with_counts set_status_condition d n m)
  unfolding settle
  with_counts-Settled d n m h = elim (Bool-cases (ltb n m)) [
    | inl p ↦
        rw (p) (set_pair-Settled d n m false "Reconciling" "Too much cronjobs" h (rw (p) refl))
    | inr p ↦ rw (p) (elim (Bool-cases (ltb m n)) [
      | inl q ↦
          rw (q) (set_pair-Settled d n m false "Reconciling" "Too few cronjobs" h (rw (p, q) refl))
      | inr q ↦ rw (q) (set_pair-Settled d n m true "OK" "" h (rw (p, q) refl))
    ])
  ]

  -- For a SetStatusCondition with the documented laws and a DaemonCronJobSet whose conditions
  -- Available and Degraded exclude one another, where both lists succeed: updateStatus writes the
  -- numbers of selected nodes and of listed CronJobs, and the two conditions: Available is true
  -- exactly if the numbers are equal, and Degraded exactly if Available is not.
  pub update_set_status-Settled :
      {X W E : Type 0} (c : Client X W E) (d : DaemonCronJobSet X) (w w1 w2 : W) (nodes : List Node)
      (jobs : List (CronJob X))
      → IsExclusive (set_status_of d)
      → c.list Client.node (set_node_options d) w ≡ (ok nodes, w1)
      → c.list Client.cron_job (list_options_of d) w1 ≡ (ok jobs, w2)
      → (d' : DaemonCronJobSet X) × (update_set_status c set_status_condition d w
          ≡ c.update_status Client.daemon_cron_job_set d' w2)
        × (d'.metadata ≡ d.metadata)
        × (d'.status.desired ≡ length nodes)
        × (d'.status.available ≡ length jobs)
        × Settled d'
  unfolding update_set_status list_set_nodes
  update_set_status-Settled c d w w1 w2 nodes jobs h listed found = rw (listed) (
      rw (found) (
        with_counts set_status_condition d (length (map (λ n. n.name) nodes)) (length jobs),
        refl,
        refl,
        length-map nodes (λ n. n.name),
        refl,
        with_counts-Settled d (length (map (λ n. n.name) nodes)) (length jobs) h,
      ))
