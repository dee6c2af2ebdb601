-- ===== src/Reconcile/DaemonCronJob/Available.antt =====
-- What the reconciliation of a DaemonCronJob comes to, and the status that it writes.
use daemonjob.Prelude.{
  String, is_some, Bool-cases, inl, inr, ◌∙◌, ◌≡◌, refl, ap, subst, Bool, true, false, not, none,
  some, List, panicked,
}
use daemonjob.StringMap.{StringMap}
use daemonjob.Result.{Result, ok, err}
use daemonjob.Kube.{Condition}
use daemonjob.Api.{DaemonCronJob}
use daemonjob.Status.{
  SetStatusCondition, ConditionLaws, Status, new_status, set_pair, set_not_found,
}
use daemonjob.Status.Verdict.{holds, IsExclusive}
use daemonjob.Status.State.{set_pair-available, set_pair-degraded, set_pair-IsExclusive}
use daemonjob.Resources.DaemonCronJob.{
  service_account, cluster_role_binding, cron_job, cron_job_name, relabel,
}
use daemonjob.Resources.DaemonCronJob.Labels.{cron_job-panics, cron_job-some, shared_labels}
use daemonjob.Client
use daemonjob.Client.{Client, Call, continue, recover, wrap, ◌>>=◌, ◌>>◌}
use daemonjob.Client.Operations.{FinalizerOps, exist}
use daemonjob.Reconcile.DaemonCronJob.{
  DaemonCronJobReconciler, cron_finalizer, failed, cron_broadcast_args, cron_status_of,
  apply_cron_job, note_cron_missing, cron_report, update_cron_status, add_cron_finalizer,
  delete_cron_worker_jobs, reconcile_cron_live, log_error, reconcile_cron,
}

abbrev pub is_ok : {E A : Type 0} → Result E A → Bool
is_ok (ok _) = true
is_ok (err _) = false

bind-fails :
    {W E A B : Type 0} (f : A → Call W E B) (r : Result E A × W)
    → ((a : A) (w : W) → is_ok (f a w).0 ≡ false)
    → is_ok (continue f r).0 ≡ false
bind-fails f (ok a, w) h = h a w
bind-fails f (err e, w) h = refl

failed-bind :
    {W E A B : Type 0} (f : A → Call W E B) (r : Result E A × W)
    → is_ok r.0 ≡ false
    → is_ok (continue f r).0 ≡ false
failed-bind f (ok a, w) h = cc
failed-bind f (err e, w) h = refl

module _ {X W E : Type 0} (c : Client X W E) (r : DaemonCronJobReconciler)
    (set_status_condition : SetStatusCondition) where
  apply-panicked :
      (d : DaemonCronJob X) (w : W)
      → cron_job (cron_broadcast_args r d) ≡ panicked
      → is_ok (apply_cron_job c r d w).0 ≡ false
  unfolding apply_cron_job
  apply-panicked d w h = rw (h) (
      bind-fails _
        (recover failed (
          c.create_or_update (some (Client.daemon_cron_job, d.metadata)) Client.service_account
            (service_account (cron_broadcast_args r d)) w))
        λ _ w1.
          bind-fails _
            (recover failed (
              c.create_or_update none Client.cluster_role_binding
                (cluster_role_binding (cron_broadcast_args r d)) w1))
            λ _ w2. refl)

  live-unlabelled :
      (ops : FinalizerOps X) (d : DaemonCronJob X)
      → d.spec.cron_job_template.metadata.labels ≡ none
      → (q : Result E (DaemonCronJob X) × W)
      → ((d' : DaemonCronJob X) (w' : W)
          → q ≡ (ok d', w')
          → d'.spec.cron_job_template.metadata.labels ≡ none)
      → is_ok
          (continue
            (λ d. (λ w. log_error c (delete_cron_worker_jobs c d w)) >>= λ _.
              apply_cron_job c r d >>= update_cron_status c r set_status_condition)
            (recover failed q)).0
        ≡ false
  live-unlabelled ops d bare (err e, w) h = refl
  live-unlabelled ops d bare (ok d', w) h =
      failed-bind (update_cron_status c r set_status_condition)
        (apply_cron_job c r d' (delete_cron_worker_jobs c d' w).1)
        (apply-panicked d' (delete_cron_worker_jobs c d' w).1
          ((cron_job-panics (cron_broadcast_args r d')).1 (h d' w refl)))

  -- A DaemonCronJob whose template has no labels and that is not being deleted is never reconciled
  -- successfully, whether it has its finalizer yet or not, where an update returns a DaemonCronJob with
  -- the spec that it was given: whatever else the cluster answers, Reconcile ends with an error or
  -- with a panic.
  pub reconcile_cron-unlabelled :
      (ops : FinalizerOps X) (namespace name : String) (d : DaemonCronJob X) (w w1 : W)
      → ((o o' : DaemonCronJob X) (w2 w3 : W)
          → c.update Client.daemon_cron_job o w2 ≡ (ok o', w3)
          → o'.spec ≡ o.spec)
      → c.get Client.daemon_cron_job namespace name w ≡ (ok d, w1)
      → is_some d.metadata.deletion_timestamp ≡ false
      → d.spec.cron_job_template.metadata.labels ≡ none
      → is_ok (reconcile_cron c r set_status_condition ops namespace name w).0 ≡ false
  unfolding reconcile_cron reconcile_cron_live add_cron_finalizer
  reconcile_cron-unlabelled ops namespace name d w w1 keeps there living bare = rw (there) (
      rw (living) (elim (Bool-cases (ops.contains_finalizer d.metadata cron_finalizer)) [
        | inl held ↦ rw (held) (live-unlabelled ops d bare (ok d, w1) (λ d' w' e. cc (e, bare)))
        | inr not_held ↦ rw (not_held) (
            live-unlabelled ops d bare
              (c.update Client.daemon_cron_job
                (record d { metadata = ops.add_finalizer d.metadata cron_finalizer }) w1)
              (λ d' w' e.
                ap (λ s. s.cron_job_template.metadata.labels) (keeps _ d' w1 w' e) ∙ bare))
      ]))

-- A status with the types of a DaemonCronJob.
record IsCron (s : Status) : Type 0 where
  exclusive : IsExclusive s
  standard : s ≡ new_status s.conditions "Available" "Available" "Degraded" "Reconciling"

module _ (set_status_condition : SetStatusCondition)
    (laws : ConditionLaws set_status_condition) where
  set_pair-IsCron :
      (s : Status) (b : Bool) (reason message : String)
      → IsCron s
      → IsCron (set_pair set_status_condition s b reason message)
  unfolding set_pair
  set_pair-IsCron s b reason message h = record {
    exclusive = set_pair-IsExclusive set_status_condition laws s b reason message h.exclusive;
    standard =
        ap {A = Status}
          (λ x. record x {
            conditions = (set_pair set_status_condition s b reason message).conditions;
          })
          h.standard;
  }

  note-IsCron :
      (name : String) (s : Status) (found : Bool)
      → IsCron s
      → IsCron (note_cron_missing set_status_condition name s found)
  unfolding set_not_found
  note-IsCron name s true h = h
  note-IsCron name s false h = set_pair-IsCron s false _ _ h

  -- The two conditions of a DaemonCronJob, after the status has been settled
  abbrev pub Reports : List Condition → Bool → Type 0
  Reports cs found =
      IsExclusive (new_status cs "Available" "Available" "Degraded" "Reconciling")
      × (holds cs "Available" ≡ found)
      × (holds cs "Degraded" ≡ not found)

  set_pair-Reports :
      (s : Status) (b : Bool) (reason message : String)
      → IsCron s
      → Reports (set_pair set_status_condition s b reason message).conditions b
  set_pair-Reports s b reason message h = (
    subst IsExclusive (set_pair-IsCron s b reason message h).standard
        (set_pair-IsCron s b reason message h).exclusive,
    subst (λ t. holds (set_pair set_status_condition s b reason message).conditions t ≡ b)
        (ap (λ x. x.type_available) h.standard)
        (set_pair-available set_status_condition laws s b reason message h.exclusive),
    subst (λ t. holds (set_pair set_status_condition s b reason message).conditions t ≡ not b)
        (ap (λ x. x.type_degraded) h.standard)
        (set_pair-degraded set_status_condition laws s b reason message h.exclusive),
  )

  cron_report-Reports :
      (s : Status) (found : Bool)
      → IsCron s
      → Reports (cron_report set_status_condition s found).conditions found
  unfolding set_not_found
  cron_report-Reports s true h = set_pair-Reports s true "OK" "" h
  cron_report-Reports s false h = set_pair-Reports s false _ _ h

  -- For a SetStatusCondition with the documented laws, a DaemonCronJob with template labels whose
  -- conditions Available and Degraded exclude one another, and a cluster that stays as it is during
  -- the reads: updateStatus makes exactly one status write, after which Available is true exactly
  -- if the CronJob was found, and Degraded exactly if not. Whether the ServiceAccount or the
  -- ClusterRoleBinding is missing makes no difference.
  pub update_cron_status-Reports :
      {X W E : Type 0} (c : Client X W E) (r : DaemonCronJobReconciler) (d : DaemonCronJob X)
      (w : W) (m : StringMap) (has_account has_binding found : Bool)
      → IsExclusive (cron_status_of d)
      → d.spec.cron_job_template.metadata.labels ≡ some m
      → exist c Client.service_account
          (service_account (cron_broadcast_args r d)).metadata.namespace
          (service_account (cron_broadcast_args r d)).metadata.name
          w
        ≡ (ok has_account, w)
      → exist c Client.cluster_role_binding
          (cluster_role_binding (cron_broadcast_args r d)).metadata.namespace
          (cluster_role_binding (cron_broadcast_args r d)).metadata.name
          w
        ≡ (ok has_binding, w)
      → exist c Client.cron_job d.metadata.namespace (cron_job_name (cron_broadcast_args r d)) w
        ≡ (ok found, w)
      → (d' : DaemonCronJob X) × (update_cron_status c r set_status_condition d w
          ≡ recover failed (c.update_status Client.daemon_cron_job d' w))
        × (d'.metadata ≡ d.metadata)
        × Reports d'.conditions found
  unfolding update_cron_status
  update_cron_status-Reports c r d w m has_account has_binding found exclusive labels account
        binding there =
      rw (account) (
        rw (binding) (
          rw (cron_job-some (cron_broadcast_args r d) m labels) (
            rw (there) (
              record (relabel d (shared_labels (cron_broadcast_args r d) m)) {
                conditions =
                    (cron_report set_status_condition
                      (note_cron_missing set_status_condition "ClusterRoleBinding"
                        (note_cron_missing set_status_condition "ServiceAccount" (cron_status_of d)
                          has_account)
                        has_binding)
                      found).conditions;
              },
              refl,
              refl,
              cron_report-Reports _ found (
                  note-IsCron "ClusterRoleBinding" _ has_binding (
                    note-IsCron "ServiceAccount" (cron_status_of d) has_account
                      (record { exclusive = exclusive; standard = refl }))),
            ))))
