-- ===== src/Reconcile/DaemonJob/Verdict.antt =====
-- Which status updateStatus writes, told by what it finds in the cluster.
use daemonjob.Prelude.{◌≡◌, refl, sym, subst, is_some, Bool, false, Option, none, some, List, map}
use daemonjob.StringMap.{get_or_zero}
use daemonjob.Result.{Result, ok}
use daemonjob.Kube.{Job, Pod}
use daemonjob.Api.{DaemonJob}
use daemonjob.Status.{
  SetStatusCondition, ConditionLaws, Status, set_progressing, set_pair, set_not_found,
}
use daemonjob.Status.Verdict.{Verdict, degraded, pair, not_found, verdict, IsWellFormed}
use daemonjob.Status.JobStatus
use daemonjob.Status.JobStatus.{
  JobStatus, JobStatusType, check_job_status, check_job_status-standing,
}
use daemonjob.Resources.DaemonJob.{service_account, cluster_role_binding, job, or_empty}
use daemonjob.Client
use daemonjob.Client.{Client, Call, continue}
use daemonjob.Client.Laws.{IsQuiet}
use daemonjob.Client.Operations.{exist}
use daemonjob.Client.Selectors.{daemon_job_worker_jobs, job_pods, label_controller_uid}
use daemonjob.Reconcile.DaemonJob.{DaemonJobReconciler, broadcast_args}
use daemonjob.Reconcile.DaemonJob.Report.{
  element, status_of, with_status, workers_status, note_missing, check_service_account,
  check_cluster_role_binding, check_broadcast, failure_message, report_failure, write_status,
  report_found, update_status,
}
use daemonjob.Reconcile.DaemonJob.Standing.{
  after_check, broadcast_verdict, job_verdict, IsAt, update-IsAt, progress-IsAt,
  workers_status-IsAt, missing-IsAt, IsWritten, with_status-IsWritten,
}

-- What the API server holds at `w`: which objects exist, the broadcast Job, and the worker Jobs.
pub record IsObserved {X W E : Type 0} (c : Client X W E) (r : DaemonJobReconciler)
    (d : DaemonJob X) (w : W) (has_account has_binding : Bool) (broadcast : Option (Job X))
    (workers : List (Job X)) : Type 0 where
  pub account :
      exist c Client.service_account
        (service_account (broadcast_args r d)).metadata.namespace
        (service_account (broadcast_args r d)).metadata.name
        w
      ≡ (ok has_account, w)
  pub binding :
      exist c Client.cluster_role_binding
        (cluster_role_binding (broadcast_args r d)).metadata.namespace
        (cluster_role_binding (broadcast_args r d)).metadata.name
        w
      ≡ (ok has_binding, w)
  pub job_there :
      exist c Client.job
        (job (broadcast_args r d)).metadata.namespace
        (job (broadcast_args r d)).metadata.name
        w
      ≡ (ok (is_some broadcast), w)
  pub job_read :
      (j : Job X)
      → broadcast ≡ some j
      → c.get Client.job
          (job (broadcast_args r d)).metadata.namespace
          (job (broadcast_args r d)).metadata.name
          w
        ≡ (ok j, w)
  pub workers_read :
      c.list Client.job (daemon_job_worker_jobs d.metadata.namespace d.metadata.name) w
      ≡ (ok workers, w)

module _ {X W E : Type 0} (c : Client X W E) (r : DaemonJobReconciler)
    (set_status_condition : SetStatusCondition) (laws : ConditionLaws set_status_condition)
    (quiet : IsQuiet c) (d : DaemonJob X) (w : W) (has_account has_binding : Bool)
    (broadcast : Option (Job X)) (workers : List (Job X))
    (seen : IsObserved c r d w has_account has_binding broadcast workers) where
  abbrev pub Writes : Result E (Unit {0}) × W → Verdict → Type 0
  Writes q v = (d' : DaemonJob X) × (q ≡ c.update_status Client.daemon_job d' w) × IsWritten d d' v

  write_status-Writes :
      (s : Status) (v : Verdict) → IsAt s v → Writes (write_status set_status_condition c r d s w) v
  write_status-Writes s v h = (with_status d s, refl, with_status-IsWritten d s v h)

  failure-Writes :
      (s : Status) (js : JobStatus) (q : Result E (List Pod) × W)
      → q.1 ≡ w
      → IsAt (set_pair set_status_condition s false "Failed" (failure_message js q.0)) degraded
      → Writes
          (continue
            (write_status set_status_condition c r d)
            (report_failure set_status_condition s js q))
          degraded
  failure-Writes s js (pods, w') e h =
      subst
        (λ v.
          Writes
            (write_status set_status_condition c r d
              (set_pair set_status_condition s false "Failed" (failure_message js pods)) v)
            degraded)
        (sym e)
        (write_status-Writes
          (set_pair set_status_condition s false "Failed" (failure_message js pods)) degraded h)

  broadcast-Writes :
      (s : Status) (v : Verdict) (j : Job X) (js : JobStatus) (t : JobStatusType)
      → IsAt s v
      → Writes
          (continue
            (write_status set_status_condition c r d)
            (check_broadcast set_status_condition c r d s j js t w))
          (broadcast_verdict workers t v)
  broadcast-Writes s v j js JobStatus.progressing h =
      write_status-Writes
        (set_progressing set_status_condition s "Broadcasting" "Broadcast is running") _
        (progress-IsAt set_status_condition laws s v "Broadcasting" "Broadcast is running" h)
  broadcast-Writes s v j js JobStatus.failed h =
      let pods =
        c.list Client.pod
          (job_pods j.metadata.namespace
            (get_or_zero (or_empty j.metadata.labels) label_controller_uid))
          w in
      failure-Writes s js pods
        (quiet.list_keeps Client.pod
          (job_pods j.metadata.namespace
            (get_or_zero (or_empty j.metadata.labels) label_controller_uid))
          w)
        (update-IsAt set_status_condition laws s v (pair false "Failed" (failure_message js pods.0))
          h)
  broadcast-Writes s v j js JobStatus.complete h = rw (seen.workers_read) (
      write_status-Writes (workers_status set_status_condition s (map element workers)) _
        (workers_status-IsAt set_status_condition laws s v workers h))

  found-Writes :
      (s : Status) (v : Verdict) (b : Option (Job X))
      → broadcast ≡ b
      → IsAt s v
      → Writes (report_found set_status_condition c r d s (is_some b) w) (job_verdict workers b v)
  found-Writes s v none e h =
      write_status-Writes (set_not_found set_status_condition s "Job") degraded
        (update-IsAt set_status_condition laws s v (not_found "Job") h)
  found-Writes s v (some j) e h = rw (seen.job_read j e) (
      subst
        (λ t.
          Writes
            (continue (write_status set_status_condition c r d) (
              check_broadcast set_status_condition c r d s j (check_job_status j.conditions)
                (check_job_status j.conditions).type w))
            (broadcast_verdict workers t v))
        (check_job_status-standing j.conditions)
        (broadcast-Writes s v j (check_job_status j.conditions) (check_job_status j.conditions).type
          h))

  -- For a SetStatusCondition with the documented laws and a DaemonJob with well-formed conditions,
  -- where the reads succeed and the cluster stays as it is meanwhile, updateStatus makes exactly one
  -- write, of the same DaemonJob with a new status. That status is well-formed again, and its state
  -- is: Degraded where the broadcast Job is missing or has failed, or where it is complete and some
  -- worker Job has failed; Complete where the broadcast Job and all worker Jobs are complete; and
  -- otherwise, so also while the broadcast Job is running whatever its workers do, Degraded where the
  -- ServiceAccount or the ClusterRoleBinding is missing, or else the state before where that was
  -- Complete or Degraded, or else Progressing. A Job is complete or has failed by its first condition
  -- that is "True" and "Complete" or "Failed" (standing).
  pub update_status-Writes :
      IsWellFormed (status_of d)
      → Writes (update_status set_status_condition c r d w) (
          job_verdict workers broadcast
            (after_check has_binding (after_check has_account (verdict (status_of d)))))
  unfolding update_status check_service_account check_cluster_role_binding
  update_status-Writes h = rw (seen.account) (
      rw (seen.binding) (
        rw (seen.job_there) (
          found-Writes
            (note_missing set_status_condition "ClusterRoleBinding"
              (note_missing set_status_condition "ServiceAccount" (status_of d) has_account)
              has_binding)
            (after_check has_binding (after_check has_account (verdict (status_of d)))) broadcast
            refl
            (missing-IsAt set_status_condition laws _ _ "ClusterRoleBinding" has_binding (
              missing-IsAt set_status_condition laws (status_of d) (verdict (status_of d))
                "ServiceAccount" has_account
                (record { well_formed = h; at = refl; standard = refl }))))))
