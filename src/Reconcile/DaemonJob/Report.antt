-- ===== src/Reconcile/DaemonJob/Report.antt =====
-- updateStatus of the reconciler of a DaemonJob: what it looks at, and the status that it writes.
use daemonjob.Prelude.{
  String, ◌<>◌, Bool, true, false, not, Option, none, some, List, [], ◌∷◌, map, ◌==◌, any,
  delete_func, join, if◌then◌else◌,
}
use daemonjob.StringMap.{get_or_zero}
use daemonjob.Result.{Result, ok, err}
use daemonjob.Kube.{Job, Pod}
use daemonjob.Api.{DaemonJob}
use daemonjob.Status.{
  SetStatusCondition, Status, new_status, state, set_progressing, set_pair, set_not_found,
}
use daemonjob.Status.JobStatus
use daemonjob.Status.JobStatus.{JobStatus, JobStatusType, type_is, check_job_status}
use daemonjob.Status.Logs.{logs_string, collect_termination_logs}
use daemonjob.Resources.DaemonJob.{or_empty, service_account, cluster_role_binding, job}
use daemonjob.Client
use daemonjob.Client.{Client, Call, pure, ◌>>=◌, ◌>>◌}
use daemonjob.Client.Selectors.{daemon_job_worker_jobs, job_pods, label_controller_uid}
use daemonjob.Client.Operations.{exist}
use daemonjob.Reconcile.DaemonJob.{DaemonJobReconciler, broadcast_args}

abbrev pub or_unknown : Option String → String
or_unknown none = "Unknown"
or_unknown (some s) = s

-- A worker Job's name and status
abbrev pub Element : Type 0
Element = String × JobStatus

abbrev pub has_type : JobStatusType → Element → Bool
has_type t (name, s) = type_is t s.type

abbrev pub failed_line : Element → String
failed_line (name, s) = name <> (" failed," <> (s.reason <> (": " <> s.message)))

-- The lines of the pods that have termination logs.
unfoldable pub pod_lines : List Pod → List String
pod_lines [] = []
pod_lines (p ∷ ps) =
    let logs = logs_string (collect_termination_logs p.status) in
    let rest = pod_lines ps in if logs == "" then rest else (p.name <> (": " <> logs)) ∷ rest

abbrev pub with_lines : String → List String → String
with_lines msg [] = msg
with_lines msg (l ∷ ls) = msg <> ("\n" <> join (l ∷ ls) "\n")

-- The message of a failed broadcast; an error of the list of pods is ignored.
abbrev pub failure_message : {E : Type 0} → JobStatus → Result E (List Pod) → String
failure_message s (ok pods) = with_lines (s.reason <> (": " <> s.message)) (pod_lines pods)
failure_message s (err e) = s.reason <> (": " <> s.message)

module _ {X : Type 0} where
  abbrev pub status_of : DaemonJob X → Status
  status_of d = new_status d.status.conditions "Complete" "Progressing" "Degraded" "Reconciling"

  -- setState; the Status points to the conditions of the DaemonJob.
  abbrev pub with_status : DaemonJob X → Status → DaemonJob X
  with_status d s = record d {
    status = record { conditions = s.conditions; state = or_unknown (state s) };
  }

  abbrev pub element : Job X → Element
  element j = (j.metadata.name, check_job_status j.conditions)

module _ (set_status_condition : SetStatusCondition) where
  -- The switch over the statuses of the worker Jobs.
  unfoldable pub workers_status : Status → List Element → Status
  workers_status s elems =
      if any (has_type JobStatus.failed) elems
      then set_pair set_status_condition s false "Failed" (
          "Some jobs failed\n"
          <> join (map failed_line (delete_func (λ x. not (has_type JobStatus.failed x)) elems))
              "\n")
      else if any (has_type JobStatus.progressing) elems
      then set_progressing set_status_condition s "Progressing" (
          "Some jobs are progressing: "
          <> join (map (λ x. x.0) (delete_func (λ x. not (has_type JobStatus.progressing x)) elems))
              ", ")
      else set_pair set_status_condition s true "OK" "All jobs are completed"

  abbrev pub note_missing : String → Status → Bool → Status
  note_missing name s found = if found then s else set_not_found set_status_condition s name

  abbrev pub report_failure :
      {W E : Type 0} → Status → JobStatus → Result E (List Pod) × W → Result E Status × W
  report_failure s js (pods, w) =
      (ok (set_pair set_status_condition s false "Failed" (failure_message js pods)), w)

  module _ {X W E : Type 0} (c : Client X W E) (r : DaemonJobReconciler) where
    unfoldable pub check_service_account : DaemonJob X → Status → Call W E Status
    check_service_account d s = do
      let o = (service_account (broadcast_args r d)).metadata
      found ← exist c Client.service_account o.namespace o.name
      pure (note_missing "ServiceAccount" s found)

    unfoldable pub check_cluster_role_binding : DaemonJob X → Status → Call W E Status
    check_cluster_role_binding d s = do
      let o = (cluster_role_binding (broadcast_args r d)).metadata
      found ← exist c Client.cluster_role_binding o.namespace o.name
      pure (note_missing "ClusterRoleBinding" s found)

    -- The switch over the status of the broadcast Job.
    abbrev pub check_broadcast :
        DaemonJob X → Status → Job X → JobStatus → JobStatusType → Call W E Status
    check_broadcast d s j js JobStatus.progressing =
        pure (set_progressing set_status_condition s "Broadcasting" "Broadcast is running")
    check_broadcast d s j js JobStatus.failed = λ w. report_failure s js (
        c.list Client.pod
          (job_pods j.metadata.namespace
            (get_or_zero (or_empty j.metadata.labels) label_controller_uid))
          w)
    check_broadcast d s j js JobStatus.complete = do
      jobs ← c.list Client.job (daemon_job_worker_jobs d.metadata.namespace d.metadata.name)
      pure (workers_status s (map element jobs))

    -- r.Status().Update(ctx, daemonJob) after setState
    abbrev pub write_status : DaemonJob X → Status → Call W E (Unit {0})
    write_status d s = c.update_status Client.daemon_job (with_status d s)

    abbrev pub report_job : DaemonJob X → Status → Job X → Call W E (Unit {0})
    report_job d s j =
        let js = check_job_status j.conditions in
        check_broadcast d s j js js.type >>= write_status d

    -- With the broadcast Job there or not
    abbrev pub report_found : DaemonJob X → Status → Bool → Call W E (Unit {0})
    report_found d s false = write_status d (set_not_found set_status_condition s "Job")
    report_found d s true =
        let o = (job (broadcast_args r d)).metadata in
        c.get Client.job o.namespace o.name >>= report_job d s

    unfoldable pub update_status : DaemonJob X → Call W E (Unit {0})
    update_status d = do
      let o = (job (broadcast_args r d)).metadata
      s1 ← check_service_account d (status_of d)
      s2 ← check_cluster_role_binding d s1
      found ← exist c Client.job o.namespace o.name
      report_found d s2 found
