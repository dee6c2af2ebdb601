-- ===== src/Resources/DaemonCronJob/Labels.antt =====
-- The labels of a DaemonCronJob's objects, and when building the CronJob panics.
use daemonjob.Prelude.{
  String, Bool, ◌<>◌, ◌↔◌, ◌≡◌, refl, Option, none, some, ◌==◌, eq_iff, arith, ◌||◌, Option-cases,
  inl, inr, or_else, panicked, returned, if◌then◌else◌,
}
use daemonjob.StringMap.{
  StringMap, get, copy, map_laws, copy_into-none, copy_into-some, get-copy, Selects, Selects-two,
  Selects-three, SameMap, not-is_empty_of_get,
}
use daemonjob.Kube.{CronJob}
use daemonjob.Api.{DaemonCronJob}
use daemonjob.Resources.Constants.{
  label_daemon_job_name, label_daemon_cron_job_name, label_role, role_broadcast, label_instance,
}
use daemonjob.Resources.DaemonJob
use daemonjob.Resources.DaemonJob.{or_empty, broadcast_labels}
use daemonjob.Resources.DaemonJob.Labels.{broadcast_labels-role}
use daemonjob.Resources.DaemonCronJob.{
  DaemonCronJobBroadcastArgs, daemon_job_args, fix_common_labels, service_account,
  cluster_role_binding, job, cron_job, cron_job_labels, build_cron_job, relabel, resource_name,
}
use daemonjob.Client.Selectors.{
  daemon_cron_job_cluster_role_bindings, daemon_cron_job_broadcast_service_accounts,
  daemon_cron_job_broadcast_cron_jobs,
}

module _ {X : Type 0} (a : DaemonCronJobBroadcastArgs X) where
  -- What fixCommonLabels does at every key.
  pub fix_common_labels-get :
      (m : StringMap) (k : String)
      → get (fix_common_labels a m) k ≡ (
          if k == label_instance || k == label_daemon_cron_job_name
          then some a.daemon_cron_job.metadata.name
          else if k == label_daemon_job_name
          then none
          else get m k)
  unfolding fix_common_labels
  fix_common_labels-get m k = simp map_laws (
      ground (
        arith,
        eq_iff k label_instance,
        eq_iff k label_daemon_cron_job_name,
        eq_iff k label_daemon_job_name,
        eq_iff label_instance k,
        eq_iff label_daemon_cron_job_name k,
        eq_iff label_daemon_job_name k,
      ))

  job-labels-role : get (or_empty (job a).metadata.labels) label_role ≡ some role_broadcast
  unfolding job daemon_job_args DaemonJob.job DaemonJob.job_labels
  job-labels-role = simp (fix_common_labels-get, get-copy, broadcast_labels-role)

  -- The map that the call leaves behind, for a template with labels `m`.
  unfoldable pub shared_labels : StringMap → StringMap
  shared_labels m =
      fix_common_labels a
        (copy (copy m (or_empty (job a).metadata.labels)) (broadcast_labels (daemon_job_args a)))

  cron_job_labels-none :
      a.daemon_cron_job.spec.cron_job_template.metadata.labels ≡ none → cron_job_labels a ≡ panicked
  unfolding cron_job_labels
  cron_job_labels-none e = simp (
    e,
    copy_into-none (or_empty (job a).metadata.labels)
        (not-is_empty_of_get _ label_role role_broadcast job-labels-role),
  )

  cron_job_labels-some :
      (m : StringMap)
      → a.daemon_cron_job.spec.cron_job_template.metadata.labels ≡ some m
      → cron_job_labels a ≡ returned (shared_labels m)
  unfolding cron_job_labels shared_labels
  cron_job_labels-some m e = simp (e, copy_into-some)

  -- CronJob panics exactly when the template of the DaemonCronJob has no labels.
  pub cron_job-panics :
      (cron_job a ≡ panicked) ↔ (a.daemon_cron_job.spec.cron_job_template.metadata.labels ≡ none)
  unfolding cron_job
  cron_job-panics = (
    λ e. elim (Option-cases a.daemon_cron_job.spec.cron_job_template.metadata.labels) [
      | inl h ↦ h
      | inr (m, h) ↦ cc (cron_job_labels-some m h)
    ],
    λ h. rw (cron_job_labels-none h),
  )

  -- The keys that fixCommonLabels writes or deletes.
  abbrev pub is_fixed : String → Bool
  is_fixed k =
      k == label_instance || (k == label_daemon_cron_job_name || k == label_daemon_job_name)

  job-labels-get :
      (k : String)
      → get (or_empty (job a).metadata.labels) k ≡ (
          if k == label_instance || k == label_daemon_cron_job_name
          then some a.daemon_cron_job.metadata.name
          else if k == label_daemon_job_name
          then none
          else or_else
              (get (broadcast_labels (daemon_job_args a)) k)
              (get (or_empty a.daemon_cron_job.spec.cron_job_template.spec.job_template.labels) k))
  unfolding job daemon_job_args DaemonJob.job DaemonJob.job_labels
  job-labels-get k = simp (fix_common_labels-get, get-copy) (ground arith)

  -- The labels of the CronJob, key by key: the controller's own labels first, then those of the job
  -- template, then those of the cron job template; the DaemonJob's name label is never there.
  abbrev pub expected_label : StringMap → String → Option String
  expected_label m k =
      if k == label_instance || k == label_daemon_cron_job_name
      then some a.daemon_cron_job.metadata.name
      else if k == label_daemon_job_name
      then none
      else or_else (get (broadcast_labels (daemon_job_args a)) k) (
          or_else
            (get (or_empty a.daemon_cron_job.spec.cron_job_template.spec.job_template.labels) k)
            (get m k))

  shared_labels-get : (m : StringMap) (k : String) → get (shared_labels m) k ≡ expected_label m k
  unfolding shared_labels
  shared_labels-get m k = simp (fix_common_labels-get, get-copy, job-labels-get) (ground arith)

  pub cron_job-some :
      (m : StringMap)
      → a.daemon_cron_job.spec.cron_job_template.metadata.labels ≡ some m
      → cron_job a
        ≡ returned (build_cron_job a (shared_labels m), relabel a.daemon_cron_job (shared_labels m))
  unfolding cron_job
  cron_job-some m e = rw (cron_job_labels-some m e)

  -- Where the template has labels, CronJob returns; the CronJob and its job template have the
  -- expected labels at every key, and so has, from then on, the template of the DaemonCronJob it was
  -- built from. Nothing else of that changes. The CronJob runs the broadcast Job's spec, and its
  -- name is that of the DaemonCronJob with the suffix -dcj.
  pub cron_job-returns :
      (m : StringMap)
      → a.daemon_cron_job.spec.cron_job_template.metadata.labels ≡ some m
      → (c : CronJob X) × (d : DaemonCronJob X) × (shared : StringMap) × (cron_job a
          ≡ returned (c, d))
        × ((k : String) → get shared k ≡ expected_label m k)
        × (c.metadata.labels ≡ some shared)
        × (c.spec.job_template.labels ≡ some shared)
        × (d ≡ relabel a.daemon_cron_job shared)
        × (c.spec.job_template.spec ≡ (job a).spec)
        × (c.metadata.name ≡ a.daemon_cron_job.metadata.name <> "-dcj")
  unfolding cron_job resource_name
  cron_job-returns m e = (
    build_cron_job a (shared_labels m),
    relabel a.daemon_cron_job (shared_labels m),
    shared_labels m,
    cron_job-some m e,
    shared_labels-get m,
    refl,
    refl,
    refl,
    refl,
    refl,
  )

  -- The selector of ClusterRoleBindings for a name and a namespace finds the DaemonCronJob's exactly
  -- when both are its own; those of ServiceAccounts and of CronJobs find its ServiceAccount, and the
  -- labels that its CronJob gets from any template labels, exactly when the name is its own.
  pub cron_broadcast-selected :
      (ns name : String)
      → (Selects
            (daemon_cron_job_cluster_role_bindings ns name).selector
            (or_empty (cluster_role_binding a).metadata.labels)
          ↔ ((ns ≡ a.daemon_cron_job.metadata.namespace)
              × (name ≡ a.daemon_cron_job.metadata.name)))
        × (Selects
              (daemon_cron_job_broadcast_service_accounts ns name).selector
              (or_empty (service_account a).metadata.labels)
            ↔ (name ≡ a.daemon_cron_job.metadata.name))
        × ((m : StringMap)
            → Selects (daemon_cron_job_broadcast_cron_jobs ns name).selector (shared_labels m)
              ↔ (name ≡ a.daemon_cron_job.metadata.name))
  unfolding cluster_role_binding service_account daemon_cron_job_cluster_role_bindings
      daemon_cron_job_broadcast_service_accounts daemon_cron_job_broadcast_cron_jobs
      DaemonJob.cluster_role_binding DaemonJob.service_account daemon_job_args
  cron_broadcast-selected ns name = (
    Selects-three _ _ _ _ _ _ _ name ns refl refl
        (simp (fix_common_labels-get, map_laws, broadcast_labels-role)) (simp fix_common_labels-get)
        (simp (fix_common_labels-get, map_laws)),
    Selects-two _ _ _ _ _ name refl (simp (fix_common_labels-get, broadcast_labels-role))
        (simp fix_common_labels-get),
    λ m.
        Selects-two _ _ _ _ _ name refl (simp (shared_labels-get, broadcast_labels-role))
          (simp shared_labels-get),
  )

module _ {X : Type 0} (a : DaemonCronJobBroadcastArgs X) where
  -- The arguments of a second call, after the first has changed the DaemonCronJob.
  abbrev pub again : DaemonCronJob X → DaemonCronJobBroadcastArgs X
  again d = record a { daemon_cron_job = d }

  shared_labels-again :
      (m : StringMap)
      → SameMap
          (shared_labels
            (again (relabel a.daemon_cron_job (shared_labels a m)))
            (shared_labels a m))
          (shared_labels a m)
  unfolding daemon_job_args
  shared_labels-again m k = simp shared_labels-get (ground arith)

  -- After a call of CronJob that returned, a second call on the DaemonCronJob as the first has left
  -- it returns too, and its CronJob has the same labels at every key.
  pub cron_job-again :
      (c : CronJob X) (d : DaemonCronJob X)
      → cron_job a ≡ returned (c, d)
      → (c' : CronJob X) × (d' : DaemonCronJob X) × (cron_job (again d) ≡ returned (c', d'))
        × SameMap (or_empty c'.metadata.labels) (or_empty c.metadata.labels)
  cron_job-again c d e =
      elim (Option-cases a.daemon_cron_job.spec.cron_job_template.metadata.labels) [
        | inl h ↦ cc ((cron_job-panics a).1 h)
        | inr (m, h) ↦
            let d1 = relabel a.daemon_cron_job (shared_labels a m) in
            let first : c ≡ build_cron_job a (shared_labels a m) = cc (cron_job-some a m h) in
            let changed : d ≡ d1 = cc (cron_job-some a m h) in
            rw (first, changed)
              (
                build_cron_job (again d1) (shared_labels (again d1) (shared_labels a m)),
                relabel d1 (shared_labels (again d1) (shared_labels a m)),
                cron_job-some (again d1) (shared_labels a m) refl,
                shared_labels-again m,
              )
      ]
