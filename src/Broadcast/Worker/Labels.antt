-- ===== src/Broadcast/Worker/Labels.antt =====
-- The labels of a worker Job and of its pods.
use daemonjob.Prelude.{
  String, List, [], ◌∷◌, ◌↔◌, true, false, not, ◌≡◌, refl, Option, none, some, ◌==◌, arith,
  Bool-cases, inl, inr, or_else, or_else-none, contains, if◌then◌else◌,
}
use daemonjob.StringMap.{StringMap, get, remove, map_laws, get-remove, Selects, Selects-two}
use daemonjob.Api.{DaemonJobSpec}
use daemonjob.Resources.Constants.{
  label_daemon_job_name, label_daemon_cron_job_name, label_role, role_worker, label_node,
}
use daemonjob.Resources.DaemonJob.{or_empty}
use daemonjob.Broadcast.Config.{Config}
use daemonjob.Broadcast.Worker.{
  generated_labels, delete_all, worker_labels, pod_labels, build_worker_job,
}
use daemonjob.Client.Selectors.{daemon_job_worker_jobs, daemon_cron_job_worker_jobs}

get-delete_all :
    (ls : List String) (m : StringMap) (k : String)
    → get (delete_all m ls) k ≡ (if contains ls k then none else get m k)
unfolding delete_all
get-delete_all [] m k = refl
get-delete_all (l ∷ ls) m k = ground (arith, get-delete_all ls (remove m l) k, get-remove m l k)

-- The label that names a worker's owner, and the name in it.
abbrev pub owner_label : Config → String
owner_label cfg =
    if not (cfg.daemon_job_name == "") then label_daemon_job_name else label_daemon_cron_job_name

abbrev pub owner_name : Config → String
owner_name cfg =
    if not (cfg.daemon_job_name == "") then cfg.daemon_job_name else cfg.daemon_cron_job_name

module _ {X : Type 0} (cfg : Config) (node : String) (spec : DaemonJobSpec X) where
  -- Every label of a worker: the generated ones are gone, the identifying ones are set, and the rest
  -- is the template's.
  abbrev pub expected_label : String → Option String
  expected_label k =
      if contains generated_labels k
      then none
      else if owner_label cfg == k
      then some (owner_name cfg)
      else if label_role == k
      then some role_worker
      else if label_node == k
      then some node
      else get (or_empty spec.job_template.metadata.labels) k

  worker_labels-get : (k : String) → get (worker_labels cfg node spec) k ≡ expected_label k
  unfolding worker_labels
  worker_labels-get k = elim (Bool-cases (cfg.daemon_job_name == "")) [
    | inl none_given ↦ simp (none_given, get-delete_all, map_laws, or_else-none)
    | inr given ↦ simp (given, get-delete_all, map_laws, or_else-none)
  ]

  pod_labels-get :
      (k : String)
      → get (pod_labels cfg node spec) k ≡ (
          if contains generated_labels k
          then none
          else or_else (expected_label k) (get (or_empty spec.job_template.spec.template.labels) k))
  unfolding pod_labels
  pod_labels-get k = simp (get-delete_all, map_laws, worker_labels-get) (ground arith)

  -- A worker Job has the expected label at every key. Its pods have none of the generated labels,
  -- under the other keys the Job's label or else that of the pod template; their annotations are
  -- those of the job template's metadata or else those of the pod template.
  pub build_worker_job-labels :
      (k : String)
      → (get (or_empty (build_worker_job cfg node spec).metadata.labels) k ≡ expected_label k)
        × (get (or_empty (build_worker_job cfg node spec).spec.template.labels) k ≡ (
            if contains generated_labels k
            then none
            else or_else
                (expected_label k)
                (get (or_empty spec.job_template.spec.template.labels) k)))
        × (get (or_empty (build_worker_job cfg node spec).spec.template.annotations) k
            ≡ or_else
                (get (or_empty spec.job_template.metadata.annotations) k)
                (get (or_empty spec.job_template.spec.template.annotations) k))
  unfolding build_worker_job
  build_worker_job-labels k = (worker_labels-get k, pod_labels-get k, simp (map_laws, or_else-none))

  -- Where the configuration names a DaemonJob, the selector of a DaemonJob's worker Jobs finds the
  -- worker Job exactly for that name.
  pub build_worker_job-selected :
      (ns name : String)
      → (cfg.daemon_job_name == "") ≡ false
      → Selects
          (daemon_job_worker_jobs ns name).selector
          (or_empty (build_worker_job cfg node spec).metadata.labels)
        ↔ (name ≡ cfg.daemon_job_name)
  unfolding build_worker_job daemon_job_worker_jobs
  build_worker_job-selected ns name given =
      Selects-two _ _ _ _ _ name refl (simp (worker_labels-get, given))
        (simp (worker_labels-get, given))

  -- Where the configuration names no DaemonJob, the selector of a DaemonCronJob's worker Jobs finds
  -- the worker Job exactly for the name of the configured DaemonCronJob.
  pub build_worker_job-cron_selected :
      (ns name : String)
      → (cfg.daemon_job_name == "") ≡ true
      → Selects
          (daemon_cron_job_worker_jobs ns name).selector
          (or_empty (build_worker_job cfg node spec).metadata.labels)
        ↔ (name ≡ cfg.daemon_cron_job_name)
  unfolding build_worker_job daemon_cron_job_worker_jobs
  build_worker_job-cron_selected ns name none_given =
      Selects-two _ _ _ _ _ name refl (simp (worker_labels-get, none_given))
        (simp (worker_labels-get, none_given))
