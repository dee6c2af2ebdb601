-- ===== src/Resources/DaemonJob/Labels.antt =====
-- The labels of the broadcast objects: which selectors find them, and what a template keeps.
use daemonjob.Prelude.{
  String, List, [], ◌∷◌, contains, ◌↔◌, true, false, ◌≡◌, refl, none, some, arith, Bool-cases, inl,
  inr, is_some, if◌then◌else◌,
}
use daemonjob.StringMap.{get, map_laws, get-copy, Selects-two, Selects-three, Selects}
use daemonjob.Resources.Constants.{
  label_daemon_job_name, label_role, role_broadcast, label_instance, label_component, label_name,
  label_managed_by,
}
use daemonjob.Resources.DaemonJob.{
  DaemonJobBroadcastArgs, or_empty, broadcast_labels, job_labels, job, service_account,
  cluster_role_binding,
}
use daemonjob.Client.Selectors.{
  daemon_job_cluster_role_bindings, daemon_job_broadcast_jobs,
  daemon_job_broadcast_service_accounts,
}

-- The label keys that the controller sets on the objects of a broadcast.
abbrev pub owned_keys : List String
owned_keys =
    label_daemon_job_name ∷ label_role ∷ label_instance ∷ label_component ∷ label_name
    ∷ label_managed_by ∷ []

module _ {X : Type 0} (a : DaemonJobBroadcastArgs X) where
  pub broadcast_labels-name :
      get (broadcast_labels a) label_daemon_job_name ≡ some a.daemon_job.metadata.name
  unfolding broadcast_labels
  broadcast_labels-name = simp map_laws

  pub broadcast_labels-role : get (broadcast_labels a) label_role ≡ some role_broadcast
  unfolding broadcast_labels
  broadcast_labels-role = simp map_laws

  pub broadcast_labels-instance :
      get (broadcast_labels a) label_instance ≡ some a.daemon_job.metadata.name
  unfolding broadcast_labels
  broadcast_labels-instance = simp map_laws

  -- Only the six keys of the controller are set.
  broadcast_labels-other :
      (k : String) → contains owned_keys k ≡ false → get (broadcast_labels a) k ≡ none
  unfolding broadcast_labels
  broadcast_labels-other k h = simp map_laws (ground arith)

  broadcast_labels-owned :
      (k : String) → contains owned_keys k ≡ true → is_some (get (broadcast_labels a) k) ≡ true
  unfolding broadcast_labels
  broadcast_labels-owned k h = simp map_laws (ground arith)

  -- The broadcast Job carries the controller's labels, whatever the template says, and every label
  -- of the template under another key.
  pub job_labels-get :
      (k : String)
      → get (or_empty (job a).metadata.labels) k ≡ (
          if contains owned_keys k
          then get (broadcast_labels a) k
          else get (or_empty a.daemon_job.spec.job_template.metadata.labels) k)
  unfolding job
  job_labels-get k = elim (Bool-cases (contains owned_keys k)) [
    | inl own ↦ ground (
      arith,
      broadcast_labels-owned k own,
      get-copy (or_empty a.daemon_job.spec.job_template.metadata.labels) (broadcast_labels a) k,
    )
    | inr other ↦ ground (
      arith,
      broadcast_labels-other k other,
      get-copy (or_empty a.daemon_job.spec.job_template.metadata.labels) (broadcast_labels a) k,
    )
  ]

  -- A DaemonJob's ClusterRoleBinding is found by the selector of a name and a namespace exactly when
  -- they are the DaemonJob's.
  pub cluster_role_binding-selected :
      (ns name : String)
      → Selects
          (daemon_job_cluster_role_bindings ns name).selector
          (or_empty (cluster_role_binding a).metadata.labels)
        ↔ ((ns ≡ a.daemon_job.metadata.namespace) × (name ≡ a.daemon_job.metadata.name))
  unfolding cluster_role_binding daemon_job_cluster_role_bindings
  cluster_role_binding-selected ns name =
      Selects-three _ _ _ _ _ _ _ _ _ refl refl (simp (map_laws, broadcast_labels-role))
        (simp (map_laws, broadcast_labels-name)) (simp map_laws)

  job_labels-owned :
      (k v : String) → get (broadcast_labels a) k ≡ some v → get (job_labels a) k ≡ some v
  unfolding job_labels
  job_labels-owned k v h = simp (get-copy, h)

  -- The selectors of the lists of ServiceAccounts and of broadcast Jobs, for any namespace and name,
  -- find the labels of the ServiceAccount, and those of the broadcast Job and of its pods, exactly
  -- when the name is that of the DaemonJob.
  pub broadcast-selected :
      (ns name : String)
      → (Selects
            (daemon_job_broadcast_service_accounts ns name).selector
            (or_empty (service_account a).metadata.labels)
          ↔ (name ≡ a.daemon_job.metadata.name))
        × (Selects (daemon_job_broadcast_jobs ns name).selector (or_empty (job a).metadata.labels)
            ↔ (name ≡ a.daemon_job.metadata.name))
        × (Selects
              (daemon_job_broadcast_jobs ns name).selector
              (or_empty (job a).spec.template.labels)
            ↔ (name ≡ a.daemon_job.metadata.name))
  unfolding service_account job daemon_job_broadcast_service_accounts daemon_job_broadcast_jobs
  broadcast-selected ns name =
      let of_job =
        Selects-two (job_labels a) label_role role_broadcast label_daemon_job_name _ name refl
          (job_labels-owned _ _ broadcast_labels-role)
          (job_labels-owned _ _ broadcast_labels-name) in
      (
        Selects-two (broadcast_labels a) _ _ _ _ name refl broadcast_labels-role
            broadcast_labels-name,
        of_job,
        of_job,
      )
