-- ===== src/Resources/DaemonCronJobSet/Cron.antt =====
-- The CronJob of a DaemonCronJobSet for a node: its labels, and where its pods may run.
use daemonjob.Prelude.{
  String, [], ◌∷◌, ◌↔◌, ◌≡◌, refl, Option, some, ◌==◌, ◌||◌, arith, All, ap, ◌∙◌, any-append,
}
use daemonjob.StringMap.{StringMap, get, copy, map_laws, get-copy, Selects, Selects-two}
use daemonjob.Kube.{CronJob, PodTemplateSpec}
use daemonjob.Api.{DaemonCronJobSet}
use daemonjob.Resources.Constants.{
  label_daemon_cron_job_set_name, label_role, role_worker, label_node,
}
use daemonjob.Resources.DaemonJob.{or_empty}
use daemonjob.Resources.DaemonCronJobSet.{
  default_tolerations, node_labels, new_cron_job_for_node, cron_job_name,
}
use daemonjob.Client.Selectors.{worker_selector, daemon_cron_job_set_cron_jobs}
use daemonjob.Scheduling.{
  TermMatch, MatchesNames, affinity_admits, tolerates, tolerates_taint, tolerated_by_daemon_sets,
  Taint,
}

-- The default tolerations tolerate exactly the taints that a DaemonSet's pods tolerate.
pub default_tolerations-tolerate :
    (t : Taint) → tolerates default_tolerations t ≡ tolerated_by_daemon_sets t
unfolding default_tolerations
default_tolerations-tolerate t = refl

module _ {X : Type 0} (a : DaemonCronJobSet X) (node : String) where
  abbrev pub pods_of : CronJob X → PodTemplateSpec X
  pods_of c = c.spec.job_template.spec.template

  node_labels-owned :
      (get (node_labels a node) label_node ≡ some node)
      × (get (node_labels a node) label_role ≡ some role_worker)
      × (get (node_labels a node) label_daemon_cron_job_set_name ≡ some a.metadata.name)
  unfolding node_labels
  node_labels-owned = (simp map_laws, simp map_laws, simp map_laws)

  overlaid :
      (labels : Option StringMap) (name : String)
      → (get (copy (or_empty labels) (node_labels a node)) label_node ≡ some node)
        × (Selects
              (worker_selector label_daemon_cron_job_set_name name)
              (copy (or_empty labels) (node_labels a node))
            ↔ (name ≡ a.metadata.name))
  overlaid labels name = (
    simp (get-copy, node_labels-owned.0),
    Selects-two _ _ _ _ _ name refl (simp (get-copy, node_labels-owned.1))
        (simp (get-copy, node_labels-owned.2)),
  )

  pub new_cron_job_for_node-owner :
      get (or_empty (new_cron_job_for_node a node).metadata.labels) label_daemon_cron_job_set_name
      ≡ some a.metadata.name
  unfolding new_cron_job_for_node
  new_cron_job_for_node-owner = simp (get-copy, node_labels-owned.2)

  pub new_cron_job_for_node-name :
      (new_cron_job_for_node a node).metadata.name ≡ cron_job_name a node
  unfolding new_cron_job_for_node
  new_cron_job_for_node-name = refl

  pub new_cron_job_for_node-namespace :
      (new_cron_job_for_node a node).metadata.namespace ≡ a.metadata.namespace
  unfolding new_cron_job_for_node
  new_cron_job_for_node-namespace = refl

  -- The labels of the CronJob, of its Jobs and of their pods each carry the node's name, and the
  -- set's selector finds them by the set's own name and by no other.
  pub new_cron_job_for_node-selected :
      (ns name : String)
      → All
          (λ labels.
            (get (or_empty labels) label_node ≡ some node)
            × (Selects (daemon_cron_job_set_cron_jobs ns name).selector (or_empty labels)
                ↔ (name ≡ a.metadata.name)))
          ((new_cron_job_for_node a node).metadata.labels
            ∷ (new_cron_job_for_node a node).spec.job_template.labels
            ∷ (pods_of (new_cron_job_for_node a node)).labels
            ∷ [])
  unfolding new_cron_job_for_node daemon_cron_job_set_cron_jobs
  new_cron_job_for_node-selected ns name = (
    overlaid a.spec.cron_job_template.metadata.labels name,
    (
      overlaid a.spec.cron_job_template.spec.job_template.labels name,
      (overlaid a.spec.cron_job_template.spec.job_template.spec.template.labels name, tt),
    ),
  )

  -- For a matcher under which the term of a node's name is met by that node alone: the pods of the
  -- CronJob may run on its node and on no other, whatever affinity the template has. They tolerate
  -- a taint exactly if the template's tolerations do or it is one of those that a DaemonSet's pods
  -- tolerate.
  pub new_cron_job_for_node-placed :
      (meets : TermMatch)
      → MatchesNames meets
      → ((n : String)
          → affinity_admits meets (pods_of (new_cron_job_for_node a node)).spec.affinity n
            ≡ (node == n))
        × ((t : Taint)
            → tolerates (pods_of (new_cron_job_for_node a node)).spec.tolerations t ≡ (
                tolerates a.spec.cron_job_template.spec.job_template.spec.template.spec.tolerations
                  t
                || tolerated_by_daemon_sets t))
  unfolding new_cron_job_for_node
  new_cron_job_for_node-placed meets laws = (
    λ n. ground (arith, laws.by_name node n),
    λ t.
        any-append (tolerates_taint t)
          a.spec.cron_job_template.spec.job_template.spec.template.spec.tolerations
          default_tolerations
        ∙ ap
            (λ b.
              tolerates a.spec.cron_job_template.spec.job_template.spec.template.spec.tolerations t
              || b)
            (default_tolerations-tolerate t),
  )
