-- ===== src/Broadcast/Worker/Placement.antt =====
-- Where the pods of a worker Job may run.
use daemonjob.Prelude.{
  String, List, [], ◌∷◌, ◌++◌, ◌≡◌, refl, Option, none, some, ◌==◌, ◌||◌, arith, any, any-append,
  ap, ◌∙◌,
}
use daemonjob.Kube.{Affinity, NodeAffinity, NodeSelector, NodeSelectorTerm}
use daemonjob.Api.{DaemonJobSpec}
use daemonjob.Resources.DaemonCronJobSet
use daemonjob.Resources.DaemonCronJobSet.{node_term}
use daemonjob.Resources.DaemonCronJobSet.Cron.{default_tolerations-tolerate}
use daemonjob.Broadcast.Config.{Config}
use daemonjob.Broadcast.Worker.{add_term, add_node_term, pin, default_tolerations, build_worker_job}
use daemonjob.Scheduling.{
  selector_admits, TermMatch, MatchesNames, affinity_admits, tolerates, tolerates_taint,
  tolerated_by_daemon_sets, Taint,
}

abbrev selector_terms : Option NodeSelector → List NodeSelectorTerm
selector_terms none = []
selector_terms (some s) = s.node_selector_terms

module _ (meets : TermMatch) (laws : MatchesNames meets) (node n : String) where
  added-admits :
      (ts : List NodeSelectorTerm)
      → any (λ t. meets t n) (ts ++ node_term node ∷ []) ≡ (any (λ t. meets t n) ts || node == n)
  added-admits ts =
      ground (arith, any-append (λ t. meets t n) ts (node_term node ∷ []), laws.by_name node n)

  add_term-admits :
      (o : Option NodeSelector)
      → any (λ t. meets t n) (add_term node o).node_selector_terms
        ≡ (any (λ t. meets t n) (selector_terms o) || node == n)
  add_term-admits none = added-admits []
  add_term-admits (some s) = added-admits s.node_selector_terms

module _ {X : Type 0} where
  abbrev node_affinity_terms : Option (NodeAffinity X) → List NodeSelectorTerm
  node_affinity_terms none = []
  node_affinity_terms (some a) = selector_terms a.required

  -- The terms of a required node affinity, none where a level of it is missing.
  abbrev pub required_terms : Option (Affinity X) → List NodeSelectorTerm
  required_terms none = []
  required_terms (some a) = node_affinity_terms a.node_affinity

  module _ (meets : TermMatch) (laws : MatchesNames meets) (node n : String) where
    add_node_term-admits :
        (o : Option (NodeAffinity X))
        → selector_admits meets (add_node_term node o).required n
          ≡ (any (λ t. meets t n) (node_affinity_terms o) || node == n)
    add_node_term-admits none = add_term-admits meets laws node n none
    add_node_term-admits (some a) = add_term-admits meets laws node n a.required

    pin-admits :
        (o : Option (Affinity X))
        → affinity_admits meets (some (pin node o)) n
          ≡ (any (λ t. meets t n) (required_terms o) || node == n)
    unfolding pin
    pin-admits none = add_node_term-admits none
    pin-admits (some a) = add_node_term-admits a.node_affinity

  -- For a matcher under which the term of a node's name is met by that node alone: the required node
  -- affinity of a worker Job admits a node exactly if it is the Job's node or meets one of the
  -- required node selector terms of the template.
  pub build_worker_job-placed :
      (meets : TermMatch) (laws : MatchesNames meets) (cfg : Config) (node n : String)
      (spec : DaemonJobSpec X)
      → affinity_admits meets (build_worker_job cfg node spec).spec.template.spec.affinity n ≡ (
          any (λ t. meets t n) (required_terms spec.job_template.spec.template.spec.affinity)
          || node == n)
  unfolding build_worker_job
  build_worker_job-placed meets laws cfg node n spec =
      pin-admits meets laws node n spec.job_template.spec.template.spec.affinity

  -- For such a matcher, where the template has no required node selector terms, the required node
  -- affinity of a worker Job admits its node and no other.
  pub build_worker_job-pinned :
      (meets : TermMatch) (laws : MatchesNames meets) (cfg : Config) (node n : String)
      (spec : DaemonJobSpec X)
      → required_terms spec.job_template.spec.template.spec.affinity ≡ []
      → affinity_admits meets (build_worker_job cfg node spec).spec.template.spec.affinity n
        ≡ (node == n)
  build_worker_job-pinned meets laws cfg node n spec free =
      rw (build_worker_job-placed meets laws cfg node n spec, free)

  -- The pods of a worker Job tolerate a taint exactly if it is one of those that a DaemonSet's pods
  -- tolerate, by default, or the template's tolerations tolerate it. The default tolerations are those
  -- of the CronJobs of a DaemonCronJobSet.
  pub build_worker_job-tolerates :
      (cfg : Config) (node : String) (spec : DaemonJobSpec X)
      → (default_tolerations ≡ DaemonCronJobSet.default_tolerations)
        × ((t : Taint)
            → tolerates (build_worker_job cfg node spec).spec.template.spec.tolerations t ≡ (
                tolerated_by_daemon_sets t
                || tolerates spec.job_template.spec.template.spec.tolerations t))
  unfolding build_worker_job default_tolerations DaemonCronJobSet.default_tolerations
  build_worker_job-tolerates cfg node spec = (
    refl,
    λ t.
        any-append (tolerates_taint t) default_tolerations
          spec.job_template.spec.template.spec.tolerations
        ∙ ap (λ b. b || tolerates spec.job_template.spec.template.spec.tolerations t)
            (default_tolerations-tolerate t),
  )
