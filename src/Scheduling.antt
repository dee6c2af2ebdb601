-- ===== src/Scheduling.antt =====
-- What the scheduler makes of a pod's required node affinity and tolerations, as far as the
-- program relies on it. How one term is matched is a parameter.
use daemonjob.Prelude.{
  String, ◌≡◌, Bool, true, Option, none, some, List, [], ◌∷◌, ◌==◌, ◌&&◌, ◌||◌, any, if◌then◌else◌,
}
use daemonjob.Kube.{Toleration, NodeSelector, NodeSelectorTerm, NodeAffinity, Affinity}
use daemonjob.Resources.DaemonCronJobSet.{node_term}

-- Whether a term is met by a node, told by its name.
abbrev pub TermMatch : Type 0
TermMatch = NodeSelectorTerm → String → Bool

-- A field term `metadata.name In [node]` is met by that node and by no other.
pub record MatchesNames (meets : TermMatch) : Type 0 where
  pub by_name : (node n : String) → meets (node_term node) n ≡ (node == n)

module _ (meets : TermMatch) where
  -- The terms of a node selector are alternatives.
  abbrev pub selector_admits : Option NodeSelector → String → Bool
  selector_admits none n = true
  selector_admits (some s) n = any (λ t. meets t n) s.node_selector_terms

  module _ {X : Type 0} where
    abbrev pub node_affinity_admits : Option (NodeAffinity X) → String → Bool
    node_affinity_admits none n = true
    node_affinity_admits (some a) n = selector_admits a.required n

    -- Whether a pod with this affinity may be placed on the node of this name.
    abbrev pub affinity_admits : Option (Affinity X) → String → Bool
    affinity_admits none n = true
    affinity_admits (some a) n = node_affinity_admits a.node_affinity n

pub record Taint : Type 0 where
  pub key : String
  pub value : String
  pub effect : String

-- An empty text of a toleration stands for any.
abbrev any_or : String → String → Bool
any_or wanted given = wanted == "" || wanted == given

-- The operator is Equal where none is given; of any but these two, nothing is tolerated.
abbrev operator_tolerates : Toleration → Taint → Bool
operator_tolerates r t =
    if r.operator == "Exists"
    then true
    else (r.operator == "" || r.operator == "Equal") && r.value == t.value

-- As the Kubernetes API documents Toleration: the effect and the key are those of the taint or empty,
-- and the operator Exists asks for no value.
abbrev pub tolerates_taint : Taint → Toleration → Bool
tolerates_taint t r = any_or r.effect t.effect && (any_or r.key t.key && operator_tolerates r t)

abbrev pub tolerates : List Toleration → Taint → Bool
tolerates rs t = any (tolerates_taint t) rs

-- The taints, by key and effect, that the pods of a DaemonSet tolerate
abbrev pub daemon_set_taints : List (String × String)
daemon_set_taints =
    ("node.kubernetes.io/not-ready", "NoExecute")
    ∷ ("node.kubernetes.io/unreachable", "NoExecute")
    ∷ ("node.kubernetes.io/disk-pressure", "NoSchedule")
    ∷ ("node.kubernetes.io/memory-pressure", "NoSchedule")
    ∷ ("node.kubernetes.io/pid-pressure", "NoSchedule")
    ∷ ("node.kubernetes.io/unschedulable", "NoSchedule")
    ∷ []

abbrev is_taint : Taint → String × String → Bool
is_taint t (key, effect) = effect == t.effect && (key == t.key && true)

abbrev pub tolerated_by_daemon_sets : Taint → Bool
tolerated_by_daemon_sets t = any (is_taint t) daemon_set_taints
