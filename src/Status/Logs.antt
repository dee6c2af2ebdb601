-- ===== src/Status/Logs.antt =====
-- internal/controller/status.go, the termination logs of a failed pod.
use mathlib.Core.List.{map-append}
use text.Mathlib.TextLemmas.{append-eq-nil_iff}
use daemonjob.Prelude.{
  ℤ, show_int, String, ◌<>◌, ◌≡◌, ◌≢◌, ◌↔◌, refl, ap, sym, ◌∙◌, eq_iff, Bool, not, Option, none,
  some, List, [], ◌∷◌, ◌++◌, map, arith, delete_func, join, is_some,
}
use daemonjob.Kube.{ContainerState, ContainerStatus, PodStatus}

pub record TerminationLog : Type 0 where
  pub container : String
  pub kind : String
  pub message : String
  pub exit_code : ℤ

unfoldable pub log_string : TerminationLog → String
log_string t =
    t.kind
    <> (" "
        <> (t.container
            <> (" exit with "
                <> (show_int t.exit_code <> (", termination message=" <> t.message)))))

unfoldable pub logs_string : List TerminationLog → String
unfolding log_string
logs_string t = join (map log_string t) "; "

abbrev add_log :
    String → ContainerStatus → Option ContainerState → List TerminationLog → List TerminationLog
add_log kind s none v = v
add_log kind s (some x) v =
    record { container = s.name; kind = kind; message = x.message; exit_code = x.exit_code } ∷ v

unfoldable pub collect_logs : String → List ContainerStatus → List TerminationLog
collect_logs kind [] = []
collect_logs kind (s ∷ statuses) = add_log kind s s.terminated (collect_logs kind statuses)

unfoldable pub collect_termination_logs : PodStatus → List TerminationLog
unfolding collect_logs
collect_termination_logs status =
    collect_logs "Container" status.container_statuses
    ++ (collect_logs "InitContainer" status.init_container_statuses
        ++ collect_logs "EphemeralContainer" status.ephemeral_container_statuses)

-- The containers of all three kinds.
abbrev pub all_containers : PodStatus → List ContainerStatus
all_containers s =
    s.container_statuses ++ (s.init_container_statuses ++ s.ephemeral_container_statuses)

abbrev pub is_terminated : ContainerStatus → Bool
is_terminated s = is_some s.terminated

-- Containers that have terminated, in order.
abbrev pub terminated : List ContainerStatus → List ContainerStatus
terminated = delete_func (λ s. not (is_terminated s))

delete_func-append :
    (xs ys : List ContainerStatus) → terminated (xs ++ ys) ≡ terminated xs ++ terminated ys
delete_func-append [] ys = refl
delete_func-append (x ∷ xs) ys = ground (arith, delete_func-append xs ys)

container_names : List TerminationLog → List String
container_names = map (λ l. l.container)

logs-cons :
    (kind : String) (s : ContainerStatus) (o : Option ContainerState) (v : List TerminationLog)
    (ss : List ContainerStatus)
    → s.terminated ≡ o
    → container_names v ≡ map (λ s. s.name) (terminated ss)
    → container_names (add_log kind s o v) ≡ map (λ s. s.name) (terminated (s ∷ ss))
unfolding container_names
logs-cons kind s none v ss e ih = ground arith
logs-cons kind s (some x) v ss e ih = ground arith

logs-names :
    (kind : String) (ss : List ContainerStatus)
    → container_names (collect_logs kind ss) ≡ map (λ s. s.name) (terminated ss)
unfolding collect_logs container_names
logs-names kind [] = refl
logs-names kind (s ∷ ss) = logs-cons kind s s.terminated _ ss refl (logs-names kind ss)

-- The logs name exactly the terminated containers: those of the pod's containers, then of its init
-- containers, then of its ephemeral containers, each in its order.
pub collect_termination_logs-names :
    (status : PodStatus)
    → map (λ l. l.container) (collect_termination_logs status)
      ≡ map (λ s. s.name) (terminated (all_containers status))
unfolding collect_termination_logs container_names
collect_termination_logs-names status =
    simp (map-append, delete_func-append)
      (cc (
        logs-names "Container" status.container_statuses,
        logs-names "InitContainer" status.init_container_statuses,
        logs-names "EphemeralContainer" status.ephemeral_container_statuses,
      ))

log_string-ne-nil : (t : TerminationLog) → log_string t ≢ ""
unfolding log_string
log_string-ne-nil t e = ground (
  arith,
  eq_iff " " "",
  ((append-eq-nil_iff {p = " "}).0 ((append-eq-nil_iff {p = t.kind}).0 e).1).0,
)

join-ne-nil : (x sep : String) (xs : List String) → x ≢ "" → join (x ∷ xs) sep ≢ ""
join-ne-nil x sep [] h e = h e
join-ne-nil x sep (y ∷ ys) h e = h ((append-eq-nil_iff {p = x}).0 e).0

logs_string-nil : (v : List TerminationLog) → (logs_string v ≡ "") ↔ (v ≡ [])
unfolding logs_string
logs_string-nil [] = (λ _. refl, λ _. refl)
logs_string-nil (t ∷ v) = (
  λ e. absurd (join-ne-nil (log_string t) "; " (map log_string v) (log_string-ne-nil t) e),
  λ e. cc,
)

names-nil {ℓ} : {A : Type ℓ} (f : A → String) (xs : List A) → map f xs ≡ [] → xs ≡ []
names-nil f [] e = refl
names-nil f (x ∷ xs) e = cc

-- The text of a pod's termination logs is empty exactly when none of its containers terminated;
-- this is how the reconciler decides whether a pod is mentioned in the failure message.
pub logs_string-collect :
    (status : PodStatus)
    → (logs_string (collect_termination_logs status) ≡ "")
      ↔ (terminated (all_containers status) ≡ [])
logs_string-collect status = (
  λ e.
      names-nil (λ (s : ContainerStatus). s.name) _
        (sym (collect_termination_logs-names status)
          ∙ ap (map (λ (l : TerminationLog). l.container)) ((logs_string-nil _).0 e)),
  λ e. (logs_string-nil _).1 (
      names-nil (λ (l : TerminationLog). l.container) _
        (collect_termination_logs-names status ∙ ap (map (λ (s : ContainerStatus). s.name)) e)),
)
