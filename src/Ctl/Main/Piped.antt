-- ===== src/Ctl/Main/Piped.antt =====
-- daemonjobctl skeleton kind | daemonjobctl generate -nodes names
use text.Mathlib.TextLemmas.{nil-append}
use daemonjob.Prelude.{
  ℕ, String, ◌<>◌, ◌≡◌, refl, ap, ◌∙◌, inl, inr, false, none, some, List, [], ◌∷◌, map, Outcome,
  returned, ◌==◌,
}
use daemonjob.Result.{Result, ok}
use daemonjob.Api.{DaemonJob, DaemonCronJob, DaemonCronJobSet}
use daemonjob.Ctl.Resource
use daemonjob.Ctl.Resource.{
  ApiObject, WriteResult, kind_daemon_job, kind_daemon_cron_job, kind_daemon_cron_job_set,
}
use daemonjob.Ctl.Skeleton.{
  daemon_job_skeleton, daemon_cron_job_skeleton, daemon_cron_job_set_skeleton,
}
use daemonjob.Ctl.Manifest.{Yaml, Manifest, parse_manifest, with_namespace}
use daemonjob.Broadcast.Runner.{spec_of_cron}
use daemonjob.Ctl.Preview.Nodes.{node_of, nodes_of_workers, nodes_of_cron_jobs}
use daemonjob.Ctl.Command.Kinds.{IsSkeleton, IsSkeleton-skeleton_of}
use daemonjob.Ctl.Preview.Cron.{objects, objects_of-simulate, generate_daemon_cron_job-Previews}
use daemonjob.Ctl.Generate.{
  generate_daemon_job, generate_daemon_cron_job_set, simulate, args_of, preview_config, generate,
  generate_from, generate_document, generate_manifest, next_sum, ok_of, combine, no_result,
}
use daemonjob.Ctl.Output.{write_yaml}
use daemonjob.Ctl.Written.{append, succeed}
use daemonjob.Ctl.Comments.{write_yaml_text}
use daemonjob.Ctl.Command.{skeleton_of, node_list, split_commas, run_skeleton, run_generate}
use daemonjob.Ctl.Main.{
  Process, VersionInfo, parsed, default_generate_flags, default_broadcast_image,
  default_cluster_role, run_command, daemonjobctl_main,
}

module _ {X U : Type 0} where
  -- What generate shows for a skeleton: for each node, in their order, a worker Job that is labelled
  -- with it, or, beside the DaemonCronJobSet, a CronJob that is labelled with it
  abbrev pub Previewed : List String → WriteResult X U → ApiObject X U → Type 0
  Previewed names r (Resource.daemon_cron_job_set d) =
      map node_of (objects r.direct) ≡ none ∷ map some names
  Previewed names r o = map node_of (objects r.simulated) ≡ map some names

module _ {X : Type 0} (U : Type 0) where
  nodes_of_set :
      (d : DaemonCronJobSet X) (nodes : List String)
      → map node_of (objects (generate_daemon_cron_job_set {U = U} d nodes).direct)
        ≡ none ∷ map some nodes
  unfolding generate_daemon_cron_job_set
  nodes_of_set d nodes =
      ap (◌∷◌ none) (nodes_of_cron_jobs U (λ n. "CronJob for node: " <> n) d nodes)

module _ {D X U E : Type 0} (y : Yaml D X U E) (decode : String → List (Result E D)) where
  -- The text is one document, of this kind, which reads back as this object.
  pub record IsRead {A : Type 0} (text kind : String) (read : String → Result E A) (a : A)
      : Type 0 where
    pub document : D
    pub raw : String
    pub decoded : decode text ≡ ok document ∷ []
    pub filled : y.is_empty document ≡ false
    pub marshalled : y.marshal document ≡ ok raw
    pub of_kind : y.read_kind raw ≡ ok kind
    pub found : read raw ≡ ok a

  -- What Marshal wrote for the object reads back as one of its kind, whose template has the same
  -- labels.
  abbrev pub IsReadBack : String → ApiObject X U → Type 0
  IsReadBack text (Resource.daemon_job d) =
      (d' : DaemonJob X) × IsRead text kind_daemon_job y.read_daemon_job d'
  IsReadBack text (Resource.daemon_cron_job d) =
      (d' : DaemonCronJob X) × IsRead text kind_daemon_cron_job y.read_daemon_cron_job d'
      × (d'.spec.cron_job_template.metadata.labels ≡ d.spec.cron_job_template.metadata.labels)
  IsReadBack text (Resource.daemon_cron_job_set d) =
      (d' : DaemonCronJobSet X) × IsRead text kind_daemon_cron_job_set y.read_daemon_cron_job_set d'
  IsReadBack text o = Unit

  module _ (nodes : List String) (image role : String) where
    generate_one :
        {A : Type 0} (text kind : String) (read : String → Result E A) (a : A)
        (h : IsRead text kind read a) (m : Manifest X U)
        → parse_manifest y h.raw ≡ ok m
        → generate y nodes image role (decode text)
          ≡ next_sum
              (λ r. returned (ok (combine no_result r)))
              (ok_of (generate_manifest y nodes image role m))
    unfolding generate generate_from generate_document
    generate_one text kind read a h m p =
        rw (h.decoded) (rw (h.filled) (rw (h.marshalled) (rw (p) refl)))

    abbrev Shown : String → ApiObject X U → Type 0
    Shown text o =
        (r : WriteResult X U) × (generate y nodes image role (decode text) ≡ returned (ok r))
        × Previewed nodes r o

    daemon_job-Shown :
        (text : String) (d d' : DaemonJob X)
        → IsRead text kind_daemon_job y.read_daemon_job d'
        → Shown text (Resource.daemon_job d)
    unfolding parse_manifest generate_manifest generate_daemon_job simulate
    daemon_job-Shown text d d' h =
        let d2 = record d' { metadata = with_namespace d'.metadata } in
        (
          combine no_result (generate_daemon_job d2 nodes image role),
          generate_one text kind_daemon_job y.read_daemon_job d' h (Manifest.daemon_job d2)
              (rw (h.of_kind) (rw (h.found) refl)),
          ap (map node_of)
                (objects_of-simulate (preview_config (args_of d2 role image)) d2.spec nodes)
              ∙ nodes_of_workers U (preview_config (args_of d2 role image)) d2.spec nodes,
        )

    daemon_cron_job-Shown :
        (text : String) (d' : DaemonCronJob X)
        → IsRead text kind_daemon_cron_job y.read_daemon_cron_job d'
        → (d'.spec.cron_job_template.metadata.labels
            ≡ (daemon_cron_job_skeleton {X = X}).spec.cron_job_template.metadata.labels)
        → Shown text (Resource.daemon_cron_job daemon_cron_job_skeleton)
    unfolding parse_manifest generate_manifest daemon_cron_job_skeleton
    daemon_cron_job-Shown text d' h labelled =
        let d2 = record d' { metadata = with_namespace d'.metadata } in
        let parsed =
          generate_one text kind_daemon_cron_job y.read_daemon_cron_job d' h
            (Manifest.daemon_cron_job d2) (rw (h.of_kind) (rw (h.found) refl)) in
        elim (generate_daemon_cron_job-Previews {X = X} {U = U} d2 nodes image role) [
          | inl (e, _) ↦ cc (e, labelled)
          | inr (r, e, p) ↦ (
            combine no_result r,
            parsed ∙ ap (λ o. next_sum (λ r. returned (ok (combine no_result r))) (ok_of o)) e,
            ap (map node_of) p.simulated ∙ nodes_of_workers U _ (spec_of_cron d2) nodes,
          )
        ]

    daemon_cron_job_set-Shown :
        (text : String) (d d' : DaemonCronJobSet X)
        → IsRead text kind_daemon_cron_job_set y.read_daemon_cron_job_set d'
        → Shown text (Resource.daemon_cron_job_set d)
    unfolding parse_manifest generate_manifest generate_daemon_cron_job_set
    daemon_cron_job_set-Shown text d d' h =
        let d2 = record d' { metadata = with_namespace d'.metadata } in
        (
          combine no_result (generate_daemon_cron_job_set d2 nodes),
          generate_one text kind_daemon_cron_job_set y.read_daemon_cron_job_set d' h
              (Manifest.daemon_cron_job_set d2) (rw (h.of_kind) (rw (h.found) refl)),
          nodes_of_set U d2 nodes,
        )

    skeleton-Shown :
        (text kind : String) (o : ApiObject X U)
        → IsSkeleton kind o
        → IsReadBack text o
        → Shown text o
    skeleton-Shown text kind o (inl (_, h)) =
        rw (h) (λ (d', r). daemon_job-Shown text daemon_job_skeleton d' r)
    skeleton-Shown text kind o (inr (inl (_, h))) =
        rw (h) (λ (d', r, l). daemon_cron_job-Shown text d' r l)
    skeleton-Shown text kind o (inr (inr (_, h))) =
        rw (h) (λ (d', r). daemon_cron_job_set-Shown text daemon_cron_job_set_skeleton d' r)

-- The second process reads what the first one wrote.
module _ {D X U R E F : Type 0} (first second : Process String R F) (info : VersionInfo)
    (yaml : ApiObject X U → String) (y : Yaml D X U E) (decode : String → List (Result E D))
    (to_lower trim_space : String → String) (program kind nodes node : String) (more : List String)
    (o : ApiObject X U) where
  abbrev runs : Process String R F → List String → Outcome (ℕ × String)
  runs s args =
      daemonjobctl_main s info (succeed {M = E} yaml) y decode to_lower trim_space (program ∷ args)
        ""

  skeleton_runs :
      first.write ≡ append
      → first.parse_skeleton (kind ∷ []) "" ≡ (parsed (kind ∷ []), "")
      → skeleton_of (to_lower kind) ≡ some o
      → runs first ("skeleton" ∷ kind ∷ []) ≡ returned (0, yaml o)
  unfolding daemonjobctl_main run_command run_skeleton
  skeleton_runs writer args known =
      rw (args) (rw (known) (rw (writer) (ap (λ t. returned (0, t)) (nil-append (yaml o)))))

  generate_runs :
      second.write ≡ append
      → second.parse_generate default_generate_flags ("-nodes" ∷ nodes ∷ []) ""
        ≡ (parsed (record default_generate_flags { nodes = nodes }), "")
      → second.read_stdin "" ≡ ok (yaml o)
      → (nodes == "") ≡ false
      → node_list trim_space [] (split_commas nodes) ≡ node ∷ more
      → (r : WriteResult X U) (text : String)
      → generate y (node ∷ more) default_broadcast_image default_cluster_role (decode (yaml o))
        ≡ returned (ok r)
      → write_yaml {E = F} {M = E} append (succeed yaml) r "" ≡ (ok tt, text)
      → runs second ("generate" ∷ "-nodes" ∷ nodes ∷ []) ≡ returned (0, text)
  unfolding daemonjobctl_main run_command run_generate default_generate_flags
  generate_runs writer args piped named names r text made written =
      rw (args) (rw (piped) (rw (named) (rw (names) (rw (made) (rw (writer) (rw (written) refl))))))

  -- The output of `daemonjobctl skeleton`, for each kind in any case, is fit for the input of
  -- `daemonjobctl generate -nodes`, with one name at least, where what Marshal writes reads back as one
  -- document of its kind with its template labels, no write fails, and the flag package takes the
  -- arguments for what they are: both processes exit with 0, the first with the skeleton of that kind,
  -- and the second writes the output of WriteYAML for a result whose simulated Jobs, or, for a
  -- DaemonCronJobSet, whose CronJobs, are labelled with the names, one for each in their order.
  pub skeleton-generate-Previewed :
      first.write ≡ append
      → second.write ≡ append
      → first.parse_skeleton (kind ∷ []) "" ≡ (parsed (kind ∷ []), "")
      → second.parse_generate default_generate_flags ("-nodes" ∷ nodes ∷ []) ""
        ≡ (parsed (record default_generate_flags { nodes = nodes }), "")
      → second.read_stdin "" ≡ ok (yaml o)
      → (nodes == "") ≡ false
      → node_list trim_space [] (split_commas nodes) ≡ node ∷ more
      → IsSkeleton (to_lower kind) o
      → IsReadBack y decode (yaml o) o
      → (runs first ("skeleton" ∷ kind ∷ []) ≡ returned (0, yaml o))
        × ((r : WriteResult X U) × (text : String) × (runs second
                ("generate" ∷ "-nodes" ∷ nodes ∷ [])
              ≡ returned (0, text))
            × (write_yaml {E = F} {M = E} append (succeed yaml) r "" ≡ (ok tt, text))
            × Previewed (node ∷ more) r o)
  skeleton-generate-Previewed w1 w2 a1 a2 piped named names known back =
      let (r, made, shown) =
        skeleton-Shown y decode (node ∷ more) default_broadcast_image default_cluster_role (yaml o)
          (to_lower kind) o known back in
      let (text, written) = write_yaml_text yaml r in
      (
        skeleton_runs w1 a1 (IsSkeleton-skeleton_of (to_lower kind) o known),
        (r, text, generate_runs w2 a2 piped named names r text made written, written, shown),
      )
