-- ===== src/Samples/Tool.antt =====
-- The command line tool on two documents, with a YAML library that knows them.
use daemonjob.Prelude.{
  ℕ, String, ◌<>◌, ◌≡◌, ◌⊎◌, refl, true, false, some, none, List, [], ◌∷◌, ◌++◌, ◌==◌, panicked,
  returned, All, if◌then◌else◌,
}
use daemonjob.StringMap.{empty}
use daemonjob.Result.{Result, ok, err}
use daemonjob.Api.{DaemonCronJob}
use daemonjob.Ctl.Resource.{ApiObject, AnnotatedResource, WriteResult}
use daemonjob.Ctl.Lines.{unlines, split_lines}
use daemonjob.Ctl.Manifest.{Yaml}
use daemonjob.Ctl.Generate.{generate, generate_document, generate_daemon_cron_job, cron_args_of}
use daemonjob.Ctl.Documents.{both, headless, generate-append}
use daemonjob.Ctl.Preview.Cron.{Previews, generate_daemon_cron_job-Previews}
use daemonjob.Ctl.Output.{write_yaml, preamble}
use daemonjob.Ctl.Written.{append, succeed}
use daemonjob.Ctl.Comments.{uncomment, plain, IsComment, write_yaml-uncomment}
use daemonjob.Ctl.Command.{skeleton_of, run_skeleton}
use daemonjob.Ctl.Main.{
  Process, VersionInfo, GenerateFlags, Parsed, parsed, stopped, run_command, daemonjobctl_main,
}
use daemonjob.Ctl.Main.Exits.{Succeeds, daemonjobctl_main-Succeeds}
use daemonjob.Samples.{daemon_job, daemon_cron_job_args, daemon_cron_job_set}

-- A document is its text, whose kind is the text itself.
abbrev pub library : Yaml String ℕ String String
library = record {
  is_empty = λ d. d == "";
  marshal = λ d. ok d;
  read_kind = λ raw. ok raw;
  read_daemon_job = λ raw. ok (daemon_job "" "backup");
  read_daemon_cron_job = λ raw. ok (daemon_cron_job_args none).daemon_cron_job;
  read_daemon_cron_job_set = λ raw. ok daemon_cron_job_set;
  read_unstructured = λ raw. ok raw;
  get_kind = λ u. u;
  get_name = λ u. "web";
}

abbrev two_nodes : List String
two_nodes = "n1" ∷ "n2" ∷ []

abbrev first_documents : List (Result String String)
first_documents = ok "DaemonJob" ∷ ok "" ∷ []

abbrev last_documents : List (Result String String)
last_documents = ok "Service" ∷ ok "DaemonCronJobSet" ∷ []

generate-append_example :
    (generate library two_nodes "i" "r" (first_documents ++ last_documents)
      ≡ both
          (generate library two_nodes "i" "r" first_documents)
          (generate library two_nodes "i" "r" last_documents))
    × ((d : String)
        → (d == "") ≡ false
        → generate library two_nodes "i" "r" (ok d ∷ [])
          ≡ headless (generate_document library two_nodes "i" "r" d))
    × ((d : String)
        → (d == "") ≡ true
        → generate library two_nodes "i" "r" (ok d ∷ [])
          ≡ returned (ok (record { header = ""; direct = []; simulated = [] })))
    × (generate library two_nodes "i" "r" []
        ≡ returned (ok (record { header = ""; direct = []; simulated = [] })))
generate-append_example = generate-append library two_nodes "i" "r" first_documents last_documents

abbrev nightly : DaemonCronJob ℕ
nightly = (daemon_cron_job_args (some empty)).daemon_cron_job

generate_daemon_cron_job-Previews_example :
    ((nightly.spec.cron_job_template.metadata.labels ≡ none)
      × (generate_daemon_cron_job {U = String} nightly two_nodes "i" "r" ≡ panicked))
    ⊎ ((r : WriteResult ℕ String) × (generate_daemon_cron_job nightly two_nodes "i" "r"
          ≡ returned r)
        × Previews (cron_args_of nightly "r" "i") two_nodes r)
generate_daemon_cron_job-Previews_example =
    generate_daemon_cron_job-Previews nightly two_nodes "i" "r"

-- The text of an object, as far as the sample needs it
abbrev sample_yaml : ApiObject ℕ String → String
sample_yaml (ApiObject.unstructured u) = u
sample_yaml o = "kind: Job\nspec: {}\n"

abbrev a_worker : AnnotatedResource ℕ String
a_worker = record {
  comment = "node: n1";
  object = ApiObject.unstructured "kind: Job\nspec: {}\n\n";
}

abbrev a_result : WriteResult ℕ String
a_result = record {
  header = "Input";
  direct = record { comment = ""; object = ApiObject.unstructured "kind: Service\n" } ∷ [];
  simulated = [];
}

write_yaml-uncomment_example :
    (front block : String) × (marks : List String) × (write_yaml {E = String} {M = String} append
        (succeed sample_yaml)
        (record a_result { simulated = [] })
        ""
      ≡ (ok tt, front))
    × (write_yaml {E = String} {M = String} append
          (succeed sample_yaml)
          (record a_result { simulated = a_worker ∷ [] })
          ""
        ≡ (ok tt, front <> (unlines preamble <> block)))
    × (split_lines block ≡ marks ++ "" ∷ [])
    × All IsComment marks
    × (uncomment block ≡ plain sample_yaml (a_worker ∷ []))
write_yaml-uncomment_example = write_yaml-uncomment sample_yaml a_result a_worker [] (refl, tt)

abbrev pub decoded : String → List (Result String String)
decoded raw = ok raw ∷ []

-- The flag package, as far as the sample needs it
abbrev parse_nodes : GenerateFlags → List String → String → Parsed GenerateFlags × String
parse_nodes f [] w = (parsed f, w)
parse_nodes f (a ∷ []) w = (stopped 2, w)
parse_nodes f (a ∷ (v ∷ args)) w = (parsed (record f { nodes = v }), w)

-- The process with its standard output
abbrev pub console : Process String String String
console = record {
  write = append;
  print_error = λ text w. w;
  read_file = λ name w. err "no such file";
  read_stdin = λ w. ok "DaemonJob";
  parse_skeleton = λ args w. (parsed args, w);
  parse_generate = parse_nodes;
}

abbrev lower : String → String
lower s = if s == "DaemonJob" then "daemonjob" else s

abbrev pub build : VersionInfo
build = record { version = "dev"; go_version = "go1.25" }

daemonjobctl_main-Succeeds_example :
    Succeeds console build
      (succeed {M = String} sample_yaml)
      library
      decoded
      lower
      (λ s. s)
      ""
      ("daemonjobctl" ∷ "skeleton" ∷ "DaemonJob" ∷ [])
      "kind: Job\nspec: {}\n"
unfolding daemonjobctl_main run_command run_skeleton skeleton_of
daemonjobctl_main-Succeeds_example =
    daemonjobctl_main-Succeeds console build (succeed {M = String} sample_yaml) library decoded
      lower (λ s. s) "" ("daemonjobctl" ∷ "skeleton" ∷ "DaemonJob" ∷ []) "kind: Job\nspec: {}\n"
      refl
