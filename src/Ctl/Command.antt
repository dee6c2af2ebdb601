-- ===== src/Ctl/Command.antt =====
-- cmd/daemonjobctl/main.go: the commands skeleton and generate behind their flags. A call of
-- os.Exit(1) is an error here. strings.ToLower and strings.TrimSpace are parameters.
pub mod Outcomes
pub mod Kinds
use Prim.Native.Char.{Char}
use Prim.Native.String
use daemonjob.Prelude.{
  String, ◌≡◌, refl, ap, ◌≢◌, ◌⊎◌, inl, inr, Bool, true, false, Option, none, some, List, [], ◌∷◌,
  ◌++◌, ◌==◌, if◌then◌else◌, Outcome, panicked, returned, All, Bool-cases,
}
use daemonjob.Result.{Result, ok, err}
use daemonjob.Client.{Call, recover}
use daemonjob.Ctl.Resource.{
  ApiObject, WriteResult, daemon_job, daemon_cron_job, daemon_cron_job_set,
}
use daemonjob.Ctl.Skeleton.{
  daemon_job_skeleton, daemon_cron_job_skeleton, daemon_cron_job_set_skeleton,
}
use daemonjob.Ctl.Manifest.{Yaml, GenerateError}
use daemonjob.Ctl.Generate.{generate}
use daemonjob.Ctl.Output.{WriteError, write_yaml}

-- The exits of the two commands
pub data CommandError (R E F M : Type 0) : Type 0 where
  unknown_kind : String → CommandError R E F M
  marshal_error : M → CommandError R E F M
  write_error : F → CommandError R E F M
  nodes_required no_node_name : CommandError R E F M
  read_error : R → CommandError R E F M
  generate_error : GenerateError E → CommandError R E F M
  output_error : WriteError F M → CommandError R E F M

-- strings.Split(s, ",")
abbrev before_comma : Char → Bool → List String → List String
before_comma c true parts = "" ∷ parts
before_comma c false [] = String.◌∷◌ c "" ∷ []
before_comma c false (p ∷ parts) = String.◌∷◌ c p ∷ parts

unfoldable pub split_commas : String → List String
split_commas String.[] = "" ∷ []
split_commas (String.◌∷◌ c s) = before_comma c (String.◌∷◌ c "" == ",") (split_commas s)

-- The loop over the parts, with the list so far
unfoldable pub node_list : (trim_space : String → String) → List String → List String → List String
node_list trim_space nodes [] = nodes
node_list trim_space nodes (p ∷ ps) =
    let n = trim_space p in node_list trim_space (if n == "" then nodes else nodes ++ n ∷ []) ps

-- The switch of runSkeleton, on the kind in lower case
unfoldable pub skeleton_of : {X U : Type 0} → String → Option (ApiObject X U)
skeleton_of kind =
    if kind == "daemonjob"
    then some (daemon_job daemon_job_skeleton)
    else if kind == "daemoncronjob"
    then some (daemon_cron_job daemon_cron_job_skeleton)
    else if kind == "daemoncronjobset"
    then some (daemon_cron_job_set daemon_cron_job_set_skeleton)
    else none

module _ {X U W R E F M : Type 0} (write : String → Call W F (Unit {0}))
    (marshal : ApiObject X U → Result M String) where
  abbrev pub write_marshalled : Result M String → Call W (CommandError R E F M) (Unit {0})
  write_marshalled (err e) w = (err (marshal_error e), w)
  write_marshalled (ok b) w = recover write_error (write b w)

  abbrev pub write_skeleton :
      String → Option (ApiObject X U) → Call W (CommandError R E F M) (Unit {0})
  write_skeleton kind none w = (err (unknown_kind kind), w)
  write_skeleton kind (some o) w = write_marshalled (marshal o) w

  unfoldable pub run_skeleton :
      (to_lower : String → String) → String → Call W (CommandError R E F M) (Unit {0})
  unfolding skeleton_of
  run_skeleton to_lower arg = write_skeleton (to_lower arg) (skeleton_of (to_lower arg))

  module _ {D : Type 0} (y : Yaml D X U E) (decode : String → List (Result E D))
      (trim_space : String → String) where
    abbrev exit : CommandError R E F M → W → Outcome (Result (CommandError R E F M) (Unit {0}) × W)
    exit e w = returned (err e, w)

    abbrev write_result :
        Outcome (Result (GenerateError E) (WriteResult X U))
        → W
        → Outcome (Result (CommandError R E F M) (Unit {0}) × W)
    write_result panicked w = panicked
    write_result (returned (err e)) w = exit (generate_error e) w
    write_result (returned (ok r)) w =
        returned (recover output_error (write_yaml write marshal r w))

    abbrev read_manifest :
        (nodes : List String) (image role : String)
        → Result R String
        → W
        → Outcome (Result (CommandError R E F M) (Unit {0}) × W)
    read_manifest nodes image role (err e) w = exit (read_error e) w
    read_manifest nodes image role (ok raw) w =
        write_result (generate y nodes image role (decode raw)) w

    abbrev with_nodes :
        (nodes : List String) (image role : String)
        → Result R String
        → W
        → Outcome (Result (CommandError R E F M) (Unit {0}) × W)
    with_nodes [] image role raw w = exit no_node_name w
    with_nodes (n ∷ ns) image role raw w = read_manifest (n ∷ ns) image role raw w

    -- `raw` is the text of the file or of the standard input, or why it could not be read.
    unfoldable pub run_generate :
        (nodes image role : String)
        → Result R String
        → W
        → Outcome (Result (CommandError R E F M) (Unit {0}) × W)
    unfolding split_commas node_list
    run_generate nodes image role raw w =
        if nodes == ""
        then exit nodes_required w
        else with_nodes (node_list trim_space [] (split_commas nodes)) image role raw w
