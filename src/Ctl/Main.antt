-- ===== src/Ctl/Main.antt =====
-- cmd/daemonjobctl/main.go, main, and internal/daemonjobctl/version.go: the commands of the tool and
-- its exit code. The parsing of flags by the flag package, the standard streams and the files are
-- parameters; runtime.Version is one as well.
pub mod Exits
pub mod Piped
use daemonjob.Prelude.{
  ℕ, String, ◌<>◌, Bool, List, [], ◌∷◌, ◌==◌, ◌||◌, if◌then◌else◌, Outcome, panicked, returned,
}
use daemonjob.Result.{Result, ok, err}
use daemonjob.Client.{Call}
use daemonjob.Ctl.Lines.{unlines}
use daemonjob.Ctl.Resource.{ApiObject}
use daemonjob.Ctl.Manifest.{Yaml}
use daemonjob.Ctl.Command.{CommandError, run_skeleton, run_generate}

abbrev pub default_broadcast_image : String
default_broadcast_image = "ghcr.io/berquerant/daemonjob-broadcast:latest"

abbrev pub default_cluster_role : String
default_cluster_role = "daemonjob-broadcast-role"

-- The text of printUsage
abbrev usage_lines : List String
usage_lines =
    "daemonjobctl - CLI helper for daemonjob custom resources"
    ∷ ""
    ∷ "Usage:"
    ∷ "  daemonjobctl <command> [flags]"
    ∷ ""
    ∷ "Commands:"
    ∷ "  version           Print version and Go runtime information."
    ∷ ""
    ∷ "  skeleton <kind>   Output a skeleton YAML for the given custom resource kind."
    ∷ "                    Supported kinds: daemonjob | daemoncronjob | daemoncronjobset"
    ∷ ""
    ∷ "  generate          Generate the Kubernetes manifests that daemonjob would create"
    ∷ "                    for a given custom resource and a list of node names."
    ∷ "                    This output is for preview and simulation purposes only (e.g. CI review, dry-run)."
    ∷ "                    It does not guarantee runtime behavior, and runtime-assigned fields (such as"
    ∷ "                    controller UID) are placeholders."
    ∷ "                    For DaemonJob and DaemonCronJob, broadcast resources are output"
    ∷ "                    directly, and worker Jobs are output as commented-out YAML."
    ∷ "                    For DaemonCronJobSet, all per-node CronJobs are output directly."
    ∷ ""
    ∷ "Flags for 'generate':"
    ∷ "  -f string"
    ∷ "        Input manifest YAML file (reads from stdin if omitted)"
    ∷ "  -nodes string"
    ∷ "        Comma-separated list of node names (required)"
    ∷ "  -broadcast-image string"
    ∷ ("        Broadcast container image used for DaemonJob/DaemonCronJob (default: "
        <> (default_broadcast_image <> ")"))
    ∷ "  -broadcast-role string"
    ∷ ("        Broadcast ClusterRole name used for DaemonJob/DaemonCronJob (default: "
        <> (default_cluster_role <> ")"))
    ∷ ""
    ∷ "Examples:"
    ∷ "  daemonjobctl skeleton daemonjob > my-daemonjob.yaml"
    ∷ "  daemonjobctl generate -f my-daemonjob.yaml -nodes node1,node2,node3"
    ∷ "  cat my-daemonjob.yaml | daemonjobctl generate -nodes node1,node2"
    ∷ []

unfoldable pub usage : String
unfolding unlines
usage = unlines usage_lines

-- VersionInfo. Version is "dev" where the build sets no other.
pub record VersionInfo : Type 0 where
  pub version : String
  pub go_version : String

unfoldable pub version_text : VersionInfo → String
version_text v = "daemonjobctl version " <> (v.version <> (" (" <> (v.go_version <> ")")))

-- The flags of generate
pub record GenerateFlags : Type 0 where
  pub file : String
  pub nodes : String
  pub broadcast_image : String
  pub broadcast_role : String

-- Before they are parsed
unfoldable pub default_generate_flags : GenerateFlags
default_generate_flags = record {
  file = "";
  nodes = "";
  broadcast_image = default_broadcast_image;
  broadcast_role = default_cluster_role;
}

-- What (*flag.FlagSet).Parse does: it returns nil or an error, or it ends the process.
pub data Parsed (A : Type 0) : Type 0 where
  parsed : A → Parsed A
  rejected : Parsed A
  stopped : (code : ℕ) → Parsed A

-- What the process uses. W is what it writes to, R the type of errors of reading, F of writing.
pub record Process (W R F : Type 0) : Type 0 where
  pub write : String → Call W F (Unit {0})
  pub print_error : String → W → W
  pub read_file : String → W → Result R String
  pub read_stdin : W → Result R String
  -- The arguments of skeleton that are left behind its flags, of which it has none
  pub parse_skeleton : List String → W → Parsed (List String) × W
  pub parse_generate : GenerateFlags → List String → W → Parsed GenerateFlags × W

abbrev pub is_help : String → Bool
is_help command = command == "-h" || (command == "--help" || command == "help")

module _ {W G : Type 0} where
  -- The exit code and what was written
  abbrev pub exit_status : Result G (Unit {0}) × W → ℕ × W
  exit_status (ok _, w) = (0, w)
  exit_status (err _, w) = (1, w)

  abbrev pub exit_generate : Outcome (Result G (Unit {0}) × W) → Outcome (ℕ × W)
  exit_generate panicked = panicked
  exit_generate (returned r) = returned (exit_status r)

module _ {D X U W R E F M : Type 0} (s : Process W R F) (info : VersionInfo)
    (marshal : ApiObject X U → Result M String) (y : Yaml D X U E)
    (decode : String → List (Result E D)) (to_lower trim_space : String → String) where
  -- fmt.Println; its error is ignored.
  unfoldable pub run_version : W → ℕ × W
  run_version w = (0, (s.write (version_text info <> "\n") w).1)

  abbrev pub skeleton_parsed : Parsed (List String) × W → ℕ × W
  skeleton_parsed (rejected, w) = (1, w)
  skeleton_parsed (stopped code, w) = (code, w)
  skeleton_parsed (parsed [], w) = (1, w)
  skeleton_parsed (parsed (kind ∷ more), w) =
      exit_status (run_skeleton {R = R} {E = E} s.write marshal to_lower kind w)

  abbrev pub input : GenerateFlags → W → Result R String
  input f w = if f.file == "" then s.read_stdin w else s.read_file f.file w

  abbrev pub with_flags : Parsed GenerateFlags × W → Outcome (ℕ × W)
  with_flags (rejected, w) = returned (1, w)
  with_flags (stopped code, w) = returned (code, w)
  with_flags (parsed f, w) = exit_generate (
      run_generate s.write marshal y decode trim_space f.nodes f.broadcast_image f.broadcast_role
        (input f w) w)

  unfoldable pub run_command : (command : String) → List String → W → Outcome (ℕ × W)
  unfolding default_generate_flags
  run_command command args w =
      if command == "version"
      then returned (run_version w)
      else if command == "skeleton"
      then returned (skeleton_parsed (s.parse_skeleton args w))
      else if command == "generate"
      then with_flags (s.parse_generate default_generate_flags args w)
      else if is_help command
      then returned (0, s.print_error usage w)
      else returned (1, s.print_error usage w)

  -- With os.Args, the name of the program first
  unfoldable pub daemonjobctl_main : (args : List String) → W → Outcome (ℕ × W)
  daemonjobctl_main [] w = returned (1, s.print_error usage w)
  daemonjobctl_main (program ∷ []) w = returned (1, s.print_error usage w)
  daemonjobctl_main (program ∷ (command ∷ args)) w = run_command command args w
