-- ===== src/Ctl/Main/Exits.antt =====
-- When the process of daemonjobctl ends without an error.
use daemonjob.Prelude.{
  ℕ, zero, suc, String, ◌<>◌, ◌≡◌, refl, sym, inl, inr, true, Option, none, some, List, [], ◌∷◌,
  Outcome, panicked, returned, Bool-cases, ◌==◌, eq_iff, subst, if◌then◌else◌,
}
use daemonjob.Result.{Result, ok, err}
use daemonjob.Client.{recover}
use daemonjob.Ctl.Resource.{ApiObject, WriteResult}
use daemonjob.Ctl.Manifest.{Yaml}
use daemonjob.Ctl.Output.{WriteError, write_yaml}
use daemonjob.Ctl.Command.{
  CommandError, output_error, write_error, skeleton_of, run_skeleton, write_skeleton,
  write_marshalled,
}
use daemonjob.Ctl.Command.Kinds.{IsSkeleton, skeleton_of-IsSkeleton}
use daemonjob.Ctl.Command.Outcomes.{Ended, Generates, run_generate-Ended}
use daemonjob.Ctl.Main.{
  Process, VersionInfo, GenerateFlags, Parsed, parsed, rejected, stopped, usage,
  default_generate_flags, version_text, exit_status, exit_generate, skeleton_parsed, input,
  with_flags, is_help, run_version, run_command, daemonjobctl_main,
}

-- Where the process exits with 0, this holds of what was written.
abbrev WhenZero : {W : Type 0} → (W → Type 0) → Outcome (ℕ × W) → Type 0
WhenZero P panicked = Unit
WhenZero P (returned (zero, w)) = P w
WhenZero P (returned (suc n, w)) = Unit

module _ {D X U W R E F M : Type 0} (s : Process W R F) (info : VersionInfo)
    (marshal : ApiObject X U → Result M String) (y : Yaml D X U E)
    (decode : String → List (Result E D)) (to_lower trim_space : String → String) (w : W) where
  -- The runs without an error, each with what it writes
  pub data Succeeds : List String → W → Type 0 where
    helped :
        (program command : String) (args : List String)
        → is_help command ≡ true
        → Succeeds (program ∷ command ∷ args) (s.print_error usage w)
    versioned :
        (program : String) (args : List String)
        → Succeeds (program ∷ "version" ∷ args) (s.write (version_text info <> "\n") w).1
    skeleton_flags :
        (program : String) (args : List String) (w' : W)
        → s.parse_skeleton args w ≡ (stopped 0, w')
        → Succeeds (program ∷ "skeleton" ∷ args) w'
    skeleton_written :
        (program kind text : String) (args more : List String) (o : ApiObject X U) (w1 w' : W)
        → s.parse_skeleton args w ≡ (parsed (kind ∷ more), w1)
        → IsSkeleton (to_lower kind) o
        → marshal o ≡ ok text
        → s.write text w1 ≡ (ok tt, w')
        → Succeeds (program ∷ "skeleton" ∷ args) w'
    generate_flags :
        (program : String) (args : List String) (w' : W)
        → s.parse_generate default_generate_flags args w ≡ (stopped 0, w')
        → Succeeds (program ∷ "generate" ∷ args) w'
    generated :
        (program : String) (args : List String) (f : GenerateFlags) (names : List String)
        (text : String) (r : WriteResult X U) (w1 w' : W)
        → s.parse_generate default_generate_flags args w ≡ (parsed f, w1)
        → Generates s.write marshal y decode trim_space f.nodes f.broadcast_image f.broadcast_role
            (if f.file == "" then s.read_stdin w1 else s.read_file f.file w1)
            w1
            names
            text
            (returned (ok r))
        → write_yaml s.write marshal r w1 ≡ (ok tt, w')
        → Succeeds (program ∷ "generate" ∷ args) w'

  module _ (program : String) (args : List String) where
    module _ (kind : String) (more : List String) (w1 : W)
        (e : s.parse_skeleton args w ≡ (parsed (kind ∷ more), w1)) where
      written-Succeeds :
          (o : ApiObject X U) (text : String)
          → skeleton_of (to_lower kind) ≡ some o
          → marshal o ≡ ok text
          → (res : Result F (Unit {0}) × W) → s.write text w1 ≡ res
          → WhenZero
              (Succeeds (program ∷ "skeleton" ∷ args))
              (returned (exit_status {G = CommandError R E F M} (recover write_error res)))
      written-Succeeds o text k m (ok u, w') h =
          skeleton_written program kind text args more o w1 w' e
            (skeleton_of-IsSkeleton (to_lower kind) o k) m h
      written-Succeeds o text k m (err x, w') h = tt

      marshalled-Succeeds :
          (o : ApiObject X U)
          → skeleton_of (to_lower kind) ≡ some o
          → (b : Result M String) → marshal o ≡ b
          → WhenZero
              (Succeeds (program ∷ "skeleton" ∷ args))
              (returned (exit_status (write_marshalled {R = R} {E = E} s.write marshal b w1)))
      marshalled-Succeeds o k (ok text) m = written-Succeeds o text k m (s.write text w1) refl
      marshalled-Succeeds o k (err x) m = tt

      kind-Succeeds :
          (o : Option (ApiObject X U))
          → skeleton_of (to_lower kind) ≡ o
          → WhenZero (Succeeds (program ∷ "skeleton" ∷ args)) (
              returned
                (exit_status (write_skeleton {R = R} {E = E} s.write marshal (to_lower kind) o w1)))
      kind-Succeeds none k = tt
      kind-Succeeds (some o) k = marshalled-Succeeds o k (marshal o) refl

    skeleton-Succeeds :
        (p : Parsed (List String) × W)
        → s.parse_skeleton args w ≡ p
        → WhenZero
            (Succeeds (program ∷ "skeleton" ∷ args))
            (returned (skeleton_parsed s info marshal y decode to_lower trim_space p))
    unfolding run_skeleton
    skeleton-Succeeds (rejected, w1) e = tt
    skeleton-Succeeds (stopped zero, w1) e = skeleton_flags program args w1 e
    skeleton-Succeeds (stopped (suc n), w1) e = tt
    skeleton-Succeeds (parsed [], w1) e = tt
    skeleton-Succeeds (parsed (kind ∷ more), w1) e =
        kind-Succeeds kind more w1 e (skeleton_of (to_lower kind)) refl

    module _ (f : GenerateFlags) (w1 : W)
        (e : s.parse_generate default_generate_flags args w ≡ (parsed f, w1)) where
      output-Succeeds :
          (names : List String) (text : String) (r : WriteResult X U)
          → Generates s.write marshal y decode trim_space f.nodes f.broadcast_image f.broadcast_role
              (input s info marshal y decode to_lower trim_space f w1)
              w1
              names
              text
              (returned (ok r))
          → (res : Result (WriteError F M) (Unit {0}) × W) → write_yaml s.write marshal r w1 ≡ res
          → WhenZero
              (Succeeds (program ∷ "generate" ∷ args))
              (returned (exit_status {G = CommandError R E F M} (recover output_error res)))
      output-Succeeds names text r g (ok u, w') h =
          generated program args f names text r w1 w' e g h
      output-Succeeds names text r g (err x, w') h = tt

      end-Succeeds :
          (o : Outcome (Result (CommandError R E F M) (Unit {0}) × W))
          → Ended s.write marshal y decode trim_space f.nodes f.broadcast_image f.broadcast_role
              (input s info marshal y decode to_lower trim_space f w1)
              w1
              o
          → WhenZero (Succeeds (program ∷ "generate" ∷ args)) (exit_generate o)
      end-Succeeds o (inl (x, h)) = rw (h) tt
      end-Succeeds o (inr (inl (names, text, g, h))) = rw (h) tt
      end-Succeeds o (inr (inr (names, text, r, g, h))) =
          rw (h) (output-Succeeds names text r g (write_yaml s.write marshal r w1) refl)

    generate-Succeeds :
        (p : Parsed GenerateFlags × W)
        → s.parse_generate default_generate_flags args w ≡ p
        → WhenZero
            (Succeeds (program ∷ "generate" ∷ args))
            (with_flags s info marshal y decode to_lower trim_space p)
    generate-Succeeds (rejected, w1) e = tt
    generate-Succeeds (stopped zero, w1) e = generate_flags program args w1 e
    generate-Succeeds (stopped (suc n), w1) e = tt
    generate-Succeeds (parsed f, w1) e = end-Succeeds f w1 e _ (
        run_generate-Ended s.write marshal y decode trim_space f.nodes f.broadcast_image
          f.broadcast_role (input s info marshal y decode to_lower trim_space f w1) w1)

    of_command :
        (command c : String) (o : Outcome (ℕ × W))
        → (command == c) ≡ true
        → WhenZero (Succeeds (program ∷ c ∷ args)) o
        → WhenZero (Succeeds (program ∷ command ∷ args)) o
    of_command command c o h =
        subst (λ x. WhenZero (Succeeds (program ∷ x ∷ args)) o) (sym ((eq_iff command c).0 h))

    command-Succeeds :
        (command : String)
        → WhenZero
            (Succeeds (program ∷ command ∷ args))
            (run_command s info marshal y decode to_lower trim_space command args w)
    unfolding run_command run_version
    command-Succeeds command = elim (Bool-cases (command == "version")) [
      | inl h ↦ rw (h) (
          of_command command "version"
            (returned (run_version s info marshal y decode to_lower trim_space w)) h
            (versioned program args))
      | inr h ↦ rw (h) (elim (Bool-cases (command == "skeleton")) [
        | inl h ↦ rw (h) (
            of_command command "skeleton"
              (returned (
                skeleton_parsed s info marshal y decode to_lower trim_space
                  (s.parse_skeleton args w)))
              h (skeleton-Succeeds (s.parse_skeleton args w) refl))
        | inr h ↦ rw (h) (elim (Bool-cases (command == "generate")) [
          | inl h ↦ rw (h) (
              of_command command "generate"
                (with_flags s info marshal y decode to_lower trim_space
                  (s.parse_generate default_generate_flags args w))
                h (generate-Succeeds (s.parse_generate default_generate_flags args w) refl))
          | inr h ↦ rw (h) (elim (Bool-cases (is_help command)) [
            | inl h ↦ rw (h) (helped program command args h)
            | inr h ↦ rw (h) tt
          ])
        ])
      ])
    ]

  main-Succeeds :
      (args : List String)
      → WhenZero
          (Succeeds args)
          (daemonjobctl_main s info marshal y decode to_lower trim_space args w)
  unfolding daemonjobctl_main
  main-Succeeds [] = tt
  main-Succeeds (program ∷ []) = tt
  main-Succeeds (program ∷ (command ∷ args)) = command-Succeeds program args command

  -- The process exits with 0 only where it did what it was called for: it printed the usage for a call
  -- for help, or the version; the flag package ended it with 0; or it wrote, without an error, the
  -- skeleton of the kind in its argument, in any case (the one that belongs to the kind), or the output of WriteYAML for the result that
  -- Generate returned for the trimmed names of the nodes, of which there was one at least, and the
  -- whole file or, where none is named, the whole standard input.
  pub daemonjobctl_main-Succeeds :
      (args : List String) (w' : W)
      → daemonjobctl_main s info marshal y decode to_lower trim_space args w ≡ returned (0, w')
      → Succeeds args w'
  daemonjobctl_main-Succeeds args w' e = subst (WhenZero (Succeeds args)) e (main-Succeeds args)
