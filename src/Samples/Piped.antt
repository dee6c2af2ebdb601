-- ===== src/Samples/Piped.antt =====
-- The output of one command of the tool as the input of the other.
use daemonjob.Prelude.{ℕ, String, ◌≡◌, refl, [], ◌∷◌, ◌==◌, inl, inr, if◌then◌else◌, returned}
use daemonjob.Result.{ok}
use daemonjob.Ctl.Resource
use daemonjob.Ctl.Resource.{ApiObject, WriteResult}
use daemonjob.Ctl.Skeleton.{daemon_cron_job_skeleton}
use daemonjob.Ctl.Manifest.{Yaml}
use daemonjob.Ctl.Output.{write_yaml}
use daemonjob.Ctl.Written.{append, succeed}
use daemonjob.Ctl.Command.{skeleton_of, split_commas, node_list}
use daemonjob.Ctl.Main.{Process, daemonjobctl_main, default_generate_flags}
use daemonjob.Ctl.Main.Piped.{Previewed, skeleton-generate-Previewed}
use daemonjob.Samples.Tool.{library, decoded, console, build}

abbrev text_of : ApiObject ℕ String → String
text_of (Resource.daemon_cron_job d) = "DaemonCronJob"
text_of o = "kind: Job\n"

abbrev reading_library : Yaml String ℕ String String
reading_library = record library { read_daemon_cron_job = λ raw. ok daemon_cron_job_skeleton }

abbrev reader : Process String String String
reader = record console { read_stdin = λ w. ok "DaemonCronJob" }

abbrev lower : String → String
lower s = if s == "DaemonCronJob" then "daemoncronjob" else s

abbrev skeleton : ApiObject ℕ String
skeleton = Resource.daemon_cron_job daemon_cron_job_skeleton

skeleton-generate-Previewed_example :
    (daemonjobctl_main console build
        (succeed {M = String} text_of)
        reading_library
        decoded
        lower
        (λ s. s)
        ("daemonjobctl" ∷ "skeleton" ∷ "DaemonCronJob" ∷ [])
        ""
      ≡ returned (0, "DaemonCronJob"))
    × ((r : WriteResult ℕ String) × (text : String) × (daemonjobctl_main reader build
            (succeed {M = String} text_of)
            reading_library
            decoded
            lower
            (λ s. s)
            ("daemonjobctl" ∷ "generate" ∷ "-nodes" ∷ "n1,,n2" ∷ [])
            ""
          ≡ returned (0, text))
        × (write_yaml {E = String} {M = String} append (succeed text_of) r "" ≡ (ok tt, text))
        × Previewed ("n1" ∷ "n2" ∷ []) r skeleton)
unfolding skeleton_of split_commas node_list default_generate_flags
skeleton-generate-Previewed_example =
    skeleton-generate-Previewed console reader build text_of reading_library decoded lower (λ s. s)
      "daemonjobctl" "DaemonCronJob" "n1,,n2" "n1" ("n2" ∷ []) skeleton refl refl refl refl refl
      refl refl (inr (inl (refl, refl)))
      (
        daemon_cron_job_skeleton,
        record {
          document = "DaemonCronJob";
          raw = "DaemonCronJob";
          decoded = refl;
          filled = refl;
          marshalled = refl;
          of_kind = refl;
          found = refl;
        },
        refl,
      )
