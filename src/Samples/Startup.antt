-- ===== src/Samples/Startup.antt =====
-- The controller started with a manager that writes down its calls.
use daemonjob.Prelude.{ℕ, String, Bool, true, Option, ◌∷◌}
use daemonjob.StringMap.{StringMap}
use daemonjob.Result.{ok}
use daemonjob.Manager.{Flags, Manager}
use daemonjob.Samples.Cluster.{World, fresh}

abbrev noted : String → World → World
noted name w = record w { deleted = name ∷ w.deleted }

abbrev manager : Manager ℕ World String
manager = record {
  new_manager = λ o w. (ok tt, noted o.leader_election_id w);
  complete = λ registration reconciler w. (ok tt, noted registration.name w);
  add_healthz_check = λ name w. (ok tt, noted name w);
  add_readyz_check = λ name w. (ok tt, noted name w);
  start = λ w. (ok tt, noted "start" w);
}

abbrev same_labels : Option StringMap → Option StringMap → Bool
same_labels before after = true

-- All variables have this value.
abbrev environment : String → String
environment name = "v"

abbrev flags : Flags → Flags
flags f = record f { enable_http2 = true }

abbrev started : World
started = noted "start" (
    noted "readyz" (
      noted "healthz" (
        noted "daemoncronjobset" (
          noted "daemoncronjob"
            (noted "daemonjob" (noted "1e98011f.berquerant.github.io" fresh))))))
