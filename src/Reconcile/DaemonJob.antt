-- ===== src/Reconcile/DaemonJob.antt =====
-- internal/controller/daemonjob_controller.go: the reconciler of a DaemonJob. Logging is left out;
-- an error that is only logged is dropped here too.
pub mod Cleanup
pub mod Report
pub mod Cycle
pub mod Watch
pub mod Deletion
pub mod Standing
pub mod Verdict
pub mod Converge
pub mod Finished
use daemonjob.Prelude.{String}
use daemonjob.Api.{DaemonJob}
use daemonjob.Resources.DaemonJob.{DaemonJobBroadcastArgs}

pub record DaemonJobReconciler : Type 0 where
  pub broadcast_image : String
  pub broadcast_role : String

abbrev pub reconciler_finalizer : String
reconciler_finalizer = "daemonjobs.daemonjob.berquerant.github.io/finalizer"

abbrev pub broadcast_args :
    {X : Type 0} → DaemonJobReconciler → DaemonJob X → DaemonJobBroadcastArgs X
broadcast_args r d = record {
  daemon_job = d;
  cluster_role_name = r.broadcast_role;
  image = r.broadcast_image;
}
