-- ===== src/Reconcile.antt =====
-- The reconcilers of internal/controller.
pub mod Sweep
pub mod Contents
pub mod Bindings
pub mod Watches
pub mod DaemonJob
pub mod DaemonCronJob
pub mod DaemonCronJobSet
pub mod Setup
