-- ===== src/Resources.antt =====
-- The Kubernetes objects that the controllers create: internal/controller/daemonjob.go,
-- daemoncronjob.go and daemoncronjobset.go, and internal/util/label.go.
pub mod Constants
pub mod DaemonJob
pub mod DaemonCronJob
pub mod DaemonCronJobSet
pub mod Names
