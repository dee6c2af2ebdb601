-- ===== src/Ctl.antt =====
-- internal/daemonjobctl and cmd/daemonjobctl: the command line tool, which prints skeletons of the
-- custom resources and the objects that the controllers would create for a manifest. YAML is a
-- parameter.
pub mod Resource
pub mod Skeleton
pub mod Manifest
pub mod Generate
pub mod Preview
pub mod Documents
pub mod Lines
pub mod Output
pub mod Written
pub mod Comments
pub mod Command
pub mod Main
