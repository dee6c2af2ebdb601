-- ===== src/Broadcast.antt =====
-- internal/broadcast/broadcast.go: the program of the broadcast Job.
pub mod Config
pub mod Worker
pub mod Runner
pub mod Main
pub mod Pod
