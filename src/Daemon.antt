-- ===== src/Daemon.antt =====
-- internal/daemon.
pub mod Log
