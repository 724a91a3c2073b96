-- ===== src/Quota.antt =====
-- internal/quota/quota.go.
pub mod Parse
pub mod Freshness
pub mod Capacity
pub mod Refresh
