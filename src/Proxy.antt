-- ===== src/Proxy.antt =====
-- internal/proxy: the reverse proxy that sends a request to one account after another.
pub mod Commitment
pub mod Stream
pub mod Failover
pub mod Classify
pub mod Headers
pub mod RequestBody
pub mod Dispatch
pub mod Handle
