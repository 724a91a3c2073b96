-- ===== src/Tests.antt =====
-- Concrete instances of the parameters, and the theorems applied to concrete inputs.
mod Concrete
mod Serving
mod Scheduling
mod Quotas
mod Fields
mod Tokei
mod Inventory
mod Accounts
mod Daemon
