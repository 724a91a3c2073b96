-- ===== src/Inventory.antt =====
-- internal/inventory: which of the client's databases could be given up, and why not.
pub mod Policy
pub mod Plan
