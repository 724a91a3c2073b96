-- ===== src/Tokei.antt =====
-- internal/tokei: the accounting of tokens from the client's own databases.
pub mod Wire
pub mod Message
pub mod Alias
pub mod Record
