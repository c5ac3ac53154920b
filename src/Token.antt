-- ===== src/Token.antt =====
-- src/token/mod.rs: join tokens, from mint to revocation.
pub mod Message
pub mod Hex
pub mod Record
pub mod Disk
pub mod Open
pub mod Secret
pub mod Store
pub mod Records
pub mod History
pub mod Steps
pub mod Lifecycle
pub mod Circuit
pub mod Refusals
pub mod Ttl
pub mod Tests
