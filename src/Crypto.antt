-- ===== src/Crypto.antt =====
-- The cryptographic operations of internal/crypto.
pub mod Interface
pub mod Blocks
pub mod KeyWrap
pub mod Cbc
pub mod Keys
pub mod Tests
