-- ===== src/Utils.antt =====
-- src/utils
pub mod SmallVec
pub mod SlotHashes
pub mod Nonce
pub mod Sha256
pub mod Instructions
pub mod Signatures
pub mod Precompiles
pub mod Checks
pub mod InitializeAccount
