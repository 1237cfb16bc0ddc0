-- ===== src/Utils/Signatures.antt =====
-- src/utils/signatures
pub mod ClientDataJson
pub mod AuthenticatorData
