-- ===== src/Sdk.antt =====
-- sdks/rust-sdk: the client's side, which builds the program's instructions.
pub mod Types
pub mod Pda
pub mod Compile
pub mod Builders
pub mod Precompile
pub mod Example
