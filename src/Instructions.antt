-- ===== src/Instructions.antt =====
-- src/instructions: the four instructions of the program.
pub mod Payload
pub mod Invoke
pub mod Execute
pub mod ExecuteSessioned
pub mod Initialize
pub mod Refresh
