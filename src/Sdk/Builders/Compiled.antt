-- ===== src/Sdk/Builders/Compiled.antt =====
-- What the builders of executions share: messages that compile, and the schemes' numbers
-- (sdks/rust-sdk/src/instructions/execute.rs).
use external_signature_progr.Base.{◌<◌, ◌≡◌, refl, arith, length, some, All}
use external_signature_progr.Borsh.{Borsh}
use external_signature_progr.Borsh.Laws.{RoundTrips, IsBorsh}
use external_signature_progr.Sdk.Compile.Normalized.{
  HasBytes, IsShort, compiled_instructions-RoundTrips, compiled_instruction-IsCodec,
}
use external_signature_progr.Sdk.Types.{Message}
use external_signature_progr.State.{
  SignerExecutionScheme, execution_account, external_account, signer_execution_scheme_number,
  signer_execution_scheme_try_from,
}
use external_signature_progr.Utils.Instructions.{compiled_instruction_codec}
use external_signature_progr.Utils.SmallVec.{small_vec}
use external_signature_progr.Utils.SmallVec.RoundTrip.{small_vec-RoundTrips}

-- A message that the SDK can compile.
pub record IsCompilable (m : Message) : Type 0 where
  pub few : length m.instructions < 256
  pub short : All IsShort m.instructions
  pub bytes : All HasBytes m.instructions

pub scheme_number_range : (s : SignerExecutionScheme) → signer_execution_scheme_number s < 256
scheme_number_range execution_account = omega arith
scheme_number_range external_account = omega arith

pub scheme_number_lem :
    (s : SignerExecutionScheme)
    → signer_execution_scheme_try_from (signer_execution_scheme_number s) ≡ some s
scheme_number_lem execution_account = refl
scheme_number_lem external_account = refl

module _ (b : Borsh) (h : IsBorsh b) where
  pub instructions-RoundTrips :
      (m : Message)
      → IsCompilable m
      → RoundTrips (small_vec (compiled_instruction_codec b) b 1) m.instructions
  instructions-RoundTrips m hm =
      small_vec-RoundTrips (compiled_instruction_codec b) (compiled_instruction-IsCodec b h) b h 1
        m.instructions hm.few
        (compiled_instructions-RoundTrips b h m.instructions hm.bytes hm.short)
