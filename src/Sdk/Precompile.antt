-- ===== src/Sdk/Precompile.antt =====
-- sdks/rust-sdk/src/instructions/precompile.rs: the precompile instruction that carries a signature.
pub mod LowS
pub mod Parts
pub mod ReadBack
use external_signature_progr.Allocator.{saturating_add}
use external_signature_progr.Base.{
  ℕ, ◌-◌, ◌%◌, ◌^◌, ltb, ◌==◌, ◌||◌, if◌then◌else◌, Bool, Bytes, Pubkey, [], ◌∷◌, ◌++◌, length,
  replicate, take, le_bytes, Option, some, none,
}
use external_signature_progr.Runtime.{Instruction}
use external_signature_progr.Sdk.Types.{
  SdkResult, done, failed, ◌>>=◌, or_fail, invalid_signature_format, message_too_large,
}

-- openssl's `EcdsaSig` and `BigNum`, a signed number: a signature is its r and s, and `to_vec` gives
-- a number's magnitude.
pub record Openssl : Type 1 where
  pub BigNum : Type 0
  pub from_der : Bytes → Option (BigNum × BigNum)
  pub from_slice : Bytes → Option BigNum
  pub to_vec : BigNum → Bytes
  pub gt : BigNum → BigNum → Bool
  -- `BigNum::new`, which `checked_sub` writes into.
  pub fresh : Option BigNum
  pub checked_sub : BigNum → BigNum → Option BigNum

-- `Secp256r1SignatureOffsets` of the crate `solana_secp256r1_program`.
pub record Secp256r1SignatureOffsets : Type 0 where
  pub signature_offset : ℕ
  pub signature_instruction_index : ℕ
  pub public_key_offset : ℕ
  pub public_key_instruction_index : ℕ
  pub message_data_offset : ℕ
  pub message_data_size : ℕ
  pub message_instruction_index : ℕ

-- What the SDK takes from the crate `solana_secp256r1_program`, but for the sizes that its array types
-- need: 64 bytes of a signature and 33 of a public key.
pub record Secp256r1Program : Type 0 where
  pub id : Pubkey
  pub order : Bytes
  pub data_start : ℕ
  -- `bytes_of` the offsets.
  pub offsets_bytes : Secp256r1SignatureOffsets → Bytes

abbrev pub field_size : ℕ
field_size = 32

abbrev pub half_order : Bytes
half_order =
    0x7F ∷ 0xFF ∷ 0xFF ∷ 0xFF ∷ 0x80 ∷ 0x00 ∷ 0x00 ∷ 0x00 ∷ 0x7F ∷ 0xFF ∷ 0xFF ∷ 0xFF ∷ 0xFF ∷ 0xFF
    ∷ 0xFF ∷ 0xFF ∷ 0xDE ∷ 0x73 ∷ 0x7D ∷ 0x56 ∷ 0xD3 ∷ 0x8B ∷ 0xCF ∷ 0x42 ∷ 0x79 ∷ 0xDC ∷ 0xE5
    ∷ 0x61 ∷ 0x7E ∷ 0x31 ∷ 0x92 ∷ 0xA8 ∷ []

-- A copy of at most 32 bytes to the end of an array of zeros.
unfoldable pub padded : Bytes → Bytes
padded bs = replicate (field_size - length bs) 0 ++ bs

-- The instruction and the offset of the public key: `u16::MAX` names the instruction itself.
unfoldable pub public_key_place : ℕ → Option (ℕ × ℕ) → ℕ × ℕ
public_key_place data_start none = (65535, data_start)
public_key_place data_start (some (ix, offset)) = (ix, offset)

unfoldable pub layout : Secp256r1Program → Bytes → Option (ℕ × ℕ) → Secp256r1SignatureOffsets
unfolding public_key_place saturating_add
layout program message place =
    let (public_key_instruction_index, public_key_offset) =
      public_key_place program.data_start place in
    let signature_offset =
      if public_key_instruction_index == 65535
      then saturating_add public_key_offset 33
      else program.data_start in
    let message_data_offset = saturating_add signature_offset 64 in
    record {
      signature_offset = signature_offset % 2 ^ 16;
      signature_instruction_index = 65535;
      public_key_offset = public_key_offset % 2 ^ 16;
      public_key_instruction_index = public_key_instruction_index;
      message_data_offset = message_data_offset % 2 ^ 16;
      message_data_size = length message % 2 ^ 16;
      message_instruction_index = 65535;
    }

module _ (o : Openssl) (program : Secp256r1Program) where
  -- The upper half of s becomes the lower half of the order minus s.
  unfoldable pub low_s : Bytes → SdkResult Bytes
  unfolding padded
  low_s s = do
    s_bignum ← or_fail invalid_signature_format (o.from_slice s)
    half ← or_fail invalid_signature_format (o.from_slice half_order)
    order ← or_fail invalid_signature_format (o.from_slice program.order)
    if o.gt s_bignum half
        then (do
          _ ← or_fail invalid_signature_format o.fresh
          new_s ← or_fail invalid_signature_format (o.checked_sub order s_bignum)
          let new_s_bytes = o.to_vec new_s
          if ltb field_size (length new_s_bytes)
              then failed invalid_signature_format
              else done (padded new_s_bytes))
        else done (padded s)

  unfoldable pub parse_der_signature_to_compact : Bytes → SdkResult Bytes
  unfolding padded low_s
  parse_der_signature_to_compact signature_der = do
    (r_bignum, s_bignum) ← or_fail invalid_signature_format (o.from_der signature_der)
    let r = o.to_vec r_bignum
    let s = o.to_vec s_bignum
    if ltb field_size (length r) || ltb field_size (length s)
        then failed invalid_signature_format
        else (do compact_s ← low_s s; done (padded r ++ compact_s))

  unfoldable pub create_secp256r1_instruction :
      Bytes → Bytes → Bytes → Option (ℕ × ℕ) → SdkResult Instruction
  create_secp256r1_instruction signature_der message public_key public_key_offset =
      if ltb 65535 (length message) then failed message_too_large else (do
        signature ← parse_der_signature_to_compact signature_der
        let offsets = layout program message public_key_offset
        let own_key = if offsets.public_key_instruction_index == 65535 then public_key else []
        done (record {
          program_id = program.id;
          input =
              (1 ∷ 0 ∷ [])
              ++ (program.offsets_bytes offsets ++ (own_key ++ (signature ++ message)));
          accounts = [];
        }))
