-- ===== src/Utils/Precompiles.antt =====
-- src/utils/precompiles.rs: the payload of a signature that a precompile instruction verified.
use external_signature_progr.Base.{◌&&◌}
use external_signature_progr.Base.{ℕ, ◌+◌, ◌*◌, not, leb, ◌==◌, if◌then◌else◌, Bytes, Pubkey}
use external_signature_progr.Base.{bytes_eq, from_le, raw_bytes, take, drop}
use external_signature_progr.Errors.{Result, ok, err, panic, ◌>>=◌, ◌>>◌, custom, code, require}
use external_signature_progr.Errors.{map_err, into, index, slice}
use external_signature_progr.Errors.{
  invalid_precompile_id, invalid_signature_index, invalid_signature_offset,
}
use external_signature_progr.Runtime.{Runtime, IntrospectedInstruction, Instructions}

pub record SignatureOffsets : Type 0 where
  pub signature_offset : ℕ
  pub signature_instruction_index : ℕ
  pub public_key_offset : ℕ
  pub public_key_instruction_index : ℕ
  pub message_data_offset : ℕ
  pub message_data_size : ℕ
  pub message_instruction_index : ℕ

pub record LegacySecp256k1SignatureOffsets : Type 0 where
  pub signature_offset : ℕ
  pub signature_instruction_index : ℕ
  pub public_key_offset : ℕ
  pub public_key_instruction_index : ℕ
  pub message_data_offset : ℕ
  pub message_data_size : ℕ
  pub message_instruction_index : ℕ

-- `Into<SignatureOffsets>`: the u8 indices widen to u16.
unfoldable pub into_signature_offsets : LegacySecp256k1SignatureOffsets → SignatureOffsets
into_signature_offsets self = record {
  signature_offset = self.signature_offset;
  signature_instruction_index = self.signature_instruction_index;
  public_key_offset = self.public_key_offset;
  public_key_instruction_index = self.public_key_instruction_index;
  message_data_offset = self.message_data_offset;
  message_data_size = self.message_data_size;
  message_instruction_index = self.message_instruction_index;
}

pub record SignaturePayload : Type 0 where
  pub signature : Bytes
  pub public_key : Bytes
  pub message : Bytes

-- `trait PrecompileInfo`
pub record PrecompileInfo : Type 0 where
  pub precompile_id : Pubkey
  pub signature_size : ℕ
  pub public_key_size : ℕ
  pub signature_offsets_size : ℕ
  pub data_start_offset : ℕ

unfoldable pub secp256r1_precompile : Runtime → PrecompileInfo
secp256r1_precompile rt = record {
  precompile_id = rt.secp256r1_precompile_id;
  signature_size = 64;
  public_key_size = 33;
  signature_offsets_size = 14;
  data_start_offset = 2;
}

-- A parser: the precompile's instruction data, where it stands in memory, and the transaction's
-- instructions.
pub record PrecompileParser : Type 0 where
  pub precompile_ix_data : Bytes
  pub address : ℕ
  pub instructions_sysvar : Instructions

unfoldable pub get_data_slice : Bytes → ℕ → ℕ → Result Bytes
unfolding slice
get_data_slice bytes offset size = slice bytes offset (offset + size)

-- `from_raw_parts` at an offset, with no check of the length.
unfoldable pub get_data_slice_raw : IntrospectedInstruction → ℕ → ℕ → Bytes
get_data_slice_raw ix offset size = raw_bytes ix.bytes ix.beyond offset size

unfoldable pub new :
    PrecompileInfo → IntrospectedInstruction → Instructions → Result PrecompileParser
new t precompile_ix instructions_sysvar =
    if not (bytes_eq precompile_ix.program_id t.precompile_id)
    then err (custom (code invalid_precompile_id))
    else ok (record {
      precompile_ix_data = precompile_ix.bytes;
      address = precompile_ix.address;
      instructions_sysvar = instructions_sysvar;
    })

unfoldable pub num_signatures : PrecompileParser → Result ℕ
num_signatures self = index self.precompile_ix_data 0

-- A little-endian u16 of the offsets' bytes.
abbrev pub u16_at : ℕ → Bytes → ℕ
u16_at i bs = from_le (take 2 (drop i bs))

unfoldable pub offsets_of_bytes : Bytes → SignatureOffsets
offsets_of_bytes bs = record {
  signature_offset = u16_at 0 bs;
  signature_instruction_index = u16_at 2 bs;
  public_key_offset = u16_at 4 bs;
  public_key_instruction_index = u16_at 6 bs;
  message_data_offset = u16_at 8 bs;
  message_data_size = u16_at 10 bs;
  message_instruction_index = u16_at 12 bs;
}

-- `bytemuck::try_from_bytes::<SignatureOffsets>` of the bytes at `offset_start`.
unfoldable pub load_offsets :
    Runtime → PrecompileInfo → PrecompileParser → ℕ → Result SignatureOffsets
unfolding slice offsets_of_bytes
load_offsets rt t self offset_start = do
  bytes ← slice self.precompile_ix_data offset_start (offset_start + t.signature_offsets_size)
  require (rt.is_aligned (self.address + offset_start) 2 && t.signature_offsets_size == 14)
      invalid_signature_offset
  ok (offsets_of_bytes bytes)

-- A part of the payload: u16::MAX names the precompile's own instruction, any other index an
-- instruction of the transaction.
unfoldable pub load_part : PrecompileParser → ℕ → ℕ → ℕ → Result Bytes
unfolding get_data_slice get_data_slice_raw
load_part self instruction_index offset size =
    if instruction_index == 65535 then get_data_slice self.precompile_ix_data offset size else (do
      instruction ←
          map_err (into invalid_signature_offset) (self.instructions_sysvar instruction_index)
      ok (get_data_slice_raw instruction offset size))

-- The arm of the match for the secp256r1 precompile.
unfoldable pub load_payload :
    Runtime → PrecompileInfo → PrecompileParser → ℕ → Result SignaturePayload
unfolding load_offsets load_part
load_payload rt t self offset_start = do
  offset ← load_offsets rt t self offset_start
  signature ←
      load_part self offset.signature_instruction_index offset.signature_offset t.signature_size
  public_key ←
      load_part self offset.public_key_instruction_index offset.public_key_offset t.public_key_size
  message ←
      load_part self offset.message_instruction_index offset.message_data_offset
        offset.message_data_size
  ok (record { signature = signature; public_key = public_key; message = message })

unfoldable pub get_signature_payload :
    Runtime → PrecompileInfo → PrecompileParser → ℕ → Result SignaturePayload
unfolding num_signatures
get_signature_payload rt t self i = do
  count ← num_signatures self
  require (not (leb count i)) invalid_signature_index
  if bytes_eq t.precompile_id rt.legacy_secp256k1_precompile_id
      then panic
      else if bytes_eq t.precompile_id rt.secp256r1_precompile_id
      then load_payload rt t self (t.data_start_offset + t.signature_offsets_size * i)
      else panic
