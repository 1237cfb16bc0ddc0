-- ===== src/Sdk/Precompile/Parts.antt =====
-- The parts of the precompile instruction's data, as the SDK writes and the program finds them
-- (sdks/rust-sdk/src/instructions/precompile.rs against src/utils/precompiles.rs).
use external_signature_progr.Base.{
  ℕ, ◌+◌, ◌-◌, ◌<◌, ◌≤◌, true, ◌≡◌, ◌≢◌, refl, ap, ◌∙◌, arith, Bytes, [], ◌∷◌, ◌++◌, append_assoc,
  append-nil, length, length-append, take-append, drop-append, le_bytes, bytes_eq_refl, bytes_eq_ne,
}
use external_signature_progr.Base.Numbers.{from_le-le_bytes}
use external_signature_progr.Errors.{ok, slice}
use external_signature_progr.Errors.Laws.{slice-eq-ok}
use external_signature_progr.Runtime.{Runtime, Instruction, IntrospectedInstruction, Instructions}
use external_signature_progr.Sdk.Precompile.{Secp256r1Program, Secp256r1SignatureOffsets}
use external_signature_progr.Sdk.Precompile.LowS.{offsets_bytes, IsSecp256r1Program}
use mathlib.Core.Path.{subst}
use external_signature_progr.Utils.Precompiles.{
  offsets_of_bytes, PrecompileParser, secp256r1_precompile, get_signature_payload, num_signatures,
  load_payload, load_offsets, load_part,
}

-- A part behind a prefix of known length is cut out.
slice_middle :
    (before part after : Bytes) (n m : ℕ)
    → length before ≡ n
    → length part ≡ m
    → slice (before ++ (part ++ after)) n (n + m) ≡ ok part
slice_middle before part after n m hn hm =
    let total : n + m ≤ length (before ++ (part ++ after)) =
      omega (arith, length-append before (part ++ after), length-append part after) in
    let size : n + m - n ≡ m = omega arith in
    slice-eq-ok (before ++ (part ++ after)) n (n + m) (omega arith) total
    ∙ ap ok (rw (size, drop-append n before (part ++ after) hn, take-append m part after hm) refl)

-- Every field is a u16.
pub record IsNarrow (o : Secp256r1SignatureOffsets) : Type 0 where
  pub signature_offset : o.signature_offset < 65536
  pub signature_instruction_index : o.signature_instruction_index < 65536
  pub public_key_offset : o.public_key_offset < 65536
  pub public_key_instruction_index : o.public_key_instruction_index < 65536
  pub message_data_offset : o.message_data_offset < 65536
  pub message_data_size : o.message_data_size < 65536
  pub message_instruction_index : o.message_instruction_index < 65536

pub length-offsets_bytes : (o : Secp256r1SignatureOffsets) → length (offsets_bytes o) ≡ 14
unfolding offsets_bytes le_bytes
length-offsets_bytes o = refl

-- The program's struct and the SDK's have one layout.
offsets_of_bytes-offsets_bytes :
    (o : Secp256r1SignatureOffsets)
    → IsNarrow o
    → offsets_of_bytes (offsets_bytes o) ≡ record {
      signature_offset = o.signature_offset;
      signature_instruction_index = o.signature_instruction_index;
      public_key_offset = o.public_key_offset;
      public_key_instruction_index = o.public_key_instruction_index;
      message_data_offset = o.message_data_offset;
      message_data_size = o.message_data_size;
      message_instruction_index = o.message_instruction_index;
    }
unfolding offsets_of_bytes offsets_bytes le_bytes
offsets_of_bytes-offsets_bytes o h =
    rw
      (
        from_le-le_bytes 2 o.signature_offset h.signature_offset,
        from_le-le_bytes 2 o.signature_instruction_index h.signature_instruction_index,
        from_le-le_bytes 2 o.public_key_offset h.public_key_offset,
        from_le-le_bytes 2 o.public_key_instruction_index h.public_key_instruction_index,
        from_le-le_bytes 2 o.message_data_offset h.message_data_offset,
        from_le-le_bytes 2 o.message_data_size h.message_data_size,
        from_le-le_bytes 2 o.message_instruction_index h.message_instruction_index,
      )
      refl

-- The instruction's data, part by part.
abbrev pub written : Bytes → Bytes → Bytes → Bytes → Bytes
written offsets key signature message = (1 ∷ 0 ∷ []) ++ (offsets ++ (key ++ (signature ++ message)))

module _ (offsets key signature message : Bytes) (k : ℕ) (ho : length offsets ≡ 14)
    (hk : length key ≡ k) (hs : length signature ≡ 64) where
  pub slice_key : slice (written offsets key signature message) 16 (16 + k) ≡ ok key
  slice_key = slice_middle (1 ∷ 0 ∷ offsets) key (signature ++ message) 16 k (omega (arith, ho)) hk

  pub slice_signature :
      slice (written offsets key signature message) (16 + k) (16 + k + 64) ≡ ok signature
  slice_signature =
      subst (λ t. slice (1 ∷ 0 ∷ t) (16 + k) (16 + k + 64) ≡ ok signature)
        (append_assoc offsets key (signature ++ message))
        (slice_middle (1 ∷ 0 ∷ (offsets ++ key)) signature message (16 + k) 64
          (omega (arith, length-append offsets key, ho, hk)) hs)

  pub slice_message :
      slice (written offsets key signature message) (80 + k) (80 + k + length message) ≡ ok message
  slice_message =
      let before = offsets ++ (key ++ signature) in
      let regroup : before ++ (message ++ []) ≡ offsets ++ (key ++ (signature ++ message)) =
        rw
          (
            append-nil message,
            append_assoc offsets (key ++ signature) message,
            append_assoc key signature message,
          )
          refl in
      subst (λ t. slice (1 ∷ 0 ∷ t) (80 + k) (80 + k + length message) ≡ ok message) regroup
        (slice_middle (1 ∷ 0 ∷ before) message [] (80 + k) (length message)
          (omega (
            arith,
            length-append offsets (key ++ signature),
            length-append key signature,
            ho,
            hk,
            hs,
          ))
          refl)

-- What the program sees of the instruction, wherever the transaction stands in memory.
abbrev pub seen : Instruction → ℕ → (ℕ → ℕ) → IntrospectedInstruction
seen ix address beyond = record {
  program_id = ix.program_id;
  bytes = ix.input;
  address = address;
  beyond = beyond;
}

module _ (rt : Runtime) (program : Secp256r1Program) (address : ℕ) where
  -- The precompile that the program knows is the SDK's, and the data is aligned.
  pub record IsDeployed : Type 0 where
    pub crate : IsSecp256r1Program program
    pub same_id : rt.secp256r1_precompile_id ≡ program.id
    pub other_id : rt.secp256r1_precompile_id ≢ rt.legacy_secp256k1_precompile_id
    pub aligned : rt.is_aligned (address + 2) 2 ≡ true

module _ (rt : Runtime) (program : Secp256r1Program) (instructions : Instructions)
    (address : ℕ) where
  abbrev pub parser : Bytes → PrecompileParser
  parser bytes = record {
    precompile_ix_data = bytes;
    address = address;
    instructions_sysvar = instructions;
  }

  module _ (h : IsDeployed rt program address) (offsets : Secp256r1SignatureOffsets)
      (narrow : IsNarrow offsets) (rest : Bytes) where
    abbrev whole : PrecompileParser
    whole = parser ((1 ∷ 0 ∷ []) ++ (offsets_bytes offsets ++ rest))

    load_offsets-written :
        load_offsets rt (secp256r1_precompile rt) whole 2
        ≡ ok (record {
          signature_offset = offsets.signature_offset;
          signature_instruction_index = offsets.signature_instruction_index;
          public_key_offset = offsets.public_key_offset;
          public_key_instruction_index = offsets.public_key_instruction_index;
          message_data_offset = offsets.message_data_offset;
          message_data_size = offsets.message_data_size;
          message_instruction_index = offsets.message_instruction_index;
        })
    unfolding load_offsets secp256r1_precompile
    load_offsets-written =
        let cut =
          slice_middle (1 ∷ 0 ∷ []) (offsets_bytes offsets) rest 2 14 refl
            (length-offsets_bytes offsets) in
        rw (cut, h.aligned) (ap ok (offsets_of_bytes-offsets_bytes offsets narrow))

    -- The parser's answer, part by part.
    pub parser_reads :
        (signature key message : Bytes)
        → load_part whole offsets.signature_instruction_index offsets.signature_offset 64
          ≡ ok signature
        → load_part whole offsets.public_key_instruction_index offsets.public_key_offset 33 ≡ ok key
        → load_part whole offsets.message_instruction_index offsets.message_data_offset
            offsets.message_data_size
          ≡ ok message
        → get_signature_payload rt (secp256r1_precompile rt) whole 0
          ≡ ok (record { signature = signature; public_key = key; message = message })
    unfolding get_signature_payload num_signatures load_payload secp256r1_precompile
    parser_reads signature key message es ek em =
        let other = bytes_eq_ne _ _ h.other_id in
        let same = bytes_eq_refl rt.secp256r1_precompile_id in
        rw (other, same, load_offsets-written, es, ek, em) refl
