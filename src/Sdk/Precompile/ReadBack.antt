-- ===== src/Sdk/Precompile/ReadBack.antt =====
-- The program reads back what the SDK puts into the precompile instruction
-- (sdks/rust-sdk/src/instructions/precompile.rs against src/utils/precompiles.rs).
use external_signature_progr.Allocator.{saturating_add}
use external_signature_progr.Base.{
  ℕ, ◌%◌, ◌^◌, ◌<◌, ◌≤◌, ltb, true, false, ◌≡◌, refl, sym, arith, Bytes, [], ◌∷◌, ◌++◌, length,
  some, none, bytes_eq, bytes_eq_iff, raw_bytes, ◌==◌,
}
use external_signature_progr.Errors.{Result, ok, ◌>>=◌}
use external_signature_progr.Runtime.{Runtime, Instruction, IntrospectedInstruction, Instructions}
use external_signature_progr.Sdk.Precompile.{
  Openssl, Secp256r1Program, Secp256r1SignatureOffsets, layout, public_key_place,
  parse_der_signature_to_compact, create_secp256r1_instruction,
}
use external_signature_progr.Sdk.Precompile.LowS.{offsets_bytes, IsSecp256r1Program}
use external_signature_progr.Sdk.Precompile.Parts.{
  IsNarrow, IsDeployed, seen, parser_reads, slice_key, slice_signature, slice_message,
  length-offsets_bytes,
}
use external_signature_progr.Sdk.Types.{done}
use external_signature_progr.Utils.Precompiles.{
  SignaturePayload, secp256r1_precompile, new, get_signature_payload, load_part, get_data_slice,
  get_data_slice_raw,
}

-- The offsets when the key is in the instruction itself, and when it is in another one.
abbrev own_layout : Bytes → Secp256r1SignatureOffsets
own_layout message = record {
  signature_offset = 49;
  signature_instruction_index = 65535;
  public_key_offset = 16;
  public_key_instruction_index = 65535;
  message_data_offset = 113;
  message_data_size = length message;
  message_instruction_index = 65535;
}

abbrev other_layout : Bytes → ℕ → ℕ → Secp256r1SignatureOffsets
other_layout message ix offset = record {
  signature_offset = 16;
  signature_instruction_index = 65535;
  public_key_offset = offset;
  public_key_instruction_index = ix;
  message_data_offset = 80;
  message_data_size = length message;
  message_instruction_index = 65535;
}

module _ (program : Secp256r1Program) (h : IsSecp256r1Program program) (message : Bytes)
    (small : length message ≤ 65535) where
  layout_own : layout program message none ≡ own_layout message
  unfolding layout public_key_place saturating_add
  layout_own =
      let size : length message % 2 ^ 16 ≡ length message = omega arith in
      rw (h.data_start_value, size) refl

  layout_other :
      (ix offset : ℕ)
      → ix < 256
      → offset < 65536
      → layout program message (some (ix, offset)) ≡ other_layout message ix offset
  unfolding layout public_key_place saturating_add
  layout_other ix offset hi hf =
      let size : length message % 2 ^ 16 ≡ length message = omega arith in
      let place : offset % 2 ^ 16 ≡ offset = omega arith in
      let elsewhere : (ix == 65535) ≡ false = ground arith in
      rw (h.data_start_value, elsewhere, size, place) refl

module _ (rt : Runtime) (o : Openssl) (program : Secp256r1Program) (instructions : Instructions)
    (address : ℕ) (beyond : ℕ → ℕ) (h : IsDeployed rt program address) where
  -- What the program's parser makes of the instruction.
  abbrev pub parsed : Instruction → Result SignaturePayload
  parsed ix = new (secp256r1_precompile rt) (seen ix address beyond) instructions >>= λ p.
      get_signature_payload rt (secp256r1_precompile rt) p 0

  -- The program's parser finds in the SDK's precompile instruction the compact signature, the
  -- public key and the message that it was built from, for a key of 33 bytes and a message of at
  -- most 65535, when the precompile is the one that the program knows and its data are aligned.
  pub create-get_signature_payload :
      (der message public_key signature : Bytes)
      → length message ≤ 65535
      → length public_key ≡ 33
      → parse_der_signature_to_compact o program der ≡ done signature
      → length signature ≡ 64
      → (ix : Instruction) × (create_secp256r1_instruction o program der message public_key none
          ≡ done ix)
        × (parsed ix
            ≡ ok (record { signature = signature; public_key = public_key; message = message }))
  unfolding create_secp256r1_instruction new load_part get_data_slice secp256r1_precompile
  create-get_signature_payload der message public_key signature small hk es hs =
      let offsets = own_layout message in
      let bytes = offsets_bytes offsets in
      let size = length-offsets_bytes offsets in
      let test : ltb 65535 (length message) ≡ false = ground arith in
      let placed = layout_own program h.crate message small in
      let ix : Instruction = record {
        program_id = program.id;
        input = (1 ∷ 0 ∷ []) ++ (bytes ++ (public_key ++ (signature ++ message)));
        accounts = [];
      } in
      let built : create_secp256r1_instruction o program der message public_key none ≡ done ix =
        rw (test, es, placed, h.crate.offsets_layout) refl in
      let narrow : IsNarrow offsets = record {
        signature_offset = omega arith;
        signature_instruction_index = omega arith;
        public_key_offset = omega arith;
        public_key_instruction_index = omega arith;
        message_data_offset = omega arith;
        message_data_size = omega (arith, small);
        message_instruction_index = omega arith;
      } in
      let known : bytes_eq program.id rt.secp256r1_precompile_id ≡ true =
        (bytes_eq_iff program.id rt.secp256r1_precompile_id).1 (sym h.same_id) in
      (
        ix,
        built,
        rw known (
            parser_reads rt program instructions address h offsets narrow
              (public_key ++ (signature ++ message)) signature public_key message
              (slice_signature bytes public_key signature message 33 size hk hs)
              (slice_key bytes public_key signature message 33 size hk hs)
              (slice_message bytes public_key signature message 33 size hk hs)),
      )

  -- When the SDK is told where another instruction holds the public key, the program's parser
  -- finds the compact signature and the message in the precompile instruction, and takes for the
  -- key the 33 bytes of the other instruction at that place, for a message of at most 65535 bytes,
  -- when the precompile is the one that the program knows and its data are aligned.
  pub create-get_signature_payload_elsewhere :
      (der message public_key signature : Bytes) (index offset : ℕ)
      (other : IntrospectedInstruction)
      → length message ≤ 65535
      → index < 256
      → offset < 65536
      → instructions index ≡ ok other
      → parse_der_signature_to_compact o program der ≡ done signature
      → length signature ≡ 64
      → (ix : Instruction) × (create_secp256r1_instruction o program der message public_key
            (some (index, offset))
          ≡ done ix)
        × (parsed ix
            ≡ ok (record {
              signature = signature;
              public_key = raw_bytes other.bytes other.beyond offset 33;
              message = message;
            }))
  unfolding create_secp256r1_instruction new load_part get_data_slice get_data_slice_raw
      secp256r1_precompile
  create-get_signature_payload_elsewhere der message public_key signature index offset other small
        hi hf loads es hs =
      let offsets = other_layout message index offset in
      let bytes = offsets_bytes offsets in
      let size = length-offsets_bytes offsets in
      let test : ltb 65535 (length message) ≡ false = ground arith in
      let away : (index == 65535) ≡ false = ground arith in
      let placed = layout_other program h.crate message small index offset hi hf in
      let ix : Instruction = record {
        program_id = program.id;
        input = (1 ∷ 0 ∷ []) ++ (bytes ++ (signature ++ message));
        accounts = [];
      } in
      let built : create_secp256r1_instruction o program der message public_key
            (some (index, offset))
          ≡ done ix =
        rw (test, es, placed, away, h.crate.offsets_layout) refl in
      let narrow : IsNarrow offsets = record {
        signature_offset = omega arith;
        signature_instruction_index = omega arith;
        public_key_offset = hf;
        public_key_instruction_index = omega (arith, hi);
        message_data_offset = omega arith;
        message_data_size = omega (arith, small);
        message_instruction_index = omega arith;
      } in
      let known : bytes_eq program.id rt.secp256r1_precompile_id ≡ true =
        (bytes_eq_iff program.id rt.secp256r1_precompile_id).1 (sym h.same_id) in
      (
        ix,
        built,
        rw known (
            parser_reads rt program instructions address h offsets narrow (signature ++ message)
              signature (raw_bytes other.bytes other.beyond offset 33) message
              (slice_signature bytes [] signature message 0 size refl hs) (rw (away, loads) refl)
              (slice_message bytes [] signature message 0 size refl hs)),
      )
