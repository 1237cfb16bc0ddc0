-- ===== src/Ledger/Counters.antt =====
-- The counters of assertions are 32-bit numbers (src/utils/precompiles.rs,
-- src/utils/signatures/p256_webauthn/authenticator_data.rs).
use external_signature_progr.Base.{
  ℕ, ◌+◌, ◌*◌, ◌-◌, ◌^◌, ◌<◌, ◌≡◌, ◌==◌, leb, not, arith, true, false, Bytes, All, All-take,
  All-drop, IsByte, length, length-take, length-drop, take, drop, from_be_word, raw_bytes-IsByte,
  if◌then◌else◌,
}
use external_signature_progr.Errors.{
  ok, ◌>>=◌, require, slice, map_err, into, invalid_signature_index, invalid_signature_offset,
}
use external_signature_progr.Errors.Laws.{>>=-eq-ok, map_err-eq-ok, ok-injective}
use external_signature_progr.Runtime.{Runtime, Instructions, IntrospectedInstruction}
use external_signature_progr.Utils.Precompiles.{
  PrecompileInfo, PrecompileParser, SignaturePayload, load_part, get_data_slice, get_data_slice_raw,
  load_payload, load_offsets, num_signatures, get_signature_payload,
}
use external_signature_progr.Utils.Signatures.AuthenticatorData.{get_counter}
use mathlib.Core.Path.{subst}

pub All-slice :
    (P : ℕ → Type 0) (bs : Bytes) (from to : ℕ) (part : Bytes)
    → slice bs from to ≡ ok part
    → All P bs
    → All P part
unfolding slice
All-slice P bs from to part e h =
    let same : take (to - from) (drop from bs) ≡ part = ground arith in
    subst (All P) same (All-take P (to - from) (drop from bs) (All-drop P from bs h))

pub length-slice :
    (bs : Bytes) (from to : ℕ) (part : Bytes) → slice bs from to ≡ ok part → length part ≡ to - from
unfolding slice
length-slice bs from to part e =
    ground (arith, length-take (to - from) (drop from bs), length-drop from bs)

pub get_counter-lt :
    (auth_data : Bytes) (n : ℕ) → get_counter auth_data ≡ ok n → All IsByte auth_data → n < 2 ^ 32
unfolding get_counter
get_counter-lt auth_data n e h =
    let (word, e1, k1) = >>=-eq-ok (slice auth_data 33 37) _ e in
    subst (λ m. m < 2 ^ 32) (ok-injective _ _ k1)
      (from_be_word word (length-slice auth_data 33 37 word e1)
        (All-slice IsByte auth_data 33 37 word e1 h))

-- What the sysvar gives is bytes.
abbrev pub AreBytes : Instructions → Type 0
AreBytes instructions =
    (i : ℕ) (ix : IntrospectedInstruction)
    → instructions i ≡ ok ix
    → All IsByte ix.bytes × ((n : ℕ) → IsByte (ix.beyond n))

module _ (self : PrecompileParser) (own : All IsByte self.precompile_ix_data)
    (others : AreBytes self.instructions_sysvar) where
  load_part-IsByte :
      (i offset size : ℕ) (part : Bytes) → load_part self i offset size ≡ ok part → All IsByte part
  unfolding load_part get_data_slice get_data_slice_raw
  load_part-IsByte i offset size part e =
      elim (i == 65535)
          as (λ t.
            (if t then slice self.precompile_ix_data offset (offset + size) else (do
              instruction ← map_err (into invalid_signature_offset) (self.instructions_sysvar i)
              ok (get_data_slice_raw instruction offset size)))
              ≡ ok part
            → All IsByte part) [
              | true ↦
                  λ k. All-slice IsByte self.precompile_ix_data offset (offset + size) part k own
              | false ↦ λ k.
                  let (ix, e1, k1) =
                    >>=-eq-ok (map_err (into invalid_signature_offset) (self.instructions_sysvar i))
                      _ k in
                  let (bytes, beyond) =
                    others i ix (map_err-eq-ok _ (self.instructions_sysvar i) e1) in
                  subst (All IsByte) (ok-injective _ _ k1)
                    (raw_bytes-IsByte ix.bytes ix.beyond offset size bytes beyond)
            ]
        e

  pub message-IsByte :
      (rt : Runtime) (t : PrecompileInfo) (i : ℕ) (p : SignaturePayload)
      → get_signature_payload rt t self i ≡ ok p
      → All IsByte p.message
  unfolding get_signature_payload load_payload
  message-IsByte rt t i p e =
      let (count, e1, k1) = >>=-eq-ok (num_signatures self) _ e in
      let (_, e2, k2) = >>=-eq-ok (require (not (leb count i)) invalid_signature_index) _ k1 in
      let start = t.data_start_offset + t.signature_offsets_size * i in
      let k3 : load_payload rt t self start ≡ ok p = ground arith in
      let (o, e4, k4) = >>=-eq-ok (load_offsets rt t self start) _ k3 in
      let (s, e5, k5) =
        >>=-eq-ok (load_part self o.signature_instruction_index o.signature_offset t.signature_size)
          _ k4 in
      let (q, e6, k6) =
        >>=-eq-ok
          (load_part self o.public_key_instruction_index o.public_key_offset t.public_key_size) _
          k5 in
      let (m, e7, k7) =
        >>=-eq-ok
          (load_part self o.message_instruction_index o.message_data_offset o.message_data_size) _
          k6 in
      subst (λ (r : SignaturePayload). All IsByte r.message) (ok-injective _ _ k7)
        (load_part-IsByte o.message_instruction_index o.message_data_offset o.message_data_size m
          e7)
