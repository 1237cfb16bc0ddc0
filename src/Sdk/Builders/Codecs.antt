-- ===== src/Sdk/Builders/Codecs.antt =====
-- What the builders serialize can be read by the program: the parts that the four instructions share
-- (sdks/rust-sdk/src/instructions).
use external_signature_progr.Base.{
  ℕ, ◌^◌, ◌<◌, lt→ltb, ◌≡◌, refl, sym, arith, [], ◌∷◌, ◌++◌, append-nil, length, length-append,
  Option, none, some, Bytes, IsByte, All, All-append, ap, le_bytes,
}
use external_signature_progr.Base.Numbers.{length-le_bytes, le_bytes-IsByte}
use external_signature_progr.Borsh.{Codec, Borsh, fields, write_all}
use external_signature_progr.Borsh.Encoding.{
  Encodes, RoundTrips-Encodes, int-Encodes, array-Encodes, none-Encodes, some-Encodes,
  fields-Encodes, derive-Encodes,
}
use external_signature_progr.Borsh.Laws.{RoundTrips, IsBorsh, int-RoundTrips}
use external_signature_progr.Sdk.Builders.{to_vec, verification_bytes}
use external_signature_progr.Sdk.Types.{done, WebAuthnData}
use external_signature_progr.State.P256Webauthn.{P256RawVerificationData, raw_verification_codec}
use external_signature_progr.Utils.Signatures.ClientDataJson.{
  ClientDataJsonReconstructionParams, params_codec,
}
use external_signature_progr.Utils.SmallVec.{try_from, small_vec, serialize}
use external_signature_progr.Utils.SmallVec.RoundTrip.{
  small_vec-RoundTrips, serialize_slice-write_all,
}

-- The values that the source's types have: 33 bytes, a byte of flags and a 16-bit port.
pub record IsParams (p : ClientDataJsonReconstructionParams) : Type 0 where
  pub flags : p.type_and_flags < 256
  pub port : (n : ℕ) → p.port ≡ some n → n < 65536

pub record IsWebAuthnData (d : WebAuthnData) : Type 0 where
  pub key_length : length d.public_key ≡ 33
  pub key_bytes : All IsByte d.public_key
  pub params : IsParams d.client_data_json_reconstruction_params

le_bytes_one : (x : ℕ) → x < 256 → le_bytes 1 x ≡ x ∷ []
unfolding le_bytes
le_bytes_one x lt = ap (λ y. y ∷ []) (omega arith)

module _ (b : Borsh) (h : IsBorsh b) where
  -- What is written into a new vector is read from it whole.
  pub to_vec-try_from_slice :
      {A : Type 0} (c : Codec A) (a : A)
      → RoundTrips c a
      → (bs : Bytes) × (to_vec c a ≡ done bs) × (b.try_from_slice A c bs ≡ some a)
  to_vec-try_from_slice {A = A} c a (w, ww, rr) =
      let whole : c.read w ≡ some (a, []) = rw (sym (append-nil w)) (rr []) in
      (w, rw ww, (h.exact A c w a).1 whole)

  pub bytes-RoundTrips : (xs : Bytes) → All IsByte xs → All (RoundTrips (b.int 1)) xs
  bytes-RoundTrips [] small = tt
  bytes-RoundTrips (x ∷ xs) (lt, small) =
      (int-RoundTrips b h 1 x (omega arith), bytes-RoundTrips xs small)

  pub small_bytes-RoundTrips :
      (width : ℕ) (xs : Bytes)
      → length xs < 256 ^ width
      → All IsByte xs
      → RoundTrips (small_vec (b.int 1) b width) xs
  small_bytes-RoundTrips width xs lt small =
      small_vec-RoundTrips (b.int 1) (h.int-IsCodec 1) b h width xs lt (bytes-RoundTrips xs small)

  write_all_bytes : (xs : Bytes) → All IsByte xs → write_all (b.int 1) xs ≡ some xs
  unfolding write_all
  write_all_bytes [] small = refl
  write_all_bytes (x ∷ xs) (lt, small) =
      let one : le_bytes 1 x ≡ x ∷ [] = le_bytes_one x lt in
      rw (h.int_writes 1 x lt, one, write_all_bytes xs small) refl

  -- A short vector of bytes is its length and the bytes.
  pub small_bytes-Encodes :
      (width : ℕ) (xs : Bytes)
      → length xs < 256 ^ width
      → All IsByte xs
      → Encodes (small_vec (b.int 1) b width) xs (le_bytes width (length xs) ++ xs)
  unfolding small_vec serialize
  small_bytes-Encodes width xs lt small =
      let slice = serialize_slice-write_all (b.int 1) (h.int-IsCodec 1) xs in
      RoundTrips-Encodes (small_vec (b.int 1) b width) xs (le_bytes width (length xs) ++ xs)
        (small_bytes-RoundTrips width xs lt small)
        (rw (lt→ltb _ _ lt, slice, write_all_bytes xs small) refl)
        (All-append IsByte (le_bytes width (length xs)) xs (le_bytes-IsByte width (length xs))
          small)

  port-Encodes :
      (port : Option ℕ)
      → ((n : ℕ) → port ≡ some n → n < 65536)
      → (w : Bytes) × (length w < 4) × Encodes (b.option ℕ (b.int 2)) port w
  port-Encodes none small = (0 ∷ [], omega arith, none-Encodes b h ℕ (b.int 2))
  port-Encodes (some n) small = (
    1 ∷ le_bytes 2 n,
    omega (arith, length-le_bytes 2 n),
    some-Encodes b h ℕ (b.int 2) n (le_bytes 2 n) (int-Encodes b h 2 n (small n refl)),
  )

  pub params-Encodes :
      (p : ClientDataJsonReconstructionParams)
      → IsParams p
      → (w : Bytes) × (length w < 5) × Encodes (params_codec b) p w
  unfolding params_codec
  params-Encodes p hp =
      let (w, short, e) = port-Encodes p.port hp.port in
      let flag = le_bytes 1 p.type_and_flags in
      (
        flag ++ w,
        omega (arith, length-append flag w, length-le_bytes 1 p.type_and_flags),
        derive-Encodes (fields (b.int 1) (b.option ℕ (b.int 2))) _ _ (p.type_and_flags, p.port)
            (flag ++ w) refl
            (fields-Encodes (b.int 1) (b.option ℕ (b.int 2)) p.type_and_flags p.port flag w
              (int-Encodes b h 1 p.type_and_flags hp.flags) e),
      )

  raw_verification-Encodes :
      (key : Bytes) (p : ClientDataJsonReconstructionParams)
      → length key ≡ 33
      → All IsByte key
      → IsParams p
      → (w : Bytes) × (length w < 256)
        × Encodes (raw_verification_codec b) (record { public_key = key; params = p }) w
  unfolding raw_verification_codec
  raw_verification-Encodes key p len small hp =
      let (w, short, e) = params-Encodes p hp in
      (
        key ++ w,
        omega (arith, length-append key w),
        derive-Encodes (fields (b.array 33) (params_codec b)) _ _ (key, p) (key ++ w) refl
            (fields-Encodes (b.array 33) (params_codec b) key p key w
              (array-Encodes b h 33 key len small) e),
      )

  -- The verification data of a builder is a short vector of bytes, from which the program reads
  -- the key and the parameters back.
  pub verification_bytes-try_from_slice :
      (d : WebAuthnData)
      → IsWebAuthnData d
      → (bs : Bytes) × (verification_bytes b d ≡ done bs)
        × RoundTrips (small_vec (b.int 1) b 1) bs
        × (b.try_from_slice P256RawVerificationData (raw_verification_codec b) bs
            ≡ some (record {
              public_key = d.public_key;
              params = d.client_data_json_reconstruction_params;
            }))
  unfolding verification_bytes try_from
  verification_bytes-try_from_slice d hd =
      let p = d.client_data_json_reconstruction_params in
      let raw : P256RawVerificationData = record { public_key = d.public_key; params = p } in
      let (bs, short, e) =
        raw_verification-Encodes d.public_key p hd.key_length hd.key_bytes hd.params in
      let whole : (raw_verification_codec b).read bs ≡ some (raw, []) =
        rw (sym (append-nil bs)) (e.reads []) in
      let test = lt→ltb (length bs) 256 short in
      (
        bs,
        rw (e.writes, test),
        small_bytes-RoundTrips 1 bs short e.bytes,
        (h.exact P256RawVerificationData (raw_verification_codec b) bs raw).1 whole,
      )
