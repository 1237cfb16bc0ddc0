-- ===== src/Sdk/Builders/Session.antt =====
-- The program decodes what the SDK builds (sdks/rust-sdk/src/instructions/refresh_session.rs
-- against src/instructions/refresh_session_key.rs).
use external_signature_progr.Base.{
  ℕ, ◌<◌, ◌≡◌, refl, arith, List, [], ◌∷◌, length, some, Bytes, Pubkey, true, false, ◌^◌,
}
use external_signature_progr.Borsh.{Borsh, fields}
use external_signature_progr.Borsh.Laws.{
  RoundTrips, IsBorsh, int-RoundTrips, array-RoundTrips, fields-RoundTrips, derive-RoundTrips,
}
use external_signature_progr.Entrypoint.{process_instruction}
use external_signature_progr.Instructions.Refresh
use external_signature_progr.Instructions.Refresh.{
  RefreshSessionKeyArgs, parse_refresh_verification_data, process_refresh_session_key,
}
use external_signature_progr.Errors.{into, map_err, invalid_extra_verification_data_args}
use external_signature_progr.Runtime.{Runtime, AccountInfo, Instruction}
use external_signature_progr.Sdk.Builders.{refresh_session_key, writable_meta, readonly_meta}
use external_signature_progr.Sdk.Builders.Codecs.{
  IsWebAuthnData, to_vec-try_from_slice, verification_bytes-try_from_slice,
}
use external_signature_progr.Sdk.Types.{done, Crates, WebAuthnData}
use external_signature_progr.State.{
  SessionKey, session_key_codec, signature_scheme_try_from, p256_webauthn,
}
use external_signature_progr.State.P256Webauthn.{parse_verification_data}
use external_signature_progr.Utils.SlotHashes.{slot_hashes_id}
use external_signature_progr.Utils.SmallVec.{small_vec}
use external_signature_progr.World.{World}
use external_signature_progr.Sdk.Builders.Accounts.{passed, signed_accounts}

-- The values that the source's types have: 32 bytes and a u64.
pub record IsSessionKey (k : SessionKey) : Type 0 where
  pub key_length : length k.key ≡ 32
  pub expiration : k.expiration < 2 ^ 64

module _ (b : Borsh) (h : IsBorsh b) where
  pub session_key-RoundTrips :
      (k : SessionKey) → IsSessionKey k → RoundTrips (session_key_codec b) k
  unfolding session_key_codec
  session_key-RoundTrips k hk =
      derive-RoundTrips _ _ (fields (b.array 32) (b.int 8)) (k.key, k.expiration) refl
        (fields-RoundTrips (b.array 32) (b.int 8) k.key k.expiration
          (array-RoundTrips b h 32 k.key hk.key_length)
          (int-RoundTrips b h 8 k.expiration hk.expiration))

module _ (rt : Runtime) (b : Borsh) where
  -- What the program makes of an instruction that begins a refresh.
  pub record ReadsAsRefresh (ix : Instruction) (webauthn : WebAuthnData) (slot : ℕ)
      (session_key : SessionKey) (accounts : List AccountInfo) : Type 0 where
    pub input : Bytes
    pub args : RefreshSessionKeyArgs
    pub decoded : b.try_from_slice RefreshSessionKeyArgs (Refresh.args_codec b) input ≡ some args
    pub same_signature_scheme : signature_scheme_try_from args.signature_scheme ≡ some p256_webauthn
    pub same_slot : args.slothash ≡ slot
    pub same_session_key : args.session_key ≡ session_key
    pub same_key :
        parse_refresh_verification_data rt b args.verification_data
        ≡ map_err (into invalid_extra_verification_data_args) (
            parse_verification_data (record {
              public_key = webauthn.public_key;
              params = webauthn.client_data_json_reconstruction_params;
            }))
    -- The accounts that the runtime passes for it.
    pub passes : passed ix.accounts ≡ accounts
    pub dispatched :
        (infos : List AccountInfo) (w : World)
        → process_instruction rt b infos ix.input w ≡ process_refresh_session_key rt b infos input w

module _ (rt : Runtime) (b : Borsh) (crates : Crates) (h : IsBorsh b) where
  refresh_args-RoundTrips :
      (slot : ℕ) (verification : Bytes) (k : SessionKey)
      → slot < 65536
      → RoundTrips (small_vec (b.int 1) b 1) verification
      → IsSessionKey k
      → RoundTrips (Refresh.args_codec b) (record {
        slothash = slot;
        signature_scheme = 0;
        verification_data = verification;
        session_key = k;
      })
  unfolding Refresh.args_codec
  refresh_args-RoundTrips slot verification k lt hv hk =
      let bytes = small_vec (b.int 1) b 1 in
      derive-RoundTrips _ _
        (fields (b.int 2) (fields (b.int 1) (fields bytes (session_key_codec b))))
        (slot, (0, (verification, k))) refl
        (fields-RoundTrips (b.int 2) _ slot _ (int-RoundTrips b h 2 slot lt) (
          fields-RoundTrips (b.int 1) _ 0 _ (int-RoundTrips b h 1 0 (omega arith)) (
            fields-RoundTrips bytes (session_key_codec b) verification k hv
              (session_key-RoundTrips b h k hk))))

  -- The SDK builds a refresh that the program reads as it was meant: for a key of 33 bytes, a
  -- truncated slot of 16 bits and a session key of 32 bytes with a 64-bit expiration, the builder
  -- succeeds, and the program dispatches the instruction to the refresh handler, which decodes the
  -- slot, the scheme, the session key, and verification data with the key and the parameters
  -- given, and is passed the accounts that it expects. Borsh keeps its documented format.
  pub refresh_session_key-ReadsAsRefresh :
      (webauthn : WebAuthnData) (passkey_account payer : Pubkey) (slot : ℕ)
      (session_key : SessionKey)
      → IsWebAuthnData webauthn
      → slot < 65536
      → IsSessionKey session_key
      → (ix : Instruction) × (refresh_session_key rt b crates webauthn passkey_account payer slot
            session_key
          ≡ done ix)
        × ReadsAsRefresh rt b ix webauthn slot session_key
            (signed_accounts crates passkey_account payer [])
  unfolding refresh_session_key process_instruction parse_refresh_verification_data
  refresh_session_key-ReadsAsRefresh webauthn passkey_account payer slot session_key hd lt hk =
      let (extra, extra_built, wraps, raw) = verification_bytes-try_from_slice b h webauthn hd in
      let (input, written, decoded) =
        to_vec-try_from_slice b h (Refresh.args_codec b) _
          (refresh_args-RoundTrips slot extra session_key lt wraps hk) in
      let ix : Instruction = record {
        program_id = rt.id;
        input = 2 ∷ input;
        accounts =
            writable_meta passkey_account false
            ∷ readonly_meta crates.instructions_sysvar_id false
            ∷ readonly_meta slot_hashes_id false
            ∷ writable_meta payer true
            ∷ [];
      } in
      let built : refresh_session_key rt b crates webauthn passkey_account payer slot session_key
          ≡ done ix =
        rw (extra_built, written) refl in
      (
        ix,
        built,
        record {
          input = input;
          args = _;
          decoded = decoded;
          same_signature_scheme = refl;
          same_slot = refl;
          same_session_key = refl;
          same_key = rw raw refl;
          passes = refl;
          dispatched = λ infos w. refl;
        },
      )
