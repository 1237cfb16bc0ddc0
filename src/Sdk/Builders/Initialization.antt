-- ===== src/Sdk/Builders/Initialization.antt =====
-- The program decodes what the SDK builds (sdks/rust-sdk/src/instructions/initialize.rs
-- against src/instructions/initialize_external_account.rs).
use external_signature_progr.Base.{
  ℕ, ◌<◌, lt→ltb, ◌≡◌, refl, sym, arith, List, [], ◌∷◌, ◌++◌, append-nil, length, length-append,
  Option, some, none, Bytes, Pubkey, All, IsByte, true, false, le_bytes,
}
use external_signature_progr.Base.Numbers.{length-le_bytes}
use external_signature_progr.Borsh.{Borsh, fields}
use external_signature_progr.Borsh.Encoding.{Encodes, array-Encodes, fields-Encodes, derive-Encodes}
use external_signature_progr.Borsh.Laws.{
  RoundTrips, IsBorsh, int-RoundTrips, fields-RoundTrips, derive-RoundTrips,
}
use external_signature_progr.Entrypoint.{process_instruction}
use external_signature_progr.Instructions.Initialize
use external_signature_progr.Instructions.Initialize.{
  InitializeAccountArgs, parse_raw_initialization_data, process_initialize_external_account,
}
use external_signature_progr.Runtime.{Runtime, AccountInfo, Instruction}
use external_signature_progr.Sdk.Builders.{initialize_with, writable_meta, readonly_meta}
use external_signature_progr.Sdk.Builders.Codecs.{
  IsWebAuthnData, to_vec-try_from_slice, params-Encodes, small_bytes-RoundTrips,
  small_bytes-Encodes,
}
use external_signature_progr.Sdk.Pda.{derive_passkey_account}
use external_signature_progr.Sdk.Types.{done, Crates, WebAuthnData}
use external_signature_progr.State.{
  SessionKey, session_key_codec, signature_scheme_try_from, p256_webauthn,
}
use external_signature_progr.State.P256Webauthn.{
  parse_initialization_data, raw_initialization_codec, P256RawInitializationData,
}
use external_signature_progr.Utils.SlotHashes.{slot_hashes_id}
use external_signature_progr.Utils.Signatures.ClientDataJson.{params_codec}
use external_signature_progr.Utils.SmallVec.{small_vec, try_from}
use external_signature_progr.World.{World}
use external_signature_progr.Sdk.Builders.Session.{IsSessionKey, session_key-RoundTrips}
use external_signature_progr.Sdk.Builders.Accounts.{passed, created_accounts}

-- A relying party id that the program takes, before it looks for quotes in it.
pub record IsRpId (rp_id : Bytes) : Type 0 where
  pub short : length rp_id < 33
  pub bytes : All IsByte rp_id

module _ (b : Borsh) (h : IsBorsh b) where
  raw_initialization-Encodes :
      (rp_id : Bytes) (webauthn : WebAuthnData)
      → IsRpId rp_id
      → IsWebAuthnData webauthn
      → (w : Bytes) × (length w < 256)
        × Encodes
            (raw_initialization_codec b)
            (record {
              rp_id = rp_id;
              public_key = webauthn.public_key;
              params = webauthn.client_data_json_reconstruction_params;
            })
            w
  unfolding raw_initialization_codec
  raw_initialization-Encodes rp_id webauthn hr hd =
      let key = webauthn.public_key in
      let p = webauthn.client_data_json_reconstruction_params in
      let name = le_bytes 1 (length rp_id) ++ rp_id in
      let vec = small_vec (b.int 1) b 1 in
      let inner = fields (b.array 33) (params_codec b) in
      let (w, short, e) = params-Encodes b h p hd.params in
      (
        name ++ (key ++ w),
        omega (
          arith,
          hr.short,
          hd.key_length,
          length-append name (key ++ w),
          length-append (le_bytes 1 (length rp_id)) rp_id,
          length-le_bytes 1 (length rp_id),
          length-append key w,
        ),
        derive-Encodes (fields vec inner) _ _ (rp_id, (key, p)) (name ++ (key ++ w)) refl
            (fields-Encodes vec inner rp_id (key, p) name (key ++ w)
              (small_bytes-Encodes b h 1 rp_id (omega (arith, hr.short)) hr.bytes)
              (fields-Encodes (b.array 33) (params_codec b) key p key w
                (array-Encodes b h 33 key hd.key_length hd.key_bytes) e)),
      )

  session-RoundTrips :
      (k : Option SessionKey)
      → ((key : SessionKey) → k ≡ some key → IsSessionKey key)
      → RoundTrips (b.option SessionKey (session_key_codec b)) k
  session-RoundTrips none hk = h.option_none SessionKey (session_key_codec b)
  session-RoundTrips (some key) hk =
      h.option_some SessionKey (session_key_codec b) key
        (session_key-RoundTrips b h key (hk key refl))

  initialize_args-RoundTrips :
      (slot : ℕ) (raw : Bytes) (k : Option SessionKey)
      → slot < 65536
      → RoundTrips (small_vec (b.int 1) b 1) raw
      → ((key : SessionKey) → k ≡ some key → IsSessionKey key)
      → RoundTrips (Initialize.args_codec b) (record {
        slothash = slot;
        signature_scheme = 0;
        initialization_data = raw;
        session_key = k;
      })
  unfolding Initialize.args_codec
  initialize_args-RoundTrips slot raw k lt hr hk =
      let bytes = small_vec (b.int 1) b 1 in
      let option = b.option SessionKey (session_key_codec b) in
      derive-RoundTrips _ _ (fields (b.int 2) (fields (b.int 1) (fields bytes option)))
        (slot, (0, (raw, k))) refl
        (fields-RoundTrips (b.int 2) _ slot _ (int-RoundTrips b h 2 slot lt) (
          fields-RoundTrips (b.int 1) _ 0 _ (int-RoundTrips b h 1 0 (omega arith))
            (fields-RoundTrips bytes option raw k hr (session-RoundTrips k hk))))

module _ (rt : Runtime) (b : Borsh) where
  -- What the program makes of an instruction that begins an initialization.
  pub record ReadsAsInitialization (ix : Instruction) (rp_id : Bytes) (webauthn : WebAuthnData)
      (slot : ℕ) (session_key : Option SessionKey) (accounts : List AccountInfo) : Type 0 where
    pub input : Bytes
    pub args : InitializeAccountArgs
    pub decoded : b.try_from_slice InitializeAccountArgs (Initialize.args_codec b) input ≡ some args
    pub same_signature_scheme : signature_scheme_try_from args.signature_scheme ≡ some p256_webauthn
    pub same_slot : args.slothash ≡ slot
    pub same_session_key : args.session_key ≡ session_key
    pub same_data :
        parse_raw_initialization_data rt b args.initialization_data
        ≡ parse_initialization_data rt (record {
          rp_id = rp_id;
          public_key = webauthn.public_key;
          params = webauthn.client_data_json_reconstruction_params;
        })
    -- The accounts that the runtime passes for it.
    pub passes : passed ix.accounts ≡ accounts
    pub dispatched :
        (infos : List AccountInfo) (w : World)
        → process_instruction rt b infos ix.input w
          ≡ process_initialize_external_account rt b infos input w

module _ (rt : Runtime) (b : Borsh) (crates : Crates) (h : IsBorsh b) where
  -- The SDK builds an initialization that the program reads as it was meant: for a key of 33 bytes
  -- with a derived account, a relying party id of at most 32 bytes, a truncated slot of 16 bits
  -- and a session key, if any, of 32 bytes with a 64-bit expiration, the builder succeeds and
  -- returns that account, and the program dispatches the instruction to the initialization
  -- handler, which decodes the slot, the scheme, the session key, and initialization data with the
  -- relying party id, the key and the parameters given. Borsh keeps its documented format.
  pub initialize_with-ReadsAsInitialization :
      (webauthn : WebAuthnData) (rp_id : Bytes) (payer : Pubkey) (slot : ℕ)
      (session_key : Option SessionKey) (account : Pubkey) (bump : ℕ)
      → IsWebAuthnData webauthn
      → IsRpId rp_id
      → slot < 65536
      → ((key : SessionKey) → session_key ≡ some key → IsSessionKey key)
      → derive_passkey_account rt webauthn.public_key ≡ done (account, bump)
      → (ix : Instruction) × (initialize_with rt b crates webauthn rp_id payer slot session_key
          ≡ done (account, ix))
        × ReadsAsInitialization rt b ix rp_id webauthn slot session_key
            (created_accounts rt crates account payer)
  unfolding initialize_with process_instruction parse_raw_initialization_data try_from
  initialize_with-ReadsAsInitialization webauthn rp_id payer slot session_key account bump hd hr lt
        hk derived =
      let raw : P256RawInitializationData = record {
        rp_id = rp_id;
        public_key = webauthn.public_key;
        params = webauthn.client_data_json_reconstruction_params;
      } in
      let codec = raw_initialization_codec b in
      let (bytes, short, e) = raw_initialization-Encodes b h rp_id webauthn hr hd in
      let (input, written, decoded) = to_vec-try_from_slice b h (Initialize.args_codec b) _ (
        initialize_args-RoundTrips b h slot bytes session_key lt
          (small_bytes-RoundTrips b h 1 bytes short e.bytes) hk) in
      let ix : Instruction = record {
        program_id = rt.id;
        input = 0 ∷ input;
        accounts =
            writable_meta account false
            ∷ writable_meta payer true
            ∷ readonly_meta crates.instructions_sysvar_id false
            ∷ readonly_meta slot_hashes_id false
            ∷ readonly_meta rt.system_id false
            ∷ [];
      } in
      let name = lt→ltb (length rp_id) 256 (omega (arith, hr.short)) in
      let fits = lt→ltb (length bytes) 256 short in
      let built : initialize_with rt b crates webauthn rp_id payer slot session_key
          ≡ done (account, ix) =
        rw (derived, name, e.writes, fits, written) refl in
      let whole : codec.read bytes ≡ some (raw, []) = rw (sym (append-nil bytes)) (e.reads []) in
      let read = (h.exact P256RawInitializationData codec bytes raw).1 whole in
      (
        ix,
        built,
        record {
          input = input;
          args = _;
          decoded = decoded;
          same_signature_scheme = refl;
          same_slot = refl;
          same_session_key = refl;
          same_data = rw read refl;
          passes = refl;
          dispatched = λ infos w. refl;
        },
      )
