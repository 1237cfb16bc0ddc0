-- ===== src/Sdk/Builders/Enrolled.antt =====
-- An initialization from the SDK to the end of its run
-- (sdks/rust-sdk/src/instructions/initialize.rs with
-- src/instructions/initialize_external_account.rs).
use external_signature_progr.Base.{
  ℕ, ◌<◌, ◌≡◌, refl, sym, ap, ◌∙◌, Bytes, Pubkey, [], ◌∷◌, true, false, length, Option, some,
}
use external_signature_progr.Borsh.{Borsh}
use external_signature_progr.Borsh.Laws.{IsBorsh}
use external_signature_progr.Entrypoint.{process_instruction}
use external_signature_progr.Errors.{ok}
use external_signature_progr.Instructions.Initialize.{
  InitializeExternalAccountContext, create_and_allocate_externally_signed_account,
}
use external_signature_progr.Instructions.Initialize.Exact.{
  process_initialize_external_account_exact,
}
use external_signature_progr.Instructions.Initialize.Fresh.{IsInitialized, signed_payload}
use external_signature_progr.Runtime.{Runtime, AccountInfo, Instruction}
use external_signature_progr.Sdk.Builders.{initialize_with}
use external_signature_progr.Sdk.Builders.Codecs.{IsWebAuthnData}
use external_signature_progr.Sdk.Builders.Initialization.{
  IsRpId, initialize_with-ReadsAsInitialization,
}
use external_signature_progr.Sdk.Builders.Session.{IsSessionKey}
use external_signature_progr.Sdk.Pda.{derive_passkey_account}
use external_signature_progr.Sdk.Types.{done, Crates, WebAuthnData}
use external_signature_progr.State.{SessionKey, p256_webauthn}
use external_signature_progr.State.Account
use external_signature_progr.State.Account.{ExternallySignedAccount, data_ref}
use external_signature_progr.State.Account.View.{IsLoaded, written}
use external_signature_progr.State.P256Webauthn.{
  P256WebauthnAccountData, parse_initialization_data, initialization_derive_args,
}
use external_signature_progr.State.P256Webauthn.Scheme
use external_signature_progr.State.P256Webauthn.Scheme.Verify.{IsVerified}
use external_signature_progr.Utils.Nonce.{NonceData, validate_nonce}
use external_signature_progr.Utils.Sha256.{hash}
use external_signature_progr.Utils.SlotHashes
use external_signature_progr.Utils.SlotHashes.{SlotHashes, slot_hashes_id}
use external_signature_progr.World.{World}
use external_signature_progr.Sdk.Builders.Accounts.{account, passed}

module _ (rt : Runtime) (b : Borsh) where
  -- The passkey of `webauthn` approves an account of its own: the external account is empty, the
  -- system program's and at the address of the passkey; the slot's nonce is valid for the rent
  -- payer; the account can be created and its data written; and the transaction carries the
  -- assertion over the payload, by the key in those data.
  pub record IsApproval
      (external_account rent_payer instructions_info slothashes_info system_program : AccountInfo)
      (rp_id : Bytes) (webauthn : WebAuthnData) (slot : ℕ) (session_key : Option SessionKey)
      (w w' : World) : Type 0 where
    pub context : InitializeExternalAccountContext
    pub table : SlotHashes
    pub nonce : NonceData
    pub unowned : (w.accounts external_account.key).owner ≡ rt.system_id
    pub empty : length (w.accounts external_account.key).bytes ≡ 0
    pub loaded : IsLoaded rt external_account w context.externally_signed_account
    pub sysvar : rt.instructions instructions_info ≡ ok context.instructions_sysvar
    pub slothashes : SlotHashes.try_from slothashes_info w.accounts ≡ ok table
    pub system : system_program.key ≡ rt.system_id
    pub validated : validate_nonce rt table slot rent_payer ≡ ok nonce
    pub hashed : context.slothash ≡ nonce.slothash
    pub parsed :
        parse_initialization_data rt (record {
          rp_id = rp_id;
          public_key = webauthn.public_key;
          params = webauthn.client_data_json_reconstruction_params;
        })
        ≡ ok context.initialization_data
    pub derived :
        Scheme.derive_account rt (initialization_derive_args context.initialization_data)
        ≡ ok context.seeds
    pub address : external_account.key ≡ context.seeds.key
    pub payer : context.rent_payer ≡ rent_payer
    pub program : context.system_program ≡ system_program
    pub session : context.session_key ≡ session_key
    pub self : ExternallySignedAccount
    pub created : World
    pub creation : create_and_allocate_externally_signed_account rt context w ≡ ok (self, created)
    pub filled : World
    pub filling :
        Account.initialize_account rt self context.initialization_data context.session_key created
        ≡ ok (tt, filled)
    pub before : P256WebauthnAccountData
    pub after : P256WebauthnAccountData
    pub read : data_ref rt self filled.accounts ≡ ok before
    pub verified :
        IsVerified rt context.instructions_sysvar before
          (record {
            public_key = context.initialization_data.public_key;
            params = context.initialization_data.params;
          })
          (hash rt (signed_payload rt b context))
          after
    pub wrote : w' ≡ written filled self after

  -- A new account, from the SDK to the ledger: for a key of 33 bytes with a derived account, a
  -- relying party id of at most 32 bytes, a truncated slot of 16 bits and a session key, if any,
  -- of 32 bytes with a 64-bit expiration, when the passkey approves the account (it is empty and
  -- at the passkey's address, it can be created and its data written, the nonce is valid, and the
  -- transaction carries the assertion over the payload), then the SDK returns that account and
  -- builds an instruction with which, on the accounts that it names with the flags that it gives
  -- them, the program succeeds and leaves the approved state. Borsh keeps its documented format
  -- and hashes are 32 bytes long.
  pub initialize_with_succeeds :
      (crates : Crates) (webauthn : WebAuthnData) (rp_id : Bytes) (payer : Pubkey) (slot : ℕ)
      (session_key : Option SessionKey) (new : Pubkey) (bump : ℕ) (w w' : World)
      → IsBorsh b
      → ((bs : Bytes) → length (hash rt bs) ≡ 32)
      → IsWebAuthnData webauthn
      → IsRpId rp_id
      → slot < 65536
      → ((key : SessionKey) → session_key ≡ some key → IsSessionKey key)
      → derive_passkey_account rt webauthn.public_key ≡ done (new, bump)
      → IsApproval
          (account new false true)
          (account payer true true)
          (account crates.instructions_sysvar_id false false)
          (account slot_hashes_id false false)
          (account rt.system_id false false)
          rp_id
          webauthn
          slot
          session_key
          w
          w'
      → (ix : Instruction) × (initialize_with rt b crates webauthn rp_id payer slot session_key
          ≡ done (new, ix))
        × (process_instruction rt b (passed ix.accounts) ix.input w ≡ ok (tt, w'))
  initialize_with_succeeds crates webauthn rp_id payer slot session_key new bump w w' laws
        hash_length hd hr lt hk derived a =
      let x = account new false true in
      let p = account payer true true in
      let i = account crates.instructions_sysvar_id false false in
      let s = account slot_hashes_id false false in
      let y = account rt.system_id false false in
      let (ix, built, r) =
        initialize_with-ReadsAsInitialization rt b crates laws webauthn rp_id payer slot session_key
          new bump hd hr lt hk derived in
      let infos = x ∷ p ∷ i ∷ s ∷ y ∷ [] in
      let initialized : IsInitialized rt b infos r.input w w' = record {
        external_account = x;
        rent_payer = p;
        instructions_info = i;
        slothashes_info = s;
        system_program = y;
        others = [];
        listed = refl;
        args = r.args;
        parsed = r.decoded;
        known = p256_webauthn;
        signature_scheme = r.same_signature_scheme;
        context = a.context;
        checked = record {
          table = a.table;
          nonce = a.nonce;
          unowned = a.unowned;
          empty = a.empty;
          loaded = a.loaded;
          sysvar = a.sysvar;
          slothashes = a.slothashes;
          system = a.system;
          validated = rw r.same_slot a.validated;
          hashed = a.hashed;
          parsed = r.same_data ∙ a.parsed;
          derived = a.derived;
          address = a.address;
          payer = a.payer;
          program = a.program;
          session_key = a.session ∙ sym r.same_session_key;
        };
        self = a.self;
        created = a.created;
        creation = a.creation;
        filled = a.filled;
        filling = a.filling;
        before = a.before;
        after = a.after;
        read = a.read;
        verified = a.verified;
        wrote = a.wrote;
      } in
      (
        ix,
        built,
        ap (λ l. process_instruction rt b l ix.input w) r.passes
            ∙ r.dispatched infos w
            ∙ (process_initialize_external_account_exact rt b infos r.input w w' hash_length).1
                initialized,
      )
