-- ===== src/Sdk/Builders/Refreshed.antt =====
-- A refresh from the SDK to the end of its run (sdks/rust-sdk/src/instructions/refresh_session.rs
-- with src/instructions/refresh_session_key.rs).
use external_signature_progr.Base.{
  ℕ, ◌+◌, ◌%◌, ◌^◌, ◌<◌, ◌≡◌, refl, sym, ap, ◌∙◌, Bytes, Pubkey, [], ◌∷◌, length, true, false,
}
use external_signature_progr.Borsh.{Borsh}
use external_signature_progr.Borsh.Laws.{IsBorsh}
use external_signature_progr.Entrypoint.{process_instruction}
use external_signature_progr.Errors.{ok}
use external_signature_progr.Instructions.Payload.{refresh_payload}
use external_signature_progr.Instructions.Refresh.Authorized.{IsAuthorized}
use external_signature_progr.Instructions.Refresh.Exact.{process_refresh_session_key_exact}
use external_signature_progr.Runtime.{Runtime, AccountInfo, Instruction, Instructions}
use external_signature_progr.Sdk.Builders.{refresh_session_key}
use external_signature_progr.Sdk.Builders.Codecs.{IsWebAuthnData}
use external_signature_progr.Sdk.Builders.Session.{IsSessionKey, refresh_session_key-ReadsAsRefresh}
use external_signature_progr.Sdk.Types.{done, Crates, WebAuthnData}
use external_signature_progr.State.{SessionKey, p256_webauthn}
use external_signature_progr.State.Account.{ExternallySignedAccount, data_ref}
use external_signature_progr.State.Account.View.{IsLoaded, written}
use external_signature_progr.State.P256Webauthn.{
  P256WebauthnAccountData, P256ParsedVerificationData, AccountSeeds, parse_verification_data,
}
use external_signature_progr.State.P256Webauthn.Scheme
use external_signature_progr.State.P256Webauthn.Scheme.Verify.{IsVerified}
use external_signature_progr.Utils.Nonce.{NonceData, validate_nonce}
use external_signature_progr.Utils.Sha256.{hash}
use external_signature_progr.Utils.SlotHashes
use external_signature_progr.Utils.SlotHashes.{SlotHashes, slot_hashes_id}
use external_signature_progr.World.{World}
use external_signature_progr.Sdk.Builders.Accounts.{account, passed}

module _ (rt : Runtime) (b : Borsh) where
  -- The passkey of `webauthn` approves the session key for the account: the account is the
  -- program's and belongs to the passkey, the slot's nonce is valid for the signer, and the
  -- transaction carries the assertion over the payload; its counter and then the session key,
  -- counted from the clock's time, take the data of the account from `before` to `refreshed`.
  pub record IsApproval
      (external_account instructions_info slothashes_info nonce_signer : AccountInfo)
      (webauthn : WebAuthnData) (slot : ℕ) (session_key : SessionKey) (w w' : World) : Type 0 where
    pub self : ExternallySignedAccount
    pub loaded : IsLoaded rt external_account w self
    pub verification : P256ParsedVerificationData
    pub parsed :
        parse_verification_data (record {
          public_key = webauthn.public_key;
          params = webauthn.client_data_json_reconstruction_params;
        })
        ≡ ok verification
    pub seeds : AccountSeeds
    pub derived : Scheme.check_account rt self.account_info verification ≡ ok seeds
    pub instructions : Instructions
    pub sysvar : rt.instructions instructions_info ≡ ok instructions
    pub table : SlotHashes
    pub slothashes : SlotHashes.try_from slothashes_info w.accounts ≡ ok table
    pub nonce_data : NonceData
    pub nonce : validate_nonce rt table slot nonce_signer ≡ ok nonce_data
    pub payload : Bytes
    pub signed : refresh_payload b nonce_data session_key ≡ ok payload
    pub before : P256WebauthnAccountData
    pub after : P256WebauthnAccountData
    pub read : data_ref rt self w.accounts ≡ ok before
    pub verified : IsVerified rt instructions before verification (hash rt payload) after
    pub now : ℕ
    pub clock : rt.clock ≡ ok now
    pub counted : P256WebauthnAccountData
    pub refreshed : P256WebauthnAccountData
    pub reread : data_ref rt self (written w self after).accounts ≡ ok counted
    pub updated :
        Scheme.update_session_key rt counted
          (record { key = session_key.key; expiration = (now + session_key.expiration) % 2 ^ 64 })
        ≡ ok refreshed
    pub wrote : w' ≡ written (written w self after) self refreshed

  -- A new session key, from the SDK to the account: for a key of 33 bytes, a truncated slot of 16
  -- bits and a session key of 32 bytes with a 64-bit expiration, when the passkey approves the
  -- session key (the transaction carries its assertion over the payload, the counter counts up,
  -- the nonce is valid, the session ends within the limit), then the SDK builds an instruction
  -- with which, on the accounts that it names with the flags that it gives them, the program
  -- succeeds and leaves the account with the new session key written. Borsh keeps its documented
  -- format and hashes are 32 bytes long.
  pub refresh_session_key_succeeds :
      (crates : Crates) (webauthn : WebAuthnData) (passkey_account payer : Pubkey) (slot : ℕ)
      (session_key : SessionKey) (w w' : World)
      → IsBorsh b
      → ((bs : Bytes) → length (hash rt bs) ≡ 32)
      → IsWebAuthnData webauthn
      → slot < 65536
      → IsSessionKey session_key
      → IsApproval
          (account passkey_account false true)
          (account crates.instructions_sysvar_id false false)
          (account slot_hashes_id false false)
          (account payer true true)
          webauthn
          slot
          session_key
          w
          w'
      → (ix : Instruction) × (refresh_session_key rt b crates webauthn passkey_account payer slot
            session_key
          ≡ done ix)
        × (process_instruction rt b (passed ix.accounts) ix.input w ≡ ok (tt, w'))
  refresh_session_key_succeeds crates webauthn passkey_account payer slot session_key w w' laws
        hash_length hd lt hk a =
      let x = account passkey_account false true in
      let i = account crates.instructions_sysvar_id false false in
      let s = account slot_hashes_id false false in
      let n = account payer true true in
      let (ix, built, r) =
        refresh_session_key-ReadsAsRefresh rt b crates laws webauthn passkey_account payer slot
          session_key hd lt hk in
      let infos = x ∷ i ∷ s ∷ n ∷ [] in
      let authorized : IsAuthorized rt b infos r.input w w' = record {
        external_account = x;
        instructions_info = i;
        slothashes_info = s;
        nonce_signer = n;
        others = [];
        listed = refl;
        args = r.args;
        parsed = r.decoded;
        known = p256_webauthn;
        signature_scheme = r.same_signature_scheme;
        context = record {
          externally_signed_account = a.self;
          verification_data = a.verification;
          instructions_sysvar = a.instructions;
          nonce_data = a.nonce_data;
          session_key = session_key;
        };
        checked = record {
          table = a.table;
          seeds = a.seeds;
          extra = r.same_key ∙ rw a.parsed refl;
          loaded = a.loaded;
          derived = a.derived;
          sysvar = a.sysvar;
          slothashes = a.slothashes;
          nonce = rw r.same_slot a.nonce;
          session_key = sym r.same_session_key;
        };
        payload = a.payload;
        signed = a.signed;
        before = a.before;
        after = a.after;
        read = a.read;
        verified = a.verified;
        now = a.now;
        clock = a.clock;
        counted = a.counted;
        refreshed = a.refreshed;
        reread = a.reread;
        updated = rw r.same_session_key a.updated;
        wrote = a.wrote;
      } in
      (
        ix,
        built,
        ap (λ l. process_instruction rt b l ix.input w) r.passes
            ∙ r.dispatched infos w
            ∙ (process_refresh_session_key_exact rt b infos r.input w w' hash_length).1 authorized,
      )
