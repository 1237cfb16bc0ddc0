-- ===== src/Sdk/Builders/Executed.antt =====
-- An execution from the SDK to the end of its run (sdks/rust-sdk/src/instructions/execute.rs with
-- src/instructions/execute_instructions.rs).
use external_signature_progr.Base.{
  ℕ, ◌<◌, ◌≡◌, refl, sym, ap, ◌∙◌, Bytes, true, false, Pubkey, List, ◌∷◌, length,
}
use external_signature_progr.Borsh.{Borsh}
use external_signature_progr.Borsh.Laws.{IsBorsh}
use external_signature_progr.Entrypoint.{process_instruction}
use external_signature_progr.Errors.{ok}
use external_signature_progr.Instructions.Execute.Authorized.{IsAuthorized}
use external_signature_progr.Instructions.Execute.Exact.{process_execute_instructions_exact}
use external_signature_progr.Instructions.Invoke.Trace.{Runs, invoke_instructions_exact}
use external_signature_progr.Instructions.Payload.{execute_payload}
use external_signature_progr.Runtime.{Runtime, AccountInfo, Instruction, Instructions}
use external_signature_progr.Sdk.Builders.{execute_instructions}
use external_signature_progr.Sdk.Builders.Codecs.{IsWebAuthnData}
use external_signature_progr.Sdk.Builders.Compiled.{IsCompilable}
use external_signature_progr.Sdk.Builders.Execution.{execute_instructions-ReadsAsExecution}
use external_signature_progr.Sdk.Types.{done, Crates, WebAuthnData}
use external_signature_progr.State.{
  ExecutionAccount, SignerExecutionScheme, p256_webauthn, to_signer_seeds,
}
use external_signature_progr.State.Account
use external_signature_progr.State.Account.{ExternallySignedAccount, data_ref}
use external_signature_progr.State.Account.View.{IsLoaded, written}
use external_signature_progr.State.P256Webauthn.{
  P256WebauthnAccountData, P256ParsedVerificationData, AccountSeeds, parse_verification_data,
}
use external_signature_progr.State.P256Webauthn.Scheme
use external_signature_progr.State.P256Webauthn.Scheme.Verify.{IsVerified}
use external_signature_progr.Utils.Instructions.{
  CompiledInstruction, create_instruction_execution_account_metas,
}
use external_signature_progr.Utils.Nonce.{NonceData, validate_nonce}
use external_signature_progr.Utils.Sha256.{hash}
use external_signature_progr.Utils.SlotHashes
use external_signature_progr.Utils.SlotHashes.{SlotHashes, slot_hashes_id}
use external_signature_progr.World.{World}
use external_signature_progr.Sdk.Builders.Accounts.{account, passed}
use external_signature_progr.Sdk.Compile.{account_metas}

module _ (rt : Runtime) (b : Borsh) where
  -- The passkey of `webauthn` approves the instructions with their accounts: the external account
  -- is the program's and belongs to the passkey, the slot's nonce is valid for the signer, there
  -- is an account to execute as, and the transaction carries the assertion over the payload; its
  -- counter takes the data of the account from `before` to `after`, and the instructions run from
  -- there to w'.
  pub record IsApproval
      (external_account instructions_info slothashes_info nonce_signer : AccountInfo)
      (execution_accounts : List AccountInfo) (webauthn : WebAuthnData) (slot : ℕ)
      (scheme : SignerExecutionScheme) (instructions : List CompiledInstruction) (w w' : World)
      : Type 0 where
    pub self : ExternallySignedAccount
    pub loaded : IsLoaded rt external_account w self
    pub verification : P256ParsedVerificationData
    pub parsed :
        parse_verification_data (record {
          public_key = webauthn.public_key;
          params = webauthn.client_data_json_reconstruction_params;
        })
        ≡ ok verification
    pub seeds : AccountSeeds
    pub derived : Scheme.check_account rt self.account_info verification ≡ ok seeds
    pub sysvar : Instructions
    pub introspected : rt.instructions instructions_info ≡ ok sysvar
    pub table : SlotHashes
    pub slothashes : SlotHashes.try_from slothashes_info w.accounts ≡ ok table
    pub nonce_data : NonceData
    pub nonce : validate_nonce rt table slot nonce_signer ≡ ok nonce_data
    pub execution : ExecutionAccount
    pub executing : Account.get_execution_account rt self scheme w ≡ ok (execution, w)
    pub payload : Bytes
    pub signed : execute_payload b nonce_data execution_accounts instructions ≡ ok payload
    pub before : P256WebauthnAccountData
    pub after : P256WebauthnAccountData
    pub read : data_ref rt self w.accounts ≡ ok before
    pub verified : IsVerified rt sysvar before verification (hash rt payload) after
    pub runs :
        Runs rt
          (create_instruction_execution_account_metas execution_accounts execution scheme)
          execution_accounts
          (to_signer_seeds execution)
          instructions
          (written w self after)
          w'

  -- A passkey's instructions, from the SDK to the end of their run: for a key of 33 bytes, a
  -- truncated slot of 16 bits and a message that compiles, when the passkey approves the compiled
  -- instructions with the accounts of the message (the transaction carries its assertion over the
  -- payload, the counter counts up, the nonce is valid) and they run to w', then the SDK builds an
  -- instruction with which, on the accounts that it names with the flags that it gives them, the
  -- program succeeds and leaves w'. Borsh keeps its documented format and hashes are 32 bytes
  -- long.
  pub execute_instructions_succeeds :
      (crates : Crates) (webauthn : WebAuthnData) (passkey_account nonce_signer : Pubkey) (slot : ℕ)
      (instructions : List Instruction) (scheme : SignerExecutionScheme) (w w' : World)
      → IsBorsh b
      → ((bs : Bytes) → length (hash rt bs) ≡ 32)
      → IsWebAuthnData webauthn
      → slot < 65536
      → IsCompilable (crates.new_message instructions nonce_signer)
      → IsApproval
          (account passkey_account false true)
          (account crates.instructions_sysvar_id false false)
          (account slot_hashes_id false false)
          (account nonce_signer true true)
          (passed (account_metas (crates.new_message instructions nonce_signer)))
          webauthn
          slot
          scheme
          (crates.new_message instructions nonce_signer).instructions
          w
          w'
      → (ix : Instruction) × (execute_instructions rt b crates webauthn passkey_account nonce_signer
            slot instructions scheme
          ≡ done ix)
        × (process_instruction rt b (passed ix.accounts) ix.input w ≡ ok (tt, w'))
  execute_instructions_succeeds crates webauthn passkey_account nonce_signer slot instructions
        scheme w w' laws hash_length hd lt hm a =
      let x = account passkey_account false true in
      let i = account crates.instructions_sysvar_id false false in
      let s = account slot_hashes_id false false in
      let n = account nonce_signer true true in
      let execution_accounts =
        passed (account_metas (crates.new_message instructions nonce_signer)) in
      let (ix, built, r) =
        execute_instructions-ReadsAsExecution rt b crates laws webauthn passkey_account nonce_signer
          slot instructions scheme hd lt hm in
      let compiled = (crates.new_message instructions nonce_signer).instructions in
      let infos = x ∷ i ∷ s ∷ n ∷ execution_accounts in
      let metas =
        create_instruction_execution_account_metas execution_accounts a.execution scheme in
      let ran =
        (invoke_instructions_exact rt metas execution_accounts (to_signer_seeds a.execution)
            compiled (written w a.self a.after) w').1
          a.runs in
      let authorized : IsAuthorized rt b infos r.input w w' = record {
        external_account = x;
        instructions_info = i;
        slothashes_info = s;
        nonce_signer = n;
        execution_accounts = execution_accounts;
        listed = refl;
        args = r.args;
        parsed = r.decoded;
        known = p256_webauthn;
        signature_scheme = r.same_signature_scheme;
        context = record {
          nonce_data = a.nonce_data;
          execution_account = a.execution;
          verification_data = a.verification;
          externally_signed_account = a.self;
          instructions_sysvar = a.sysvar;
          instruction_execution_accounts = execution_accounts;
          instructions = compiled;
          instruction_execution_account_metas = metas;
        };
        checked = record {
          table = a.table;
          seeds = a.seeds;
          scheme = scheme;
          extra = r.same_key ∙ a.parsed;
          loaded = a.loaded;
          derived = a.derived;
          sysvar = a.introspected;
          slothashes = a.slothashes;
          nonce = rw r.same_slot a.nonce;
          execution_scheme = r.same_scheme;
          signer = a.executing;
          accounts = refl;
          instructions = sym r.same_instructions;
          metas = refl;
        };
        payload = a.payload;
        signed = a.signed;
        before = a.before;
        after = a.after;
        read = a.read;
        verified = a.verified;
        ran = rw r.same_instructions ran;
      } in
      (
        ix,
        built,
        ap (λ l. process_instruction rt b l ix.input w) r.passes
            ∙ r.dispatched infos w
            ∙ (process_execute_instructions_exact rt b infos r.input w w' hash_length).1 authorized,
      )
