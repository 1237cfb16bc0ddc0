-- ===== src/Sdk/Builders/Live.antt =====
-- A session's instruction from the SDK to the end of its run
-- (sdks/rust-sdk/src/instructions/execute_sessioned.rs with
-- src/instructions/execute_instructions_sessioned.rs).
use external_signature_progr.Base.{ℕ, ◌≤◌, ◌≡◌, ◌∙◌, refl, ap, true, false, List, ◌∷◌, Pubkey}
use external_signature_progr.Borsh.{Borsh}
use external_signature_progr.Borsh.Laws.{IsBorsh}
use external_signature_progr.Entrypoint.{process_instruction}
use external_signature_progr.Errors.{ok}
use external_signature_progr.Instructions.ExecuteSessioned.Live.{
  process_execute_instructions_sessioned-ok,
}
use external_signature_progr.Instructions.ExecuteSessioned.Authorized.{IsSessionAuthorized}
use external_signature_progr.Instructions.Invoke.Trace.{Runs, invoke_instructions_exact}
use external_signature_progr.Runtime.{Runtime, AccountInfo, Instruction}
use external_signature_progr.Sdk.Builders.{execute_instructions_sessioned}
use external_signature_progr.Sdk.Builders.Compiled.{IsCompilable}
use external_signature_progr.Sdk.Builders.Sessioned.{
  execute_instructions_sessioned-ReadsAsSessioned,
}
use external_signature_progr.Sdk.Types.{done, Crates}
use external_signature_progr.State.{
  ExecutionAccount, SignerExecutionScheme, p256_webauthn, to_signer_seeds,
}
use external_signature_progr.State.Account
use external_signature_progr.State.Account.{ExternallySignedAccount, data_ref}
use external_signature_progr.State.Account.View.{IsLoaded}
use external_signature_progr.State.P256Webauthn.{P256WebauthnAccountData}
use external_signature_progr.Utils.Instructions.{create_instruction_execution_account_metas}
use external_signature_progr.World.{World}
use external_signature_progr.Sdk.Builders.Accounts.{account, passed}
use external_signature_progr.Sdk.Compile.{account_metas}

module _ (rt : Runtime) where
  -- The account holds a live session key, whose owner signs, and has an account to execute as.
  pub record IsSession (external_account session_signer : AccountInfo)
      (scheme : SignerExecutionScheme) (w : World) : Type 0 where
    pub self : ExternallySignedAccount
    pub loaded : IsLoaded rt external_account w self
    pub stored : P256WebauthnAccountData
    pub read : data_ref rt self w.accounts ≡ ok stored
    pub now : ℕ
    pub clock : rt.clock ≡ ok now
    pub is_signer : session_signer.is_signer ≡ true
    pub by_key : stored.session_key.key ≡ session_signer.key
    pub live : now ≤ stored.session_key.expiration
    pub execution : ExecutionAccount
    pub executing : Account.get_execution_account rt self scheme w ≡ ok (execution, w)

  module _ (b : Borsh) (crates : Crates) (h : IsBorsh b) where
    -- A session's instructions, from the SDK to the end of their run: when the message compiles,
    -- the passkey's account holds a live session key, that of the session signer, and has an
    -- account to execute as, and the compiled instructions have a run on the message's accounts
    -- from w to w', then the SDK builds an instruction with which, on the accounts that it names
    -- with the flags that it gives them, the program succeeds and leaves w'. Borsh keeps its
    -- documented format.
    pub execute_instructions_sessioned_succeeds :
        (passkey_account payer : Pubkey) (instructions : List Instruction)
        (scheme : SignerExecutionScheme) (w w' : World)
        → IsCompilable (crates.new_message instructions payer)
        → (s : IsSession (account passkey_account false true) (account payer true false) scheme w)
        → Runs rt
            (create_instruction_execution_account_metas
              (passed (account_metas (crates.new_message instructions payer)))
              s.execution
              scheme)
            (passed (account_metas (crates.new_message instructions payer)))
            (to_signer_seeds s.execution)
            (crates.new_message instructions payer).instructions
            w
            w'
        → (ix : Instruction) × (execute_instructions_sessioned rt b crates passkey_account payer
              instructions scheme
            ≡ done ix)
          × (process_instruction rt b (passed ix.accounts) ix.input w ≡ ok (tt, w'))
    execute_instructions_sessioned_succeeds passkey_account payer instructions scheme w w' hm s
          runs =
        let external_account = account passkey_account false true in
        let session_signer = account payer true false in
        let execution_accounts = passed (account_metas (crates.new_message instructions payer)) in
        let (ix, built, r) =
          execute_instructions_sessioned-ReadsAsSessioned rt b crates h passkey_account payer
            instructions scheme hm in
        let infos = external_account ∷ session_signer ∷ execution_accounts in
        let ran =
          (invoke_instructions_exact rt _ execution_accounts (to_signer_seeds s.execution) _ w w').1
            runs in
        let x : IsSessionAuthorized rt b infos r.input w w' = record {
          external_account = external_account;
          session_signer = session_signer;
          execution_accounts = execution_accounts;
          listed = refl;
          args = r.args;
          parsed = r.decoded;
          known = p256_webauthn;
          signature_scheme = r.same_signature_scheme;
          scheme = scheme;
          execution_scheme = r.same_scheme;
          self = s.self;
          loaded = s.loaded;
          stored = s.stored;
          read = s.read;
          now = s.now;
          clock = s.clock;
          is_signer = s.is_signer;
          by_key = s.by_key;
          live = s.live;
          execution = s.execution;
          executing = s.executing;
          ran = rw r.same_instructions ran;
        } in
        (
          ix,
          built,
          ap (λ l. process_instruction rt b l ix.input w) r.passes
              ∙ r.dispatched infos w
              ∙ process_execute_instructions_sessioned-ok rt b infos r.input w w' x,
        )
