-- ===== src/Instructions/ExecuteSessioned/Live.antt =====
-- When a sessioned execution succeeds (src/instructions/execute_instructions_sessioned.rs).
use external_signature_progr.Base.{ℕ, ◌≤◌, ◌≡◌, ◌∙◌, ap, refl, true, List, Bytes}
use external_signature_progr.Borsh.{Borsh}
use external_signature_progr.Errors.{
  ok, into, ok_or, invalid_execution_args, invalid_signature_scheme,
  invalid_signer_execution_scheme,
}
use external_signature_progr.Instructions.ExecuteSessioned.{
  ExecutableInstructionSessionedArgs, ExecuteInstructionsSessionedContext, args_codec, load_context,
  load, process_execute_instructions_sessioned,
}
use external_signature_progr.Instructions.ExecuteSessioned.Authorized.{IsSessionAuthorized}
use external_signature_progr.Runtime.{Runtime, AccountInfo}
use external_signature_progr.State.{signature_scheme_try_from, signer_execution_scheme_try_from}
use external_signature_progr.State.Account
use external_signature_progr.State.Account.{ExternallySignedAccount, data_ref, header, bytes_of}
use external_signature_progr.State.Account.Loads.{load-ok}
use external_signature_progr.State.P256Webauthn.{P256WebauthnAccountData}
use external_signature_progr.State.P256Webauthn.Scheme.Session.{is_valid_session_key_exact}
use external_signature_progr.Utils.Instructions.{create_instruction_execution_account_metas}
use external_signature_progr.World.{World}
use external_signature_progr.World.Laws.{bind-ok, bind-lift-ok}

module _ (rt : Runtime) where
  is_valid_session_key-ok :
      (self : ExternallySignedAccount) (signer : AccountInfo) (w : World)
      (d : P256WebauthnAccountData) (now : ℕ)
      → data_ref rt self w.accounts ≡ ok d
      → rt.clock ≡ ok now
      → signer.is_signer ≡ true
      → d.session_key.key ≡ signer.key
      → now ≤ d.session_key.expiration
      → Account.is_valid_session_key rt self signer w ≡ ok (tt, w)
  unfolding Account.is_valid_session_key
  is_valid_session_key-ok self signer w d now read clock signed by_key live =
      let accepted = (is_valid_session_key_exact rt now clock d signer).1 (signed, by_key, live) in
      rw (read, accepted) refl

  module _ (b : Borsh) (infos : List AccountInfo) (input : Bytes) (w w' : World)
      (x : IsSessionAuthorized rt b infos input w w') where
    abbrev context : ExecuteInstructionsSessionedContext
    context = record {
      externally_signed_account = x.self;
      session_signer = x.session_signer;
      instruction_execution_accounts = x.execution_accounts;
      execution_account = x.execution;
      instructions = x.args.instructions;
      instruction_execution_account_metas =
          create_instruction_execution_account_metas x.execution_accounts x.execution x.scheme;
    }

    load_context-ok :
        load_context rt x.external_account x.session_signer x.execution_accounts x.args w
        ≡ ok (context, w)
    unfolding load_context
    load_context-ok =
        let scheme : ok_or (into invalid_signer_execution_scheme)
              (signer_execution_scheme_try_from x.args.signer_execution_scheme)
            ≡ ok x.scheme =
          ap (ok_or (into invalid_signer_execution_scheme)) x.execution_scheme in
        bind-ok (Account.load rt x.external_account) _ w
          (load-ok rt x.external_account x.self w x.stored x.loaded x.read)
        ∙ bind-ok (Account.is_valid_session_key rt x.self x.session_signer) _ w (
            is_valid_session_key-ok x.self x.session_signer w x.stored x.now x.read x.clock
              x.is_signer x.by_key x.live)
        ∙ bind-lift-ok _ _ w scheme
        ∙ bind-ok (Account.get_execution_account rt x.self x.scheme) _ w x.executing

    -- What stands behind a successful sessioned execution is enough for it: with the arguments
    -- parsed, the session key live and its owner's signature there, the execution succeeds as soon
    -- as its instructions run, and leaves what they leave.
    pub process_execute_instructions_sessioned-ok :
        process_execute_instructions_sessioned rt b infos input w ≡ ok (tt, w')
    unfolding process_execute_instructions_sessioned load
    process_execute_instructions_sessioned-ok =
        let args : ok_or (into invalid_execution_args)
              (b.try_from_slice ExecutableInstructionSessionedArgs (args_codec b) input)
            ≡ ok x.args =
          ap (ok_or (into invalid_execution_args)) x.parsed in
        let known : ok_or (into invalid_signature_scheme)
              (signature_scheme_try_from x.args.signature_scheme)
            ≡ ok x.known =
          ap (ok_or (into invalid_signature_scheme)) x.signature_scheme in
        bind-lift-ok _ _ w args
        ∙ bind-lift-ok _ _ w known
        ∙ bind-ok (load rt infos x.args) _ w
            (ap (λ l. load rt l x.args w) x.listed ∙ load_context-ok)
        ∙ x.ran
