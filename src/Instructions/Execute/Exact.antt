-- ===== src/Instructions/Execute/Exact.antt =====
-- When an execution succeeds (src/instructions/execute_instructions.rs).
use external_signature_progr.Base.{◌≡◌, ◌↔◌, refl, sym, ap, ◌∙◌, List, Bytes, length}
use external_signature_progr.Borsh.{Borsh}
use external_signature_progr.Errors
use external_signature_progr.Errors.{
  ok, into, ok_or, invalid_execution_args, invalid_signature_scheme,
  invalid_signer_execution_scheme,
}
use external_signature_progr.Instructions.Execute.{
  ExecutableInstructionArgs, ExecuteInstructionsContext, load_context, load,
  get_instruction_payload_hash, process_execute_instructions,
}
use external_signature_progr.Instructions.Execute.Authorized.{
  IsAuthorized, process_execute_instructions-IsAuthorized,
}
use external_signature_progr.Instructions.Execute.Context.{IsContext}
use external_signature_progr.Instructions.Payload.{execute_payload}
use external_signature_progr.Runtime.{Runtime, AccountInfo, AccountMeta}
use external_signature_progr.State.Account
use external_signature_progr.State.Account.{data_ref}
use external_signature_progr.State.Account.Loads.{load-ok, check_account-ok, with_data-ok}
use external_signature_progr.State.P256Webauthn.{P256WebauthnAccountData}
use external_signature_progr.State.P256Webauthn.Scheme
use external_signature_progr.State.P256Webauthn.Scheme.Verify.{verify_payload_exact}
use external_signature_progr.Utils.Instructions.{CompiledInstruction}
use external_signature_progr.Utils.Sha256.{hash}
use external_signature_progr.World.{World}
use external_signature_progr.World.Laws.{bind-ok, bind-lift-ok}

module _ (rt : Runtime) (b : Borsh) where
  load_context-ok :
      (x i s n : AccountInfo) (execution_accounts : List AccountInfo)
      (args : ExecutableInstructionArgs) (w : World) (c : ExecuteInstructionsContext)
      (d : P256WebauthnAccountData)
      → IsContext rt b x i s n execution_accounts args w c
      → data_ref rt c.externally_signed_account w.accounts ≡ ok d
      → load_context rt b x i s n execution_accounts args w ≡ ok (c, w)
  unfolding load_context
  load_context-ok x i s n execution_accounts args w c d k read =
      let self = c.externally_signed_account in
      let made : (is : List CompiledInstruction)
          → List AccountInfo
          → List AccountMeta
          → ExecuteInstructionsContext =
        λ is infos metas. record c {
          instruction_execution_accounts = infos;
          instructions = is;
          instruction_execution_account_metas = metas;
        } in
      bind-lift-ok _ _ w k.extra
      ∙ bind-ok (Account.load rt x) _ w (load-ok rt x self w d k.loaded read)
      ∙ bind-ok (Account.check_account rt self c.verification_data) _ w
          (check_account-ok rt self c.verification_data w d k.seeds read k.derived)
      ∙ bind-lift-ok _ _ w k.sysvar
      ∙ bind-lift-ok _ _ w k.slothashes
      ∙ bind-lift-ok _ _ w k.nonce
      ∙ bind-lift-ok _ _ w (ap (ok_or (into invalid_signer_execution_scheme)) k.execution_scheme)
      ∙ bind-ok (Account.get_execution_account rt self k.scheme) _ w k.signer
      ∙ (λ j. ok (made (sym k.instructions j) (sym k.accounts j) (sym k.metas j), w))

  module _ (infos : List AccountInfo) (input : Bytes) (w w' : World)
      (hash_length : (bs : Bytes) → length (hash rt bs) ≡ 32) where
    process_execute_instructions-ok :
        IsAuthorized rt b infos input w w'
        → process_execute_instructions rt b infos input w ≡ ok (tt, w')
    unfolding process_execute_instructions load get_instruction_payload_hash Account.verify_payload
    process_execute_instructions-ok a =
        let c = a.context in
        let self = c.externally_signed_account in
        let payload_hash : Errors.◌>>=◌
              (execute_payload b c.nonce_data c.instruction_execution_accounts c.instructions)
              (λ payload. Errors.ok (hash rt payload))
            ≡ ok (hash rt a.payload) =
          rw a.signed refl in
        let verified =
          (verify_payload_exact rt c.instructions_sysvar a.before c.verification_data
              (hash rt a.payload) a.after hash_length).1
            a.verified in
        bind-lift-ok _ _ w (ap (ok_or (into invalid_execution_args)) a.parsed)
        ∙ bind-lift-ok _ _ w (ap (ok_or (into invalid_signature_scheme)) a.signature_scheme)
        ∙ bind-ok (load rt b infos a.args) _ w (
            ap (λ l. load rt b l a.args w) a.listed
            ∙ load_context-ok a.external_account a.instructions_info a.slothashes_info
                a.nonce_signer a.execution_accounts a.args w c a.before a.checked a.read)
        ∙ bind-lift-ok _ _ w payload_hash
        ∙ bind-ok
            (Account.verify_payload rt self c.instructions_sysvar c.verification_data
              (hash rt a.payload))
            _ w
            (with_data-ok rt self
              (λ d.
                Scheme.verify_payload rt c.instructions_sysvar d c.verification_data
                  (hash rt a.payload))
              w a.before a.after a.read verified)
        ∙ a.ran

    -- With 32-byte hashes, an execution takes w to w' exactly when the account's passkey
    -- authorized it and its instructions ran to w': the arguments parse; the account is the
    -- program's and its address follows from the verification data; the nonce is valid for the
    -- nonce signer; the transaction's first instruction verified a WebAuthn assertion, by the
    -- account's key, over the hash of the payload for that nonce, those accounts and those
    -- instructions; and the instructions of the arguments, signed for by the account's seeds, run
    -- to w' from the state in which the counter was updated.
    pub process_execute_instructions_exact :
        (process_execute_instructions rt b infos input w ≡ ok (tt, w'))
        ↔ IsAuthorized rt b infos input w w'
    process_execute_instructions_exact = (
      process_execute_instructions-IsAuthorized rt b infos input w w',
      process_execute_instructions-ok,
    )
