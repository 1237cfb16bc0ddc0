-- ===== src/Instructions/Execute/Authorized.antt =====
-- What stands behind an execution that succeeds
-- (src/instructions/execute_instructions.rs).
use external_signature_progr.Base.{◌≡◌, sym, List, ◌∷◌, Bytes, some}
use external_signature_progr.Borsh.{Borsh}
use external_signature_progr.Errors.{
  ok, into, ok_or, invalid_execution_args, invalid_signature_scheme,
}
use external_signature_progr.Errors.Laws.{ok_or-eq-ok, >>=-eq-ok, ok-injective}
use external_signature_progr.Instructions.Execute.{
  ExecutableInstructionArgs, args_codec, ExecuteInstructionsContext, load,
  get_instruction_payload_hash, process_execute_instructions,
}
use external_signature_progr.Instructions.Invoke.{invoke_instructions}
use external_signature_progr.Instructions.Payload.{execute_payload}
use external_signature_progr.Runtime.{Runtime, AccountInfo}
use external_signature_progr.State.{SignatureScheme, signature_scheme_try_from, to_signer_seeds}
use external_signature_progr.State.Account
use external_signature_progr.State.Account.{ExternallySignedAccount, data_ref}
use external_signature_progr.State.Account.View.{written, with_data-eq-ok}
use external_signature_progr.State.P256Webauthn.{P256WebauthnAccountData}
use external_signature_progr.State.P256Webauthn.Scheme
use external_signature_progr.State.P256Webauthn.Scheme.Verify.{
  IsVerified, verify_payload-IsVerified,
}
use external_signature_progr.Utils.Sha256.{hash}
use external_signature_progr.World.{World}
use mathlib.Core.Path.{subst}
use external_signature_progr.World.Laws.{bind-eq-ok, bind-lift-eq-ok, bind-reads-eq-ok}
use external_signature_progr.Instructions.Execute.Context.{IsContext, load-IsContext, load_keeps}

module _ (rt : Runtime) (b : Borsh) where
  -- What stands behind a successful run on the account list `infos`, from `w` to `w'`.
  pub record IsAuthorized (infos : List AccountInfo) (input : Bytes) (w w' : World) : Type 0 where
    pub external_account : AccountInfo
    pub instructions_info : AccountInfo
    pub slothashes_info : AccountInfo
    pub nonce_signer : AccountInfo
    pub execution_accounts : List AccountInfo
    pub listed :
        infos
        ≡ external_account ∷ instructions_info ∷ slothashes_info ∷ nonce_signer ∷ execution_accounts
    pub args : ExecutableInstructionArgs
    pub parsed : b.try_from_slice ExecutableInstructionArgs (args_codec b) input ≡ some args
    pub known : SignatureScheme
    pub signature_scheme : signature_scheme_try_from args.signature_scheme ≡ some known
    pub context : ExecuteInstructionsContext
    pub checked :
        IsContext rt b external_account instructions_info slothashes_info nonce_signer
          execution_accounts args w context
    pub payload : Bytes
    pub signed :
        execute_payload b context.nonce_data context.instruction_execution_accounts
          context.instructions
        ≡ ok payload
    pub before : P256WebauthnAccountData
    pub after : P256WebauthnAccountData
    pub read : data_ref rt context.externally_signed_account w.accounts ≡ ok before
    pub verified :
        IsVerified rt context.instructions_sysvar before context.verification_data
          (hash rt payload)
          after
    pub ran :
        invoke_instructions rt context.instruction_execution_account_metas
          context.instruction_execution_accounts
          (to_signer_seeds context.execution_account)
          args.instructions
          (written w context.externally_signed_account after)
        ≡ ok (tt, w')

  payload-eq-ok :
      (c : ExecuteInstructionsContext) (h : Bytes)
      → get_instruction_payload_hash rt b c ≡ ok h
      → (payload : Bytes) × (execute_payload b c.nonce_data c.instruction_execution_accounts
            c.instructions
          ≡ ok payload)
        × (h ≡ hash rt payload)
  unfolding get_instruction_payload_hash
  payload-eq-ok c h e =
      let (payload, signed, k) =
        >>=-eq-ok (execute_payload b c.nonce_data c.instruction_execution_accounts c.instructions) _
          e in
      (payload, signed, sym (ok-injective _ _ k))

  -- An execution that succeeds was authorized by the account's passkey: the arguments parse; the
  -- account is the program's and its address follows from the verification data; the nonce is
  -- valid for the nonce signer; the transaction's first instruction verified a WebAuthn assertion,
  -- by the account's key, over the hash of the payload for that nonce, those accounts and those
  -- instructions; and what ran afterwards, on the state in which the counter was updated, is the
  -- instructions of the arguments, signed for by the account's seeds.
  pub process_execute_instructions-IsAuthorized :
      (infos : List AccountInfo) (input : Bytes) (w w' : World)
      → process_execute_instructions rt b infos input w ≡ ok (tt, w')
      → IsAuthorized infos input w w'
  unfolding process_execute_instructions Account.verify_payload
  process_execute_instructions-IsAuthorized infos input w w' e =
      let (args, e1, k1) =
        bind-lift-eq-ok
          (ok_or (into invalid_execution_args)
            (b.try_from_slice ExecutableInstructionArgs (args_codec b) input))
          _ w e in
      let (known, e2, k2) =
        bind-lift-eq-ok
          (ok_or (into invalid_signature_scheme) (signature_scheme_try_from args.signature_scheme))
          _ w k1 in
      let (c, e3, k3) =
        bind-reads-eq-ok (load rt b infos args) _ w (load_keeps rt b infos args w) k2 in
      let (x, i, s, n, rest, listed, checked, _) = load-IsContext rt b infos args w c w e3 in
      let (h, e4, k4) = bind-lift-eq-ok (get_instruction_payload_hash rt b c) _ w k3 in
      let (payload, signed, hashed) = payload-eq-ok c h e4 in
      let (_, u, e5, k5) =
        bind-eq-ok
          (Account.verify_payload rt c.externally_signed_account c.instructions_sysvar
            c.verification_data h)
          _ w k4 in
      let (d, d', read, method, wrote) =
        with_data-eq-ok rt c.externally_signed_account
          (λ d. Scheme.verify_payload rt c.instructions_sysvar d c.verification_data h) w e5 in
      record {
        external_account = x;
        instructions_info = i;
        slothashes_info = s;
        nonce_signer = n;
        execution_accounts = rest;
        listed = listed;
        args = args;
        parsed = ok_or-eq-ok _ _ e1;
        known = known;
        signature_scheme = ok_or-eq-ok _ _ e2;
        context = c;
        checked = checked;
        payload = payload;
        signed = signed;
        before = d;
        after = d';
        read = read;
        verified =
            verify_payload-IsVerified rt c.instructions_sysvar d c.verification_data
              (hash rt payload) d'
              (subst
                (λ q.
                  Scheme.verify_payload rt c.instructions_sysvar d c.verification_data q ≡ ok d')
                hashed method);
        ran =
            subst
              (λ q.
                invoke_instructions rt c.instruction_execution_account_metas
                  c.instruction_execution_accounts (to_signer_seeds c.execution_account)
                  args.instructions q
                ≡ ok (tt, w'))
              wrote k5;
      }
