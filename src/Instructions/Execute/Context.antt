-- ===== src/Instructions/Execute/Context.antt =====
-- A loaded context (src/instructions/execute_instructions.rs).
use external_signature_progr.Base.{◌≡◌, refl, List, [], ◌∷◌, some}
use external_signature_progr.Borsh.{Borsh}
use external_signature_progr.Errors.{ok, into, ok_or, invalid_signer_execution_scheme}
use external_signature_progr.Errors.Laws.{ok_or-eq-ok}
use external_signature_progr.Instructions.Execute.{
  ExecutableInstructionArgs, ExecuteInstructionsContext, parse_extra_verification_data,
  load_context, load,
}
use external_signature_progr.Runtime.{Runtime, AccountInfo}
use external_signature_progr.State.{SignerExecutionScheme, signer_execution_scheme_try_from}
use external_signature_progr.State.Account
use external_signature_progr.State.Account.{ExternallySignedAccount, data_ref}
use external_signature_progr.State.Account.View.{
  IsLoaded, load-eq-ok, check_account-eq-ok, get_execution_account-eq-ok,
}
use external_signature_progr.State.P256Webauthn.{AccountSeeds}
use external_signature_progr.State.P256Webauthn.Scheme
use external_signature_progr.Utils.Instructions.{create_instruction_execution_account_metas}
use external_signature_progr.Utils.Nonce.{validate_nonce}
use external_signature_progr.Utils.SlotHashes
use external_signature_progr.Utils.SlotHashes.{SlotHashes}
use external_signature_progr.World.{World}
use mathlib.Core.Path.{subst}
use external_signature_progr.World.Laws.{bind-lift-eq-ok, bind-reads-eq-ok, pure-eq-ok}

module _ (rt : Runtime) (b : Borsh) where
  -- A context that `load` has checked, in the world `w`.
  pub record IsContext
      (external_account instructions_info slothashes_info nonce_signer : AccountInfo)
      (execution_accounts : List AccountInfo) (args : ExecutableInstructionArgs) (w : World)
      (c : ExecuteInstructionsContext) : Type 0 where
    pub table : SlotHashes
    pub seeds : AccountSeeds
    pub scheme : SignerExecutionScheme
    pub extra :
        parse_extra_verification_data rt b args.extra_verification_data ≡ ok c.verification_data
    pub loaded : IsLoaded rt external_account w c.externally_signed_account
    pub derived :
        Scheme.check_account rt c.externally_signed_account.account_info c.verification_data
        ≡ ok seeds
    pub sysvar : rt.instructions instructions_info ≡ ok c.instructions_sysvar
    pub slothashes : SlotHashes.try_from slothashes_info w.accounts ≡ ok table
    pub nonce : validate_nonce rt table args.slothash nonce_signer ≡ ok c.nonce_data
    pub execution_scheme :
        signer_execution_scheme_try_from args.signer_execution_scheme ≡ some scheme
    pub signer :
        Account.get_execution_account rt c.externally_signed_account scheme w
        ≡ ok (c.execution_account, w)
    pub accounts : c.instruction_execution_accounts ≡ execution_accounts
    pub instructions : c.instructions ≡ args.instructions
    pub metas :
        c.instruction_execution_account_metas
        ≡ create_instruction_execution_account_metas execution_accounts c.execution_account scheme

  load_context-IsContext :
      (x i s n : AccountInfo) (execution_accounts : List AccountInfo)
      (args : ExecutableInstructionArgs) (w : World) (c : ExecuteInstructionsContext) (w' : World)
      → load_context rt b x i s n execution_accounts args w ≡ ok (c, w')
      → IsContext x i s n execution_accounts args w c × (w ≡ w')
  unfolding load_context
  load_context-IsContext x i s n execution_accounts args w c w' e =
      let (extra, e1, k1) =
        bind-lift-eq-ok (parse_extra_verification_data rt b args.extra_verification_data) _ w e in
      let (self, e2, k2) =
        bind-reads-eq-ok (Account.load rt x) _ w (λ a v h. (load-eq-ok rt x w a v h).1) k1 in
      let (seeds, e3, k3) =
        bind-reads-eq-ok (Account.check_account rt self extra) _ w
          (λ a v h. (check_account-eq-ok rt self extra w a v h).1) k2 in
      let (ixs, e4, k4) = bind-lift-eq-ok (rt.instructions i) _ w k3 in
      let (table, e5, k5) = bind-lift-eq-ok (SlotHashes.try_from s w.accounts) _ w k4 in
      let (nonce, e6, k6) = bind-lift-eq-ok (validate_nonce rt table args.slothash n) _ w k5 in
      let (scheme, e7, k7) =
        bind-lift-eq-ok
          (ok_or (into invalid_signer_execution_scheme)
            (signer_execution_scheme_try_from args.signer_execution_scheme))
          _ w k6 in
      let (execution, e8, k8) =
        bind-reads-eq-ok (Account.get_execution_account rt self scheme) _ w
          (λ a v h. get_execution_account-eq-ok rt self scheme w a v h) k7 in
      let (built, same) = pure-eq-ok _ w k8 in
      (
        subst (λ made. IsContext x i s n execution_accounts args w made) built
            (record {
              table = table;
              seeds = seeds;
              scheme = scheme;
              extra = e1;
              loaded = (load-eq-ok rt x w self w e2).0;
              derived = (check_account-eq-ok rt self extra w seeds w e3).0;
              sysvar = e4;
              slothashes = e5;
              nonce = e6;
              execution_scheme = ok_or-eq-ok _ _ e7;
              signer = e8;
              accounts = refl;
              instructions = refl;
              metas = refl;
            }),
        same,
      )

  pub load-IsContext :
      (infos : List AccountInfo) (args : ExecutableInstructionArgs) (w : World)
      (c : ExecuteInstructionsContext) (w' : World)
      → load rt b infos args w ≡ ok (c, w')
      → (x : AccountInfo) × (i : AccountInfo) × (s : AccountInfo) × (n : AccountInfo) × (rest : List
          AccountInfo)
        × (infos ≡ x ∷ i ∷ s ∷ n ∷ rest)
        × IsContext x i s n rest args w c
        × (w ≡ w')
  unfolding load
  load-IsContext [] args w c w' e = cc
  load-IsContext (_ ∷ []) args w c w' e = cc
  load-IsContext (_ ∷ _ ∷ []) args w c w' e = cc
  load-IsContext (_ ∷ _ ∷ _ ∷ []) args w c w' e = cc
  load-IsContext (x ∷ i ∷ s ∷ n ∷ rest) args w c w' e =
      let (checked, same) = load_context-IsContext x i s n rest args w c w' e in
      (x, i, s, n, rest, refl, checked, same)

  pub load_keeps :
      (infos : List AccountInfo) (args : ExecutableInstructionArgs) (w : World)
      (c : ExecuteInstructionsContext) (w' : World)
      → load rt b infos args w ≡ ok (c, w')
      → w ≡ w'
  load_keeps infos args w c w' e =
      let (x, i, s, n, rest, _, _, same) = load-IsContext infos args w c w' e in same
