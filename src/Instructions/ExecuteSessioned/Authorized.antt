-- ===== src/Instructions/ExecuteSessioned/Authorized.antt =====
-- What stands behind a sessioned execution that succeeds
-- (src/instructions/execute_instructions_sessioned.rs).
use external_signature_progr.Base.{ℕ, ◌≤◌, ◌≡◌, true, refl, sym, List, [], ◌∷◌, Bytes, some}
use external_signature_progr.Borsh.{Borsh}
use external_signature_progr.Errors.{
  ok, into, ok_or, invalid_execution_args, invalid_signature_scheme,
  invalid_signer_execution_scheme,
}
use external_signature_progr.Errors.Laws.{ok_or-eq-ok, >>=-eq-ok}
use external_signature_progr.Instructions.ExecuteSessioned.{
  ExecutableInstructionSessionedArgs, args_codec, ExecuteInstructionsSessionedContext, load_context,
  load, process_execute_instructions_sessioned,
}
use external_signature_progr.Instructions.Invoke.{invoke_instructions}
use external_signature_progr.Runtime.{Runtime, AccountInfo}
use external_signature_progr.State.{
  ExecutionAccount, SignerExecutionScheme, SignatureScheme, signature_scheme_try_from,
  signer_execution_scheme_try_from, to_signer_seeds,
}
use external_signature_progr.State.Account
use external_signature_progr.State.Account.{ExternallySignedAccount, data_ref}
use external_signature_progr.State.Account.View.{
  IsLoaded, load-eq-ok, is_valid_session_key-eq-ok, get_execution_account-eq-ok,
}
use external_signature_progr.State.P256Webauthn.{P256WebauthnAccountData}
use external_signature_progr.State.P256Webauthn.Scheme
use external_signature_progr.State.P256Webauthn.Scheme.Session.{is_valid_session_key_exact}
use external_signature_progr.Utils.Instructions.{create_instruction_execution_account_metas}
use external_signature_progr.World.{World}
use external_signature_progr.World.Laws.{bind-lift-eq-ok, bind-reads-eq-ok, pure-eq-ok}
use mathlib.Core.Path.{subst}

module _ (rt : Runtime) (b : Borsh) where
  -- What stands behind a sessioned run on `infos` from `w` to `w'`: the account's session key
  -- signed and has not expired, and the instructions ran as the account that the arguments choose.
  pub record IsSessionAuthorized (infos : List AccountInfo) (input : Bytes) (w w' : World)
      : Type 0 where
    pub external_account : AccountInfo
    pub session_signer : AccountInfo
    pub execution_accounts : List AccountInfo
    pub listed : infos ≡ external_account ∷ session_signer ∷ execution_accounts
    pub args : ExecutableInstructionSessionedArgs
    pub parsed :
        b.try_from_slice ExecutableInstructionSessionedArgs (args_codec b) input ≡ some args
    pub known : SignatureScheme
    pub signature_scheme : signature_scheme_try_from args.signature_scheme ≡ some known
    pub scheme : SignerExecutionScheme
    pub execution_scheme :
        signer_execution_scheme_try_from args.signer_execution_scheme ≡ some scheme
    pub self : ExternallySignedAccount
    pub loaded : IsLoaded rt external_account w self
    pub stored : P256WebauthnAccountData
    pub read : data_ref rt self w.accounts ≡ ok stored
    pub now : ℕ
    pub clock : rt.clock ≡ ok now
    pub is_signer : session_signer.is_signer ≡ true
    pub by_key : stored.session_key.key ≡ session_signer.key
    pub live : now ≤ stored.session_key.expiration
    pub execution : ExecutionAccount
    pub executing : Account.get_execution_account rt self scheme w ≡ ok (execution, w)
    pub ran :
        invoke_instructions rt
          (create_instruction_execution_account_metas execution_accounts execution scheme)
          execution_accounts
          (to_signer_seeds execution)
          args.instructions
          w
        ≡ ok (tt, w')

  clock-ok :
      (d : P256WebauthnAccountData) (signer : AccountInfo)
      → Scheme.is_valid_session_key rt d signer ≡ ok tt
      → (now : ℕ) × (rt.clock ≡ ok now)
  unfolding Scheme.is_valid_session_key
  clock-ok d signer e = let (now, clock, _) = >>=-eq-ok rt.clock _ e in (now, clock)

  -- What stands behind a context that `load` returns.
  record IsContext (infos : List AccountInfo) (args : ExecutableInstructionSessionedArgs)
      (w : World) (c : ExecuteInstructionsSessionedContext) : Type 0 where
    external_account : AccountInfo
    session_signer : AccountInfo
    execution_accounts : List AccountInfo
    listed : infos ≡ external_account ∷ session_signer ∷ execution_accounts
    scheme : SignerExecutionScheme
    execution_scheme : signer_execution_scheme_try_from args.signer_execution_scheme ≡ some scheme
    self : ExternallySignedAccount
    loaded : IsLoaded rt external_account w self
    stored : P256WebauthnAccountData
    read : data_ref rt self w.accounts ≡ ok stored
    valid : Scheme.is_valid_session_key rt stored session_signer ≡ ok tt
    execution : ExecutionAccount
    executing : Account.get_execution_account rt self scheme w ≡ ok (execution, w)
    made : c ≡ record {
      externally_signed_account = self;
      session_signer = session_signer;
      instruction_execution_accounts = execution_accounts;
      execution_account = execution;
      instructions = args.instructions;
      instruction_execution_account_metas =
          create_instruction_execution_account_metas execution_accounts execution scheme;
    }

  load_context-IsContext :
      (x s : AccountInfo) (rest : List AccountInfo) (args : ExecutableInstructionSessionedArgs)
      (w : World) (c : ExecuteInstructionsSessionedContext) (w' : World)
      → load_context rt x s rest args w ≡ ok (c, w')
      → IsContext (x ∷ s ∷ rest) args w c × (w ≡ w')
  unfolding load_context
  load_context-IsContext x s rest args w c w' e =
      let (self, e1, k1) =
        bind-reads-eq-ok (Account.load rt x) _ w (λ a v h. (load-eq-ok rt x w a v h).1) e in
      let (_, e2, k2) =
        bind-reads-eq-ok (Account.is_valid_session_key rt self s) _ w
          (λ a v h. let (_, _, _, same) = is_valid_session_key-eq-ok rt self s w h in same) k1 in
      let (d, read, valid, _) = is_valid_session_key-eq-ok rt self s w e2 in
      let (scheme, e3, k3) =
        bind-lift-eq-ok
          (ok_or (into invalid_signer_execution_scheme)
            (signer_execution_scheme_try_from args.signer_execution_scheme))
          _ w k2 in
      let (execution, e4, k4) =
        bind-reads-eq-ok (Account.get_execution_account rt self scheme) _ w
          (λ a v h. get_execution_account-eq-ok rt self scheme w a v h) k3 in
      let (built, same) = pure-eq-ok _ w k4 in
      (
        record {
          external_account = x;
          session_signer = s;
          execution_accounts = rest;
          listed = refl;
          scheme = scheme;
          execution_scheme = ok_or-eq-ok _ _ e3;
          self = self;
          loaded = (load-eq-ok rt x w self w e1).0;
          stored = d;
          read = read;
          valid = valid;
          execution = execution;
          executing = e4;
          made = sym built;
        },
        same,
      )

  load-IsContext :
      (infos : List AccountInfo) (args : ExecutableInstructionSessionedArgs) (w : World)
      (c : ExecuteInstructionsSessionedContext) (w' : World)
      → load rt infos args w ≡ ok (c, w')
      → IsContext infos args w c × (w ≡ w')
  unfolding load
  load-IsContext [] args w c w' e = cc
  load-IsContext (_ ∷ []) args w c w' e = cc
  load-IsContext (x ∷ s ∷ rest) args w c w' e = load_context-IsContext x s rest args w c w' e

  -- A sessioned execution that succeeds was authorized by the session key: the account list starts
  -- with an account of the program and the session signer; the signer signed, its key is the
  -- session key in the account's data and it has not expired; and the instructions of the
  -- arguments ran as the execution account, from the unchanged state.
  pub process_execute_instructions_sessioned-IsSessionAuthorized :
      (infos : List AccountInfo) (input : Bytes) (w w' : World)
      → process_execute_instructions_sessioned rt b infos input w ≡ ok (tt, w')
      → IsSessionAuthorized infos input w w'
  unfolding process_execute_instructions_sessioned
  process_execute_instructions_sessioned-IsSessionAuthorized infos input w w' e =
      let (args, e1, k1) =
        bind-lift-eq-ok
          (ok_or (into invalid_execution_args)
            (b.try_from_slice ExecutableInstructionSessionedArgs (args_codec b) input))
          _ w e in
      let (known, e2, k2) =
        bind-lift-eq-ok
          (ok_or (into invalid_signature_scheme) (signature_scheme_try_from args.signature_scheme))
          _ w k1 in
      let (c, e3, k3) =
        bind-reads-eq-ok (load rt infos args) _ w (λ c v h. (load-IsContext infos args w c v h).1)
          k2 in
      let (x, _) = load-IsContext infos args w c w e3 in
      let (now, clock) = clock-ok x.stored x.session_signer x.valid in
      let (signed, key, live) =
        (is_valid_session_key_exact rt now clock x.stored x.session_signer).0 x.valid in
      record {
        external_account = x.external_account;
        session_signer = x.session_signer;
        execution_accounts = x.execution_accounts;
        listed = x.listed;
        args = args;
        parsed = ok_or-eq-ok _ _ e1;
        known = known;
        signature_scheme = ok_or-eq-ok _ _ e2;
        scheme = x.scheme;
        execution_scheme = x.execution_scheme;
        self = x.self;
        loaded = x.loaded;
        stored = x.stored;
        read = x.read;
        now = now;
        clock = clock;
        is_signer = signed;
        by_key = key;
        live = live;
        execution = x.execution;
        executing = x.executing;
        ran =
            subst
              (λ (q : ExecuteInstructionsSessionedContext).
                invoke_instructions rt q.instruction_execution_account_metas
                  q.instruction_execution_accounts (to_signer_seeds q.execution_account)
                  args.instructions w
                ≡ ok (tt, w'))
              x.made k3;
      }
