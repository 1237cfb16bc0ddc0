-- ===== src/Ledger/Evolution.antt =====
-- What changes the data of an account, over many transactions
-- (src/instructions/execute_instructions.rs, refresh_session_key.rs).
use external_signature_progr.Base.{
  ℕ, ◌≡◌, ◌≢◌, sym, ap, ◌∙◌, Bytes, Pubkey, List, ◌⊎◌, inl, inr, same_or_other,
}
use external_signature_progr.Borsh.{Borsh}
use external_signature_progr.Borsh.Laws.{IsBorsh}
use external_signature_progr.Instructions.Execute.Authorized.{
  IsAuthorized, process_execute_instructions-IsAuthorized,
}
use external_signature_progr.Instructions.ExecuteSessioned.Authorized.{
  process_execute_instructions_sessioned-IsSessionAuthorized,
}
use external_signature_progr.Instructions.Initialize.Fresh.{
  process_initialize_external_account-IsInitialized,
}
use external_signature_progr.Instructions.Invoke.Trace.{invoke_instructions_exact}
use external_signature_progr.Instructions.Refresh.Authorized
use external_signature_progr.Instructions.Refresh.Authorized.{
  process_refresh_session_key-IsAuthorized,
}
use external_signature_progr.Ledger.Assertions.{executed-IsEnrolled}
use external_signature_progr.Ledger.Enrolled.{
  IsEnrolled, IsForeign-IsHolding, IsUntouched-IsHolding, written-IsUntouched,
}
use external_signature_progr.Ledger.Handlers.{Runs-IsEnrolled}
use external_signature_progr.Ledger.History.{
  Handled, initialized, executed, refreshed, executed_sessioned, process_instruction-Handled,
  History, now, ran, elsewhere,
}
use external_signature_progr.Ledger.Initialized.{initialized-elsewhere}
use external_signature_progr.Ledger.Rules.{IsRuntime}
use external_signature_progr.Ledger.Sessions.{refreshed-IsEnrolled}
use external_signature_progr.Runtime.{Runtime, AccountInfo, Accounts}
use external_signature_progr.State.{to_signer_seeds}
use external_signature_progr.State.Account.View.{written}
use external_signature_progr.State.P256Webauthn.{P256WebauthnAccountData}
use external_signature_progr.Utils.Instructions.{create_instruction_execution_account_metas}
use external_signature_progr.World.{World}
use mathlib.Core.Path.{subst}

-- The data of the account `key` from one moment to a later one: they change by executions and
-- refreshes for the account that its passkey authorized, and by nothing else.
pub data Evolves (at : ℕ → Runtime) (b : Borsh) (id : Pubkey) (key : Pubkey)
    : Accounts → P256WebauthnAccountData → Accounts → P256WebauthnAccountData → Type 0 where
  done : (a : Accounts) (d : P256WebauthnAccountData) → Evolves at b id key a d a d
  aside :
      (a a' a'' : Accounts) (d d' : P256WebauthnAccountData)
      → History at b id a a'
      → IsEnrolled id a' key d
      → Evolves at b id key a' d a'' d'
      → Evolves at b id key a d a'' d'
  by_execution :
      (n : ℕ) (infos : List AccountInfo) (input : Bytes) (w w' : World) (a' : Accounts)
      (d' : P256WebauthnAccountData)
      → (a : IsAuthorized (at n) b infos input w w') → a.external_account.key ≡ key
      → Evolves at b id key w'.accounts a.after a' d'
      → Evolves at b id key w.accounts a.before a' d'
  by_refresh :
      (n : ℕ) (infos : List AccountInfo) (input : Bytes) (w w' : World) (a' : Accounts)
      (d' : P256WebauthnAccountData)
      → (a : Authorized.IsAuthorized (at n) b infos input w w') → a.external_account.key ≡ key
      → Evolves at b id key w'.accounts a.refreshed a' d'
      → Evolves at b id key w.accounts a.before a' d'

-- The steps of one instruction for an account that holds `d`.
Step :
    (ℕ → Runtime)
    → Borsh
    → ℕ
    → List AccountInfo
    → World
    → World
    → Pubkey
    → P256WebauthnAccountData
    → Type 0
Step at b n infos w w' key d =
    IsEnrolled (at n).id w'.accounts key d
    ⊎ ((input : Bytes) × (a : IsAuthorized (at n) b infos input w w') × (a.external_account.key
          ≡ key)
        × (a.before ≡ d)
        × IsEnrolled (at n).id w'.accounts key a.after)
    ⊎ ((input : Bytes) × (a : Authorized.IsAuthorized (at n) b infos input w w')
        × (a.external_account.key ≡ key)
        × (a.before ≡ d)
        × IsEnrolled (at n).id w'.accounts key a.refreshed)

module _ (at : ℕ → Runtime) (b : Borsh) (n : ℕ) (rules : IsRuntime (at n)) (laws : IsBorsh b)
    (infos : List AccountInfo) (w w' : World) (key : Pubkey) (d : P256WebauthnAccountData)
    (h : IsEnrolled (at n).id w.accounts key d) where
  abbrev rt : Runtime
  rt = at n

  executed-Step :
      (input : Bytes) → IsAuthorized rt b infos input w w' → Step at b n infos w w' key d
  unfolding Step
  executed-Step input a = elim (same_or_other a.external_account.key key) [
    | inl same ↦
        (let (found, after) = executed-IsEnrolled rt rules b infos input w w' key d a same h in
          inr (inl (input, a, same, found, after)))
    | inr other ↦
        (let c = a.context in
          let self = c.externally_signed_account in
          let w1 = written w self a.after in
          let away : self.account_info.key ≢ key =
            λ same. other (ap (λ (i : AccountInfo). i.key) (sym a.checked.loaded.account) ∙ same) in
          let kept =
            IsUntouched-IsHolding rt.id d (w.accounts key) (w1.accounts key)
              (written-IsUntouched w self a.after key away) h in
          let runs =
            (invoke_instructions_exact rt c.instruction_execution_account_metas
                c.instruction_execution_accounts (to_signer_seeds c.execution_account)
                a.args.instructions w1 w').0
              a.ran in
          inl (Runs-IsEnrolled rt rules key _ _ _ d _ w1 w' runs kept))
  ]

  refreshed-Step :
      (input : Bytes) → Authorized.IsAuthorized rt b infos input w w' → Step at b n infos w w' key d
  unfolding Step
  refreshed-Step input a = elim (same_or_other a.external_account.key key) [
    | inl same ↦
        (let (found, _, after) =
            refreshed-IsEnrolled rt rules b laws infos input w w' key d a same h in
          inr (inr (input, a, same, found, after)))
    | inr other ↦
        (let self = a.context.externally_signed_account in
          let w1 = written w self a.after in
          let w2 = written w1 self a.refreshed in
          let away : self.account_info.key ≢ key =
            λ same. other (ap (λ (i : AccountInfo). i.key) (sym a.checked.loaded.account) ∙ same) in
          let kept =
            IsUntouched-IsHolding rt.id d (w.accounts key) (w1.accounts key)
              (written-IsUntouched w self a.after key away) h in
          let kept' =
            IsUntouched-IsHolding rt.id d (w1.accounts key) (w2.accounts key)
              (written-IsUntouched w1 self a.refreshed key away) kept in
          inl (subst (λ (q : World). IsEnrolled rt.id q.accounts key d) (sym a.wrote) kept'))
  ]

  Handled-Step : Handled rt b infos w w' → Step at b n infos w w' key d
  unfolding Step
  Handled-Step (initialized input e) = inl (
      initialized-elsewhere rt rules b infos input w w'
        (process_initialize_external_account-IsInitialized rt b infos input w w' e) key d h)
  Handled-Step (executed input e) =
      executed-Step input (process_execute_instructions-IsAuthorized rt b infos input w w' e)
  Handled-Step (refreshed input e) =
      refreshed-Step input (process_refresh_session_key-IsAuthorized rt b infos input w w' e)
  Handled-Step (executed_sessioned input e) =
      let a = process_execute_instructions_sessioned-IsSessionAuthorized rt b infos input w w' e in
      let runs =
        (invoke_instructions_exact rt
            (create_instruction_execution_account_metas a.execution_accounts a.execution a.scheme)
            a.execution_accounts (to_signer_seeds a.execution) a.args.instructions w w').0
          a.ran in
      inl (Runs-IsEnrolled rt rules key _ _ _ d _ w w' runs h)

module _ (at : ℕ → Runtime) (b : Borsh) (id : Pubkey) (rules : (n : ℕ) → IsRuntime (at n))
    (same_id : (n : ℕ) → (at n).id ≡ id) (laws : IsBorsh b) (key : Pubkey) where
  -- What an account holds, and how it came from `d`.
  abbrev pub Later : Accounts → P256WebauthnAccountData → Accounts → Type 0
  Later a d a' =
      (d' : P256WebauthnAccountData) × IsEnrolled id a' key d' × Evolves at b id key a d a' d'

  -- Over any history, the data of an account change only so.
  pub History-Evolves :
      (a a' : Accounts) (d : P256WebauthnAccountData)
      → History at b id a a'
      → IsEnrolled id a key d
      → Later a d a'
  unfolding Step
  History-Evolves _ _ d (now a) h = (d, h, done a d)
  History-Evolves _ _ d (ran n infos input w w' a e r) h =
      let own : (q : P256WebauthnAccountData)
          → IsEnrolled (at n).id w'.accounts key q
          → IsEnrolled id w'.accounts key q =
        λ q. subst (λ i. IsEnrolled i w'.accounts key q) (same_id n) in
      elim (Handled-Step at b n (rules n) laws infos w w' key d
        (subst (λ i. IsEnrolled i w.accounts key d) (sym (same_id n)) h)
        (process_instruction-Handled (at n) b infos input w w' e)) [
          | inl kept ↦
              (let (d', held, rest) = History-Evolves w'.accounts a d r (own d kept) in
                let segment = ran n infos input w w' w'.accounts e (now w'.accounts) in
                (d', held, aside w.accounts w'.accounts a d d' segment (own d kept) rest))
          | inr (inl (input', x, same, found, after)) ↦
              (let (d', held, rest) = History-Evolves w'.accounts a x.after r (own x.after after) in
                (
                  d',
                  held,
                  subst (λ q. Evolves at b id key w.accounts q a d') found
                      (by_execution n infos input' w w' a d' x same rest),
                ))
          | inr (inr (input', x, same, found, after)) ↦
              (let (d', held, rest) =
                  History-Evolves w'.accounts a x.refreshed r (own x.refreshed after) in
                (
                  d',
                  held,
                  subst (λ q. Evolves at b id key w.accounts q a d') found
                      (by_refresh n infos input' w w' a d' x same rest),
                ))
        ]
  History-Evolves _ _ d (elsewhere a a' a'' f r) h =
      let kept = IsForeign-IsHolding id d (a key) (a' key) (f key) h in
      let (d', held, rest) = History-Evolves a' a'' d r kept in
      (d', held, aside a a' a'' d d' (elsewhere a a' a' f (now a')) kept rest)
