-- ===== src/Ledger/Provenance.antt =====
-- Where the accounts that hold data come from.
use external_signature_progr.Base.{
  ℕ, ◌≡◌, sym, Bytes, Pubkey, List, ◌∷◌, ◌⊎◌, inl, inr, same_or_other,
}
use external_signature_progr.Borsh.{Borsh}
use external_signature_progr.Borsh.Laws.{IsBorsh}
use external_signature_progr.Errors.{ok}
use external_signature_progr.Instructions.Execute.Authorized.{
  process_execute_instructions-IsAuthorized,
}
use external_signature_progr.Instructions.ExecuteSessioned.Authorized.{
  process_execute_instructions_sessioned-IsSessionAuthorized,
}
use external_signature_progr.Instructions.Invoke.Trace.{invoke_instructions_exact}
use external_signature_progr.Instructions.Refresh.Authorized.{
  process_refresh_session_key-IsAuthorized,
}
use external_signature_progr.Ledger.Enrolled.{IsHolding}
use external_signature_progr.Ledger.Founded.{
  IsFounded, process_initialize_external_account-IsFounded,
}
use external_signature_progr.Entrypoint.{process_instruction}
use external_signature_progr.Instructions.Initialize.{process_initialize_external_account}
use external_signature_progr.Ledger.Evolution.{Evolves}
use external_signature_progr.Ledger.Handlers.{Runs-keeps}
use external_signature_progr.Ledger.History.{
  Handled, initialized, executed, refreshed, executed_sessioned, History,
}
use external_signature_progr.Ledger.Rules.{IsRuntime}
use external_signature_progr.Runtime.{Runtime, AccountInfo, Accounts}
use external_signature_progr.State.{to_signer_seeds}
use external_signature_progr.State.Account.View.{written}
use external_signature_progr.State.P256Webauthn.{P256WebauthnAccountData}
use external_signature_progr.Utils.Instructions.{create_instruction_execution_account_metas}
use external_signature_progr.World.{World}
use external_signature_progr.Ledger.Vacant.{
  IsVacant, IsUntouched-IsVacant, IsForeign-IsVacant, written-IsVacant,
}
use mathlib.Core.Path.{subst}

-- Between `a` and `a'`, an instruction of the history initialized the account `key` for its passkey,
-- and the data that the account holds since have come from what that initialization left by
-- executions and refreshes that the passkey authorized.
pub record IsOriginal (at : ℕ → Runtime) (b : Borsh) (id : Pubkey) (key : Pubkey) (a a' : Accounts)
    : Type 0 where
  pub moment : ℕ
  pub infos : List AccountInfo
  pub input : Bytes
  pub w : World
  pub w' : World
  pub before : History at b id a w.accounts
  pub ran : process_instruction (at moment) b infos (0 ∷ input) w ≡ ok (tt, w')
  pub made : IsFounded (at moment) b infos input w w'
  pub there : made.account.key ≡ key
  pub holding : P256WebauthnAccountData
  pub holds : IsHolding id holding (a' key)
  pub since : Evolves at b id key w'.accounts made.holding a' holding

-- An initialization of the account `key`.
abbrev pub Makes : Runtime → Borsh → List AccountInfo → World → World → Pubkey → Type 0
Makes rt b infos w w' key =
    (input : Bytes) × (process_initialize_external_account rt b infos input w ≡ ok (tt, w'))
    × (made : IsFounded rt b infos input w w') × (made.account.key ≡ key)

module _ (at : ℕ → Runtime) (b : Borsh) (n : ℕ) (rules : IsRuntime (at n)) (laws : IsBorsh b)
    (infos : List AccountInfo) (w w' : World) (key : Pubkey) where
  abbrev rt : Runtime
  rt = at n

  -- Only an initialization of its own fills a vacant account.
  pub Handled-IsVacant :
      Handled rt b infos w w'
      → IsVacant rt.id (w.accounts key)
      → IsVacant rt.id (w'.accounts key) ⊎ Makes rt b infos w w' key
  Handled-IsVacant (executed input e) v =
      let a = process_execute_instructions-IsAuthorized rt b infos input w w' e in
      let c = a.context in
      let middle = written w c.externally_signed_account a.after in
      let runs =
        (invoke_instructions_exact rt c.instruction_execution_account_metas
            c.instruction_execution_accounts (to_signer_seeds c.execution_account)
            a.args.instructions middle w').0
          a.ran in
      inl (
        Runs-keeps rt rules key _ _ _ (IsVacant rt.id) _ middle w' (IsForeign-IsVacant rt.id) runs (
          written-IsVacant rt a.external_account w w c.externally_signed_account a.before a.after
            key a.checked.loaded a.read v v))
  Handled-IsVacant (executed_sessioned input e) v =
      let a = process_execute_instructions_sessioned-IsSessionAuthorized rt b infos input w w' e in
      let runs =
        (invoke_instructions_exact rt
            (create_instruction_execution_account_metas a.execution_accounts a.execution a.scheme)
            a.execution_accounts (to_signer_seeds a.execution) a.args.instructions w w').0
          a.ran in
      inl (Runs-keeps rt rules key _ _ _ (IsVacant rt.id) _ w w' (IsForeign-IsVacant rt.id) runs v)
  Handled-IsVacant (refreshed input e) v =
      let a = process_refresh_session_key-IsAuthorized rt b infos input w w' e in
      let self = a.context.externally_signed_account in
      let first =
        written-IsVacant rt a.external_account w w self a.before a.after key a.checked.loaded a.read
          v v in
      inl (
        subst (λ (q : World). IsVacant rt.id (q.accounts key)) (sym a.wrote)
          (written-IsVacant rt a.external_account w (written w self a.after) self a.before
            a.refreshed key a.checked.loaded a.read v first))
  Handled-IsVacant (initialized input e) v =
      let f = process_initialize_external_account-IsFounded rt b infos input w w' rules laws e in
      elim (same_or_other f.account.key key) [
        | inl same ↦ inr (input, e, f, same)
        | inr other ↦ inl (
            IsUntouched-IsVacant rt.id (w.accounts key) (w'.accounts key) (f.elsewhere key other) v)
      ]
