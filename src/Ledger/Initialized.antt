-- ===== src/Ledger/Initialized.antt =====
-- What an initialization leaves: the account it makes, and the accounts that were there
-- (src/instructions/initialize_external_account.rs).
use external_signature_progr.Base.{
  ◌≡◌, ◌≢◌, refl, sym, ap, ◌∙◌, arith, Bytes, Pubkey, List, ◌∷◌, drop, length, bytes_eq_refl,
  bytes_eq_ne,
}
use external_signature_progr.Borsh.{Borsh}
use external_signature_progr.Instructions.Initialize.Fresh.{IsInitialized}
use external_signature_progr.Ledger.Creation.{
  IsCreated, create_and_allocate-IsCreated, IsFilled, initialize_account-IsFilled,
}
use external_signature_progr.Ledger.Enrolled.{IsEnrolled, IsUntouched-IsHolding}
use external_signature_progr.Ledger.Founding.{blank, blank-IsCurrent, encode-blank}
use external_signature_progr.Ledger.Rules.{
  IsRuntime, IsUntouched, IsUntouched-trans, IsUntouched-same,
}
use external_signature_progr.Runtime.{Runtime, AccountInfo, AccountState}
use external_signature_progr.State.Account.{ExternallySignedAccount}
use external_signature_progr.State.P256Webauthn.{P256WebauthnAccountData, seeds}
use external_signature_progr.State.P256Webauthn.Layout.{encode}
use external_signature_progr.State.P256Webauthn.Scheme
use external_signature_progr.World.{World}

module _ (rt : Runtime) (rules : IsRuntime rt) (b : Borsh) (infos : List AccountInfo)
    (input : Bytes) (w w' : World) (a : IsInitialized rt b infos input w w') where
  abbrev pub target : Pubkey
  target = a.context.externally_signed_account.account_info.key

  pub target_key : target ≡ a.external_account.key
  target_key = ap (λ (i : AccountInfo). i.key) a.checked.loaded.account

  pub creation : IsCreated rt a.context w a.self a.created
  creation = create_and_allocate-IsCreated rt a.context w a.self a.created a.creation

  pub filling :
      IsFilled rt a.self a.context.initialization_data a.context.session_key a.created a.filled
  filling =
      initialize_account-IsFilled rt a.self a.context.initialization_data a.context.session_key
        a.created a.filled a.filling

  pub self_key : a.self.account_info.key ≡ target
  self_key = ap (λ (s : ExternallySignedAccount). s.account_info.key) creation.wrapper

  -- Any other account is left.
  pub initialized-IsUntouched :
      (key : Pubkey) → target ≢ key → IsUntouched (w.accounts key) (w'.accounts key)
  initialized-IsUntouched key other =
      let c = creation in
      let f = filling in
      let elsewhere : a.self.account_info.key ≢ key = λ same. other (sym self_key ∙ same) in
      let (_, _, spaced) =
        rules.allocates target Scheme.size (seeds a.context.seeds) c.paid c.spaced c.allocated in
      let (_, _, owned) =
        rules.assigns target rt.id (seeds a.context.seeds) c.spaced c.owned c.assigned in
      let headed : f.headed.accounts key ≡ c.owned key =
        ap (λ (q : World). q.accounts key) f.header
        ∙ rw (bytes_eq_ne a.self.account_info.key key elsewhere) refl
        ∙ ap (λ (q : World). q.accounts key) c.accounts in
      let filled : a.filled.accounts key ≡ f.headed.accounts key =
        ap (λ (q : World). q.accounts key) f.wrote
        ∙ rw (bytes_eq_ne a.self.account_info.key key elsewhere) refl in
      let last : w'.accounts key ≡ a.filled.accounts key =
        ap (λ (q : World). q.accounts key) a.wrote
        ∙ rw (bytes_eq_ne a.self.account_info.key key elsewhere) refl in
      IsUntouched-trans (w.accounts key) (c.paid key) (w'.accounts key)
        (rules.transfers a.context.rent_payer.key target c.lamports w.accounts c.paid c.transferred
          key)
        (IsUntouched-trans (c.paid key) (c.spaced key) (w'.accounts key) (spaced key other) (
          IsUntouched-trans (c.spaced key) (c.owned key) (w'.accounts key) (owned key other)
            (IsUntouched-same (c.owned key) (w'.accounts key) (last ∙ filled ∙ headed))))

  -- An account that already holds data is another one.
  pub initialized-elsewhere :
      (key : Pubkey) (d : P256WebauthnAccountData)
      → IsEnrolled rt.id w.accounts key d
      → IsEnrolled rt.id w'.accounts key d
  initialized-elsewhere key d h =
      let other : target ≢ key = λ same. absurd (
        omega (
          arith,
          h.size,
          a.checked.empty,
          ap (λ (k : Pubkey). length (w.accounts k).bytes) (sym target_key ∙ same),
        )) in
      IsUntouched-IsHolding rt.id d (w.accounts key) (w'.accounts key)
        (initialized-IsUntouched key other) h

  -- The new account, once its header stands.
  pub headed-IsEnrolled : IsEnrolled rt.id filling.headed.accounts a.self.account_info.key blank
  headed-IsEnrolled =
      let c = creation in
      let key = a.self.account_info.key in
      let (_, zeros, _) =
        rules.allocates target Scheme.size (seeds a.context.seeds) c.paid c.spaced c.allocated in
      let (owner, kept, _) =
        rules.assigns target rt.id (seeds a.context.seeds) c.spaced c.owned c.assigned in
      let state : a.created.accounts key ≡ c.owned target =
        ap (λ (q : World). q.accounts key) c.accounts ∙ ap c.owned self_key in
      let written : filling.headed.accounts key ≡ record (a.created.accounts key) {
        bytes = Scheme.version ∷ (Scheme.scheme ∷ drop 2 (a.created.accounts key).bytes);
      } =
        ap (λ (q : World). q.accounts key) filling.header ∙ rw (bytes_eq_refl key) refl in
      let bytes : (filling.headed.accounts key).bytes ≡ encode blank =
        ap (λ (s : AccountState). s.bytes) written
        ∙ ap (λ (bs : Bytes). Scheme.version ∷ (Scheme.scheme ∷ drop 2 bs))
            (ap (λ (s : AccountState). s.bytes) state ∙ kept ∙ zeros)
        ∙ sym encode-blank in
      record {
        owned =
            ap (λ (s : AccountState). s.owner) written
            ∙ ap (λ (s : AccountState). s.owner) state
            ∙ owner;
        size = ap length (bytes ∙ encode-blank);
        holds = bytes;
        current = blank-IsCurrent;
      }
