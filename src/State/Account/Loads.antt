-- ===== src/State/Account/Loads.antt =====
-- When the operations on an account succeed (src/state/externally_signed_account/account.rs).
use external_signature_progr.Base.{
  ℕ, zero, suc, take, ◌==◌, ◌≡◌, refl, sym, arith, true, false, length, [], ◌∷◌, Bytes, bytes_eq,
  bytes_eq_iff,
}
use external_signature_progr.Errors.{Result, ok, slice}
use external_signature_progr.Errors.Laws.{>>=-eq-ok}
use external_signature_progr.Runtime.{Runtime, AccountInfo}
use external_signature_progr.State.Account
use external_signature_progr.State.Account.{
  ExternallySignedAccount, data_ref, header, bytes_of, with_data, write_data,
}
use external_signature_progr.State.Account.View.{IsLoaded, written}
use external_signature_progr.State.P256Webauthn.{
  P256WebauthnAccountData, P256ParsedVerificationData, AccountSeeds,
}
use external_signature_progr.State.P256Webauthn.Scheme
use external_signature_progr.World.{World}
use mathlib.Core.Path.{subst}

slice-nonempty :
    (n : ℕ) (bs : Bytes) {head : Bytes} → slice (take n bs) 0 4 ≡ ok head → (length bs == 0) ≡ false
unfolding slice
slice-nonempty zero [] e = cc
slice-nonempty (suc n) [] e = cc
slice-nonempty n (x ∷ bs) e = ground arith

module _ (rt : Runtime) where
  -- Data that can be read is not empty.
  data_ref-nonempty :
      (self : ExternallySignedAccount) (w : World) (d : P256WebauthnAccountData)
      → data_ref rt self w.accounts ≡ ok d
      → (length (w.accounts self.account_info.key).bytes == 0) ≡ false
  unfolding data_ref header bytes_of
  data_ref-nonempty self w d e =
      let (_, found, _) = >>=-eq-ok (header self w.accounts) _ e in
      let (_, cut, _) = >>=-eq-ok (slice (bytes_of self w.accounts) 0 4) _ found in
      slice-nonempty self.len (w.accounts self.account_info.key).bytes cut

  pub load-ok :
      (info : AccountInfo) (self : ExternallySignedAccount) (w : World)
      (d : P256WebauthnAccountData)
      → IsLoaded rt info w self
      → data_ref rt self w.accounts ≡ ok d
      → Account.load rt info w ≡ ok (self, w)
  unfolding Account.load
  load-ok info self w d loaded read =
      let there = data_ref-nonempty self w d read in
      let here : (length (w.accounts info.key).bytes == 0) ≡ false =
        subst (λ (i : AccountInfo). (length (w.accounts i.key).bytes == 0) ≡ false) loaded.account
          there in
      let owned : bytes_eq (w.accounts info.key).owner rt.id ≡ true =
        ground (arith, loaded.owned, here, bytes_eq_iff (w.accounts info.key).owner rt.id) in
      let same : ok (record { account_info = info; len = length (w.accounts info.key).bytes }, w)
          ≡ ok (self, w) =
        rw (sym loaded.whole, sym loaded.account) refl in
      rw (here, owned) same

  pub check_account-ok :
      (self : ExternallySignedAccount) (args : P256ParsedVerificationData) (w : World)
      (d : P256WebauthnAccountData) (seeds : AccountSeeds)
      → data_ref rt self w.accounts ≡ ok d
      → Scheme.check_account rt self.account_info args ≡ ok seeds
      → Account.check_account rt self args w ≡ ok (seeds, w)
  unfolding Account.check_account
  check_account-ok self args w d seeds read checked = rw (read, checked) refl

  pub with_data-ok :
      (self : ExternallySignedAccount)
      (method : P256WebauthnAccountData → Result P256WebauthnAccountData) (w : World)
      (d d' : P256WebauthnAccountData)
      → data_ref rt self w.accounts ≡ ok d
      → method d ≡ ok d'
      → with_data rt self method w ≡ ok (tt, written w self d')
  unfolding with_data write_data
  with_data-ok self method w d d' read changed = rw (read, changed) refl
