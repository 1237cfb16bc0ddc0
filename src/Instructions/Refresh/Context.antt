-- ===== src/Instructions/Refresh/Context.antt =====
-- A loaded context (src/instructions/refresh_session_key.rs).
use external_signature_progr.Base.{◌≡◌, refl, List, [], ◌∷◌}
use external_signature_progr.Borsh.{Borsh}
use external_signature_progr.Errors.{ok}
use external_signature_progr.Instructions.Refresh.{
  RefreshSessionKeyArgs, RefreshSessionKeyContext, parse_refresh_verification_data, load_context,
  load,
}
use external_signature_progr.Runtime.{Runtime, AccountInfo}
use external_signature_progr.State.Account
use external_signature_progr.State.Account.{data_ref}
use external_signature_progr.State.Account.View.{IsLoaded, load-eq-ok, check_account-eq-ok}
use external_signature_progr.State.P256Webauthn.{AccountSeeds}
use external_signature_progr.State.P256Webauthn.Scheme
use external_signature_progr.Utils.Nonce.{validate_nonce}
use external_signature_progr.Utils.SlotHashes
use external_signature_progr.Utils.SlotHashes.{SlotHashes}
use external_signature_progr.World.{World}
use external_signature_progr.World.Laws.{bind-lift-eq-ok, bind-reads-eq-ok, pure-eq-ok}
use mathlib.Core.Path.{subst}

module _ (rt : Runtime) (b : Borsh) where
  -- A context that `load` has checked, in the world `w`.
  pub record IsContext
      (external_account instructions_info slothashes_info nonce_signer : AccountInfo)
      (args : RefreshSessionKeyArgs) (w : World) (c : RefreshSessionKeyContext) : Type 0 where
    pub table : SlotHashes
    pub seeds : AccountSeeds
    pub extra : parse_refresh_verification_data rt b args.verification_data ≡ ok c.verification_data
    pub loaded : IsLoaded rt external_account w c.externally_signed_account
    pub derived :
        Scheme.check_account rt c.externally_signed_account.account_info c.verification_data
        ≡ ok seeds
    pub sysvar : rt.instructions instructions_info ≡ ok c.instructions_sysvar
    pub slothashes : SlotHashes.try_from slothashes_info w.accounts ≡ ok table
    pub nonce : validate_nonce rt table args.slothash nonce_signer ≡ ok c.nonce_data
    pub session_key : c.session_key ≡ args.session_key

  load_context-IsContext :
      (x i s n : AccountInfo) (args : RefreshSessionKeyArgs) (w : World)
      (c : RefreshSessionKeyContext) (w' : World)
      → load_context rt b x i s n args w ≡ ok (c, w')
      → IsContext x i s n args w c × (w ≡ w')
  unfolding load_context
  load_context-IsContext x i s n args w c w' e =
      let (extra, e1, k1) =
        bind-lift-eq-ok (parse_refresh_verification_data rt b args.verification_data) _ w e in
      let (self, e2, k2) =
        bind-reads-eq-ok (Account.load rt x) _ w (λ a v h. (load-eq-ok rt x w a v h).1) k1 in
      let (seeds, e3, k3) =
        bind-reads-eq-ok (Account.check_account rt self extra) _ w
          (λ a v h. (check_account-eq-ok rt self extra w a v h).1) k2 in
      let (ixs, e4, k4) = bind-lift-eq-ok (rt.instructions i) _ w k3 in
      let (table, e5, k5) = bind-lift-eq-ok (SlotHashes.try_from s w.accounts) _ w k4 in
      let (nonce, e6, k6) = bind-lift-eq-ok (validate_nonce rt table args.slothash n) _ w k5 in
      let (built, same) = pure-eq-ok _ w k6 in
      (
        subst (λ made. IsContext x i s n args w made) built
            (record {
              table = table;
              seeds = seeds;
              extra = e1;
              loaded = (load-eq-ok rt x w self w e2).0;
              derived = (check_account-eq-ok rt self extra w seeds w e3).0;
              sysvar = e4;
              slothashes = e5;
              nonce = e6;
              session_key = refl;
            }),
        same,
      )

  pub load-IsContext :
      (infos : List AccountInfo) (args : RefreshSessionKeyArgs) (w : World)
      (c : RefreshSessionKeyContext) (w' : World)
      → load rt b infos args w ≡ ok (c, w')
      → (x : AccountInfo) × (i : AccountInfo) × (s : AccountInfo) × (n : AccountInfo) × (rest : List
          AccountInfo)
        × (infos ≡ x ∷ i ∷ s ∷ n ∷ rest)
        × IsContext x i s n args w c
        × (w ≡ w')
  unfolding load
  load-IsContext [] args w c w' e = cc
  load-IsContext (_ ∷ []) args w c w' e = cc
  load-IsContext (_ ∷ _ ∷ []) args w c w' e = cc
  load-IsContext (_ ∷ _ ∷ _ ∷ []) args w c w' e = cc
  load-IsContext (x ∷ i ∷ s ∷ n ∷ rest) args w c w' e =
      let (checked, same) = load_context-IsContext x i s n args w c w' e in
      (x, i, s, n, rest, refl, checked, same)

  pub load_keeps :
      (infos : List AccountInfo) (args : RefreshSessionKeyArgs) (w : World)
      (c : RefreshSessionKeyContext) (w' : World)
      → load rt b infos args w ≡ ok (c, w')
      → w ≡ w'
  load_keeps infos args w c w' e =
      let (_, _, _, _, _, _, _, same) = load-IsContext infos args w c w' e in same
