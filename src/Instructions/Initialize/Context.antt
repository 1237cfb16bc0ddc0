-- ===== src/Instructions/Initialize/Context.antt =====
-- A loaded context (src/instructions/initialize_external_account.rs).
use external_signature_progr.Base.{
  ◌≡◌, refl, arith, not, if◌then◌else◌, List, [], ◌∷◌, Bytes, bytes_eq, bytes_eq_iff, length,
}
use external_signature_progr.Borsh.{Borsh}
use external_signature_progr.Errors.{ok, err, assert, invalid_account_owner}
use external_signature_progr.Errors.Laws.{assert-eq-ok}
use external_signature_progr.Instructions.Initialize.{
  InitializeAccountArgs, InitializeExternalAccountContext, parse_raw_initialization_data,
  load_context, load,
}
use external_signature_progr.Runtime.{Runtime, AccountInfo, Accounts}
use external_signature_progr.State.Account
use external_signature_progr.State.Account.{ExternallySignedAccount, data_ref}
use external_signature_progr.State.Account.View.{IsLoaded, load-eq-ok}
use external_signature_progr.State.P256Webauthn.{initialization_derive_args}
use external_signature_progr.State.P256Webauthn.Scheme
use external_signature_progr.Utils.Checks.{check_account_uninitialized}
use external_signature_progr.Utils.Nonce.{NonceData, validate_nonce}
use external_signature_progr.Utils.SlotHashes
use external_signature_progr.Utils.SlotHashes.{SlotHashes}
use external_signature_progr.World.{World}
use external_signature_progr.World.Laws.{bind-lift-eq-ok, bind-reads-eq-ok, pure-eq-ok}
use mathlib.Core.Path.{subst}

module _ (rt : Runtime) (b : Borsh) where
  -- A context that `load` has checked, in the world `w`: the account is the system program's and
  -- empty, the nonce is the rent payer's, and the account's address is derived from the public key.
  pub record IsContext
      (external_account rent_payer instructions_info slothashes_info system_program : AccountInfo)
      (args : InitializeAccountArgs) (w : World) (c : InitializeExternalAccountContext)
      : Type 0 where
    pub table : SlotHashes
    pub nonce : NonceData
    pub unowned : (w.accounts external_account.key).owner ≡ rt.system_id
    pub empty : length (w.accounts external_account.key).bytes ≡ 0
    pub loaded : IsLoaded rt external_account w c.externally_signed_account
    pub sysvar : rt.instructions instructions_info ≡ ok c.instructions_sysvar
    pub slothashes : SlotHashes.try_from slothashes_info w.accounts ≡ ok table
    pub system : system_program.key ≡ rt.system_id
    pub validated : validate_nonce rt table args.slothash rent_payer ≡ ok nonce
    pub hashed : c.slothash ≡ nonce.slothash
    pub parsed :
        parse_raw_initialization_data rt b args.initialization_data ≡ ok c.initialization_data
    pub derived :
        Scheme.derive_account rt (initialization_derive_args c.initialization_data) ≡ ok c.seeds
    pub address : external_account.key ≡ c.seeds.key
    pub payer : c.rent_payer ≡ rent_payer
    pub program : c.system_program ≡ system_program
    pub session_key : c.session_key ≡ args.session_key

  uninitialized-eq-ok :
      (x : AccountInfo) (accounts : Accounts) {u : Unit {0}}
      → check_account_uninitialized rt x accounts ≡ ok u
      → ((accounts x.key).owner ≡ rt.system_id) × (length (accounts x.key).bytes ≡ 0)
  unfolding check_account_uninitialized
  uninitialized-eq-ok x accounts h =
      ground (arith, bytes_eq_iff (accounts x.key).owner rt.system_id)

  same_key-eq-ok :
      (key other : Bytes) {u : Unit {0}}
      → (if not (bytes_eq key other) then err invalid_account_owner else ok tt) ≡ ok u
      → key ≡ other
  same_key-eq-ok key other h = ground (arith, bytes_eq_iff key other)

  load_context-IsContext :
      (x p i s y : AccountInfo) (args : InitializeAccountArgs) (w : World)
      (c : InitializeExternalAccountContext) (w' : World)
      → load_context rt b x p i s y args w ≡ ok (c, w')
      → IsContext x p i s y args w c × (w ≡ w')
  unfolding load_context
  load_context-IsContext x p i s y args w c w' e =
      let (_, e1, k1) = bind-lift-eq-ok (check_account_uninitialized rt x w.accounts) _ w e in
      let (unowned, empty) = uninitialized-eq-ok x w.accounts e1 in
      let (self, e2, k2) =
        bind-reads-eq-ok (Account.load rt x) _ w (λ a v h. (load-eq-ok rt x w a v h).1) k1 in
      let (ixs, e3, k3) = bind-lift-eq-ok (rt.instructions i) _ w k2 in
      let (table, e4, k4) = bind-lift-eq-ok (SlotHashes.try_from s w.accounts) _ w k3 in
      let (_, e5, k5) = bind-lift-eq-ok (assert (bytes_eq y.key rt.system_id)) _ w k4 in
      let (nonce, e6, k6) = bind-lift-eq-ok (validate_nonce rt table args.slothash p) _ w k5 in
      let (parsed, e7, k7) =
        bind-lift-eq-ok (parse_raw_initialization_data rt b args.initialization_data) _ w k6 in
      let (seeds, e8, k8) =
        bind-lift-eq-ok (Scheme.derive_account rt (initialization_derive_args parsed)) _ w k7 in
      let (_, e9, k9) =
        bind-lift-eq-ok
          (if not (bytes_eq x.key seeds.key) then err invalid_account_owner else ok tt) _ w k8 in
      let (built, same) = pure-eq-ok _ w k9 in
      (
        subst (λ made. IsContext x p i s y args w made) built
            (record {
              table = table;
              nonce = nonce;
              unowned = unowned;
              empty = empty;
              loaded = (load-eq-ok rt x w self w e2).0;
              sysvar = e3;
              slothashes = e4;
              system = (bytes_eq_iff y.key rt.system_id).0 (assert-eq-ok _ e5);
              validated = e6;
              hashed = refl;
              parsed = e7;
              derived = e8;
              address = same_key-eq-ok x.key seeds.key e9;
              payer = refl;
              program = refl;
              session_key = refl;
            }),
        same,
      )

  pub load-IsContext :
      (infos : List AccountInfo) (args : InitializeAccountArgs) (w : World)
      (c : InitializeExternalAccountContext) (w' : World)
      → load rt b infos args w ≡ ok (c, w')
      → (x : AccountInfo) × (p : AccountInfo) × (i : AccountInfo) × (s : AccountInfo)
        × (y : AccountInfo) × (rest : List AccountInfo) × (infos ≡ x ∷ p ∷ i ∷ s ∷ y ∷ rest)
        × IsContext x p i s y args w c
        × (w ≡ w')
  unfolding load
  load-IsContext [] args w c w' e = cc
  load-IsContext (_ ∷ []) args w c w' e = cc
  load-IsContext (_ ∷ _ ∷ []) args w c w' e = cc
  load-IsContext (_ ∷ _ ∷ _ ∷ []) args w c w' e = cc
  load-IsContext (_ ∷ _ ∷ _ ∷ _ ∷ []) args w c w' e = cc
  load-IsContext (x ∷ p ∷ i ∷ s ∷ y ∷ rest) args w c w' e =
      let (checked, same) = load_context-IsContext x p i s y args w c w' e in
      (x, p, i, s, y, rest, refl, checked, same)

  pub load_keeps :
      (infos : List AccountInfo) (args : InitializeAccountArgs) (w : World)
      (c : InitializeExternalAccountContext) (w' : World)
      → load rt b infos args w ≡ ok (c, w')
      → w ≡ w'
  load_keeps infos args w c w' e =
      let (_, _, _, _, _, _, _, _, same) = load-IsContext infos args w c w' e in same
