-- ===== src/Instructions/Initialize/Fresh.antt =====
-- What stands behind an initialization that succeeds
-- (src/instructions/initialize_external_account.rs).
use external_signature_progr.Base.{◌≡◌, List, ◌∷◌, Bytes, some}
use external_signature_progr.Borsh.{Borsh}
use external_signature_progr.Errors.{ok, into, ok_or, invalid_argument, invalid_signature_scheme}
use external_signature_progr.Errors.Laws.{ok_or-eq-ok}
use external_signature_progr.Instructions.Initialize.{
  InitializeAccountArgs, args_codec, InitializeExternalAccountContext, load,
  create_and_allocate_externally_signed_account, get_initialization_payload_hash,
  process_initialize_external_account,
}
use external_signature_progr.Instructions.Payload.{initialization_payload}
use external_signature_progr.Runtime.{Runtime, AccountInfo}
use external_signature_progr.State.{SignatureScheme, signature_scheme_try_from}
use external_signature_progr.State.Account
use external_signature_progr.State.Account.{ExternallySignedAccount, data_ref}
use external_signature_progr.State.Account.View.{written, with_data-eq-ok}
use external_signature_progr.State.P256Webauthn.{P256WebauthnAccountData}
use external_signature_progr.State.P256Webauthn.Scheme
use external_signature_progr.State.P256Webauthn.Scheme.Verify.{
  IsVerified, verify_payload-IsVerified,
}
use external_signature_progr.Utils.Sha256.{hash}
use external_signature_progr.World.{World}
use external_signature_progr.World.Laws.{bind-eq-ok, bind-lift-eq-ok, bind-reads-eq-ok}
use external_signature_progr.Instructions.Initialize.Context.{IsContext, load-IsContext, load_keeps}

module _ (rt : Runtime) (b : Borsh) where
  -- The bytes that the passkey signs for the context.
  abbrev pub signed_payload : InitializeExternalAccountContext → Bytes
  signed_payload c =
      initialization_payload (record { signer_key = c.rent_payer.key; slothash = c.slothash })
        Scheme.get_initialization_payload c.session_key

  -- What stands behind a successful initialization from `w` to `w'`: the account's creation, its
  -- data, and an assertion of the new account's key over the hash of the payload.
  pub record IsInitialized (infos : List AccountInfo) (input : Bytes) (w w' : World) : Type 0 where
    pub external_account : AccountInfo
    pub rent_payer : AccountInfo
    pub instructions_info : AccountInfo
    pub slothashes_info : AccountInfo
    pub system_program : AccountInfo
    pub others : List AccountInfo
    pub listed :
        infos
        ≡ external_account ∷ rent_payer ∷ instructions_info ∷ slothashes_info ∷ system_program
          ∷ others
    pub args : InitializeAccountArgs
    pub parsed : b.try_from_slice InitializeAccountArgs (args_codec b) input ≡ some args
    pub known : SignatureScheme
    pub signature_scheme : signature_scheme_try_from args.signature_scheme ≡ some known
    pub context : InitializeExternalAccountContext
    pub checked :
        IsContext rt b external_account rent_payer instructions_info slothashes_info system_program
          args w context
    pub self : ExternallySignedAccount
    pub created : World
    pub creation : create_and_allocate_externally_signed_account rt context w ≡ ok (self, created)
    pub filled : World
    pub filling :
        Account.initialize_account rt self context.initialization_data context.session_key created
        ≡ ok (tt, filled)
    pub before : P256WebauthnAccountData
    pub after : P256WebauthnAccountData
    pub read : data_ref rt self filled.accounts ≡ ok before
    pub verified :
        IsVerified rt context.instructions_sysvar before
          (record {
            public_key = context.initialization_data.public_key;
            params = context.initialization_data.params;
          })
          (hash rt (signed_payload context))
          after
    pub wrote : w' ≡ written filled self after

  -- An initialization that succeeds made a new account for its passkey: the arguments parse; the
  -- account belonged to the system program and was empty, and its address is derived from the
  -- public key of the arguments; the nonce is valid for the rent payer; and after the account's
  -- creation and the writing of its data, the transaction's first instruction turned out to have
  -- verified a WebAuthn assertion, by the key in those data, over the hash of the payload for that
  -- nonce, the rent payer and the session key of the arguments, with the counter updated last.
  pub process_initialize_external_account-IsInitialized :
      (infos : List AccountInfo) (input : Bytes) (w w' : World)
      → process_initialize_external_account rt b infos input w ≡ ok (tt, w')
      → IsInitialized infos input w w'
  unfolding process_initialize_external_account get_initialization_payload_hash
      Account.verify_initialization_payload Scheme.verify_initialization_payload
  process_initialize_external_account-IsInitialized infos input w w' e =
      let (args, e1, k1) =
        bind-lift-eq-ok
          (ok_or invalid_argument (b.try_from_slice InitializeAccountArgs (args_codec b) input)) _ w
          e in
      let (known, e2, k2) =
        bind-lift-eq-ok
          (ok_or (into invalid_signature_scheme) (signature_scheme_try_from args.signature_scheme))
          _ w k1 in
      let (c, e3, k3) =
        bind-reads-eq-ok (load rt b infos args) _ w (load_keeps rt b infos args w) k2 in
      let (x, p, i, s, y, rest, listed, checked, _) = load-IsContext rt b infos args w c w e3 in
      let (self, created, e4, k4) =
        bind-eq-ok (create_and_allocate_externally_signed_account rt c) _ w k3 in
      let (_, filled, e5, k5) =
        bind-eq-ok (Account.initialize_account rt self c.initialization_data c.session_key) _
          created k4 in
      let (d, d', read, method, wrote) =
        with_data-eq-ok rt self
          (λ d.
            Scheme.verify_initialization_payload rt c.instructions_sysvar d c.initialization_data
              (hash rt (signed_payload c)))
          filled k5 in
      record {
        external_account = x;
        rent_payer = p;
        instructions_info = i;
        slothashes_info = s;
        system_program = y;
        others = rest;
        listed = listed;
        args = args;
        parsed = ok_or-eq-ok _ _ e1;
        known = known;
        signature_scheme = ok_or-eq-ok _ _ e2;
        context = c;
        checked = checked;
        self = self;
        created = created;
        creation = e4;
        filled = filled;
        filling = e5;
        before = d;
        after = d';
        read = read;
        verified =
            verify_payload-IsVerified rt c.instructions_sysvar d _ (hash rt (signed_payload c)) d'
              method;
        wrote = wrote;
      }
