-- ===== src/Ledger/Founded.antt =====
-- The account that an initialization makes
-- (src/instructions/initialize_external_account.rs).
use external_signature_progr.Base.{
  ◌≡◌, ◌≢◌, sym, ap, ◌∙◌, Bytes, Pubkey, List, ◌∷◌, length, some, Option,
}
use external_signature_progr.Borsh.{Borsh}
use external_signature_progr.Borsh.Laws.{IsBorsh}
use external_signature_progr.Errors.{ok}
use external_signature_progr.Instructions.Initialize.{
  InitializeAccountArgs, args_codec, parse_raw_initialization_data,
  process_initialize_external_account,
}
use external_signature_progr.Instructions.Initialize.Fresh.{
  IsInitialized, signed_payload, process_initialize_external_account-IsInitialized,
}
use external_signature_progr.Ledger.Changes.{IsVerified-IsCurrent}
use external_signature_progr.Ledger.Enrolled.{IsEnrolled, written-IsEnrolled, data_ref-IsEnrolled}
use external_signature_progr.Ledger.Founding.{
  blank, founded, founded-IsCurrent, initialize_account-founded,
}
use external_signature_progr.Ledger.Parsed.{
  IsMeant, parse_raw_initialization_data-IsMeant, parse_raw_initialization_data-IsParsed,
  args-IsSessionKey,
}
use external_signature_progr.Ledger.Rules.{IsRuntime, IsUntouched}
use external_signature_progr.Runtime.{Runtime, AccountInfo, Instructions}
use external_signature_progr.State.Account.{ExternallySignedAccount}
use external_signature_progr.State.Account.Keeps.{IsCurrent}
use external_signature_progr.State.Account.View.{written}
use external_signature_progr.State.P256Webauthn.{
  P256WebauthnAccountData, P256ParsedInitializationData, P256ParsedVerificationData, AccountSeeds,
  seeds, initialization_derive_args,
}
use external_signature_progr.State.P256Webauthn.Scheme
use external_signature_progr.State.P256Webauthn.Scheme.Verify.{IsVerified}
use external_signature_progr.Instructions.Payload.{initialization_payload}
use external_signature_progr.State.{SessionKey}
use external_signature_progr.Utils.Nonce.{NonceData, validate_nonce}
use external_signature_progr.Utils.SlotHashes
use external_signature_progr.Utils.SlotHashes.{SlotHashes}
use external_signature_progr.Utils.Sha256.{hash}
use external_signature_progr.World.{World}
use mathlib.Core.Path.{subst}
use external_signature_progr.Ledger.Initialized.{
  target_key, initialized-IsUntouched, creation, filling, self_key, headed-IsEnrolled,
}

module _ (rt : Runtime) (b : Borsh) (infos : List AccountInfo) (input : Bytes) (w w' : World) where
  -- The account that a transaction has made: it was the system program's and empty, and it is now
  -- this program's, and holds the relying party, the passkey and the session key of the arguments,
  -- with the counter of the assertion by that passkey, over the payload for the rent payer, a valid
  -- nonce and that session key, which the transaction carries.
  pub record IsFounded : Type 0 where
    pub account : AccountInfo
    pub rent_payer : AccountInfo
    pub instructions_info : AccountInfo
    pub slothashes_info : AccountInfo
    pub others : List AccountInfo
    pub listed : infos ≡ account ∷ rent_payer ∷ instructions_info ∷ slothashes_info ∷ others
    pub args : InitializeAccountArgs
    pub parsed : b.try_from_slice InitializeAccountArgs (args_codec b) input ≡ some args
    pub passkey : P256ParsedInitializationData
    pub passkey_parsed : parse_raw_initialization_data rt b args.initialization_data ≡ ok passkey
    pub meant : IsMeant rt b args.initialization_data passkey
    pub account_seeds : AccountSeeds
    pub derived : Scheme.derive_account rt (initialization_derive_args passkey) ≡ ok account_seeds
    pub address : account.key ≡ account_seeds.key
    pub unowned : (w.accounts account.key).owner ≡ rt.system_id
    pub empty : length (w.accounts account.key).bytes ≡ 0
    pub holding : P256WebauthnAccountData
    pub enrolled : IsEnrolled rt.id w'.accounts account.key holding
    pub elsewhere : (k : Pubkey) → account.key ≢ k → IsUntouched (w.accounts k) (w'.accounts k)
    pub table : SlotHashes
    pub slothashes : SlotHashes.try_from slothashes_info w.accounts ≡ ok table
    pub nonce : NonceData
    pub validated : validate_nonce rt table args.slothash rent_payer ≡ ok nonce
    pub instructions : Instructions
    pub sysvar : rt.instructions instructions_info ≡ ok instructions
    pub verified :
        IsVerified rt instructions
          (founded passkey args.session_key)
          (record { public_key = passkey.public_key; params = passkey.params })
          (hash rt (
            initialization_payload
              (record { signer_key = rent_payer.key; slothash = nonce.slothash })
              Scheme.get_initialization_payload
              args.session_key))
          holding

  made-IsEnrolled :
      (rules : IsRuntime rt)
      → IsBorsh b
      → (a : IsInitialized rt b infos input w w')
      → IsEnrolled rt.id a.filled.accounts a.self.account_info.key
          (founded a.context.initialization_data a.args.session_key)
        × (a.self.len ≡ 152)
  made-IsEnrolled rules laws a =
      let c = creation rt rules b infos input w w' a in
      let f = filling rt rules b infos input w w' a in
      let key = a.self.account_info.key in
      let headed = headed-IsEnrolled rt rules b infos input w w' a in
      let passkey = a.context.initialization_data in
      let (_, zeros, _) =
        rules.allocates _ Scheme.size (seeds a.context.seeds) c.paid c.spaced c.allocated in
      let (_, kept, _) =
        rules.assigns _ rt.id (seeds a.context.seeds) c.spaced c.owned c.assigned in
      let len : a.self.len ≡ 152 =
        ap (λ (s : ExternallySignedAccount). s.len) c.wrapper ∙ ap length (kept ∙ zeros) in
      let found : f.blank ≡ blank =
        data_ref-IsEnrolled rt.id f.headed a.self blank headed rt f.blank len f.read in
      let parsed =
        parse_raw_initialization_data-IsParsed rt rules.hash_length b a.args.initialization_data
          passkey a.checked.parsed in
      let made : f.made ≡ founded passkey a.args.session_key =
        initialize_account-founded rt passkey a.context.session_key f.made parsed (
          subst (λ q. Scheme.initialize_account rt q passkey a.context.session_key ≡ ok f.made)
            found f.initialized)
        ∙ ap (founded passkey) a.checked.session_key in
      let current =
        founded-IsCurrent passkey a.args.session_key parsed
          (λ s given. args-IsSessionKey b laws input a.args s a.parsed given) in
      (
        subst (λ (q : World). IsEnrolled rt.id q.accounts key (founded passkey a.args.session_key))
            (ap (written f.headed a.self) (sym made) ∙ sym f.wrote)
            (written-IsEnrolled rt.id f.headed a.self blank headed
              (founded passkey a.args.session_key) current),
        len,
      )

  pub process_initialize_external_account-IsFounded :
      IsRuntime rt
      → IsBorsh b
      → process_initialize_external_account rt b infos input w ≡ ok (tt, w')
      → IsFounded
  process_initialize_external_account-IsFounded rules laws e =
      let a = process_initialize_external_account-IsInitialized rt b infos input w w' e in
      let passkey = a.context.initialization_data in
      let start = founded passkey a.args.session_key in
      let (made, len) = made-IsEnrolled rules laws a in
      let found = data_ref-IsEnrolled rt.id a.filled a.self start made rt a.before len a.read in
      let (current, _) =
        IsVerified-IsCurrent rt rules a.instructions_info a.context.instructions_sysvar a.before _
          (hash rt (signed_payload rt b a.context)) a.after a.checked.sysvar a.verified
          (subst IsCurrent (sym found) made.current) in
      let extra : P256ParsedVerificationData = record {
        public_key = passkey.public_key;
        params = passkey.params;
      } in
      let payload =
        initialization_payload
          (record { signer_key = a.rent_payer.key; slothash = a.checked.nonce.slothash })
          Scheme.get_initialization_payload a.args.session_key in
      let signed : signed_payload rt b a.context ≡ payload =
        ap
          (λ (p : AccountInfo).
            initialization_payload (record { signer_key = p.key; slothash = a.context.slothash })
              Scheme.get_initialization_payload a.context.session_key)
          a.checked.payer
        ∙ ap
            (λ (h : Bytes).
              initialization_payload (record { signer_key = a.rent_payer.key; slothash = h })
                Scheme.get_initialization_payload a.context.session_key)
            a.checked.hashed
        ∙ ap
            (λ (k : Option SessionKey).
              initialization_payload
                (record { signer_key = a.rent_payer.key; slothash = a.checked.nonce.slothash })
                Scheme.get_initialization_payload k)
            a.checked.session_key in
      let there =
        self_key rt rules b infos input w w' a ∙ target_key rt rules b infos input w w' a in
      record {
        account = a.external_account;
        rent_payer = a.rent_payer;
        instructions_info = a.instructions_info;
        slothashes_info = a.slothashes_info;
        others = _;
        listed = a.listed;
        args = a.args;
        parsed = a.parsed;
        passkey = passkey;
        passkey_parsed = a.checked.parsed;
        meant =
            parse_raw_initialization_data-IsMeant rt b laws a.args.initialization_data passkey
              a.checked.parsed;
        account_seeds = a.context.seeds;
        derived = a.checked.derived;
        address = a.checked.address;
        unowned = a.checked.unowned;
        empty = a.checked.empty;
        holding = a.after;
        enrolled =
            subst (λ k. IsEnrolled rt.id w'.accounts k a.after) there
              (subst (λ (q : World). IsEnrolled rt.id q.accounts a.self.account_info.key a.after)
                (sym a.wrote)
                (written-IsEnrolled rt.id a.filled a.self start made a.after current));
        elsewhere = λ k other.
            initialized-IsUntouched rt rules b infos input w w' a k
              (λ same. other (sym (target_key rt rules b infos input w w' a) ∙ same));
        table = a.checked.table;
        slothashes = a.checked.slothashes;
        nonce = a.checked.nonce;
        validated = a.checked.validated;
        instructions = a.context.instructions_sysvar;
        sysvar = a.checked.sysvar;
        verified =
            subst
              (λ q. IsVerified rt a.context.instructions_sysvar q extra (hash rt payload) a.after)
              found
              (subst
                (λ q.
                  IsVerified rt a.context.instructions_sysvar a.before extra (hash rt q) a.after)
                signed a.verified);
      }
