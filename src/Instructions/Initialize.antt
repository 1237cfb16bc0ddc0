-- ===== src/Instructions/Initialize.antt =====
-- src/instructions/initialize_external_account.rs
pub mod Context
pub mod Fresh
pub mod Exact
use external_signature_progr.Base.{ℕ, List, ◌∷◌, Bytes, bytes_eq, not, if◌then◌else◌, Option}
use external_signature_progr.Borsh.{Codec, Borsh, fields, derive}
use external_signature_progr.Errors
use external_signature_progr.Errors.{
  Result, into, ok_or, err, ok, assert, invalid_argument, invalid_account_owner,
  not_enough_account_keys, invalid_signature_scheme,
}
use external_signature_progr.Instructions.Payload.{initialization_payload}
use external_signature_progr.Runtime.{Runtime, AccountInfo, Instructions}
use external_signature_progr.State.{SessionKey, session_key_codec, signature_scheme_try_from}
use external_signature_progr.State.Account
use external_signature_progr.State.Account.{ExternallySignedAccount}
use external_signature_progr.State.P256Webauthn.{
  P256RawInitializationData, P256ParsedInitializationData, raw_initialization_codec,
  parse_initialization_data, initialization_derive_args, AccountSeeds, seeds,
}
use external_signature_progr.State.P256Webauthn.Scheme
use external_signature_progr.Utils.Checks.{check_account_uninitialized}
use external_signature_progr.Utils.Nonce.{TruncatedSlot, validate_nonce}
use external_signature_progr.Utils.Sha256.{hash}
use external_signature_progr.Utils.SlotHashes
use external_signature_progr.Utils.SmallVec.{small_vec}
use external_signature_progr.World.{M, ◌>>=◌, ◌>>◌, pure, lift, get_accounts, run}

pub record InitializeAccountArgs : Type 0 where
  pub slothash : TruncatedSlot
  pub signature_scheme : ℕ
  pub initialization_data : Bytes
  pub session_key : Option SessionKey

unfoldable pub args_codec : Borsh → Codec InitializeAccountArgs
args_codec b =
    derive
      (λ p. record {
        slothash = p.0;
        signature_scheme = p.1.0;
        initialization_data = p.1.1.0;
        session_key = p.1.1.1;
      })
      (λ a. (a.slothash, (a.signature_scheme, (a.initialization_data, a.session_key))))
      (fields (b.int 2) (
        fields (b.int 1)
          (fields (small_vec (b.int 1) b 1) (b.option SessionKey (session_key_codec b)))))

-- `InitializeExternalAccountContext`, with its accounts.
pub record InitializeExternalAccountContext : Type 0 where
  pub slothash : Bytes
  pub externally_signed_account : ExternallySignedAccount
  pub rent_payer : AccountInfo
  pub instructions_sysvar : Instructions
  pub system_program : AccountInfo
  pub seeds : AccountSeeds
  pub initialization_data : P256ParsedInitializationData
  pub session_key : Option SessionKey

module _ (rt : Runtime) where
  unfoldable pub parse_raw_initialization_data : Borsh → Bytes → Result P256ParsedInitializationData
  parse_raw_initialization_data b bytes =
      Errors.◌>>=◌
        (ok_or invalid_argument
          (b.try_from_slice P256RawInitializationData (raw_initialization_codec b) bytes))
        (parse_initialization_data rt)

  -- `load` behind the pattern for the account list.
  unfoldable pub load_context :
      Borsh
      → AccountInfo
      → AccountInfo
      → AccountInfo
      → AccountInfo
      → AccountInfo
      → InitializeAccountArgs
      → M InitializeExternalAccountContext
  unfolding parse_raw_initialization_data
  load_context b external_account rent_payer instructions_info slothashes_info system_program args =
      do
        accounts ← get_accounts
        lift (check_account_uninitialized rt external_account accounts)
        externally_signed_account ← Account.load rt external_account
        instructions_sysvar ← lift (rt.instructions instructions_info)
        slothashes_sysvar ← lift (SlotHashes.try_from slothashes_info accounts)
        lift (assert (bytes_eq system_program.key rt.system_id))
        nonce_data ← lift (validate_nonce rt slothashes_sysvar args.slothash rent_payer)
        initialization_data ← lift (parse_raw_initialization_data b args.initialization_data)
        account_seeds ←
            lift (Scheme.derive_account rt (initialization_derive_args initialization_data))
        lift (
            if not (bytes_eq external_account.key account_seeds.key)
            then err invalid_account_owner
            else ok tt)
        pure (record {
          slothash = nonce_data.slothash;
          externally_signed_account = externally_signed_account;
          rent_payer = rent_payer;
          instructions_sysvar = instructions_sysvar;
          system_program = system_program;
          seeds = account_seeds;
          initialization_data = initialization_data;
          session_key = args.session_key;
        })

  unfoldable pub load :
      Borsh → List AccountInfo → InitializeAccountArgs → M InitializeExternalAccountContext
  unfolding load_context
  load b
        (external_account ∷ rent_payer ∷ instructions_info ∷ slothashes_info ∷ system_program
          ∷ remaining)
        args =
      load_context b external_account rent_payer instructions_info slothashes_info system_program
        args
  load b account_infos args = lift (err not_enough_account_keys)

  -- The account is reloaded at the end, since its data has been allocated.
  unfoldable pub create_and_allocate_externally_signed_account :
      InitializeExternalAccountContext → M ExternallySignedAccount
  create_and_allocate_externally_signed_account c = do
    required_lamports ← lift (rt.minimum_balance Scheme.size)
    run (
        rt.transfer c.rent_payer.key c.externally_signed_account.account_info.key required_lamports)
    run (rt.allocate c.externally_signed_account.account_info.key Scheme.size (seeds c.seeds))
    run (rt.assign c.externally_signed_account.account_info.key rt.id (seeds c.seeds))
    Account.reload c.externally_signed_account

  unfoldable pub get_initialization_payload_hash : InitializeExternalAccountContext → Bytes
  unfolding initialization_payload hash
  get_initialization_payload_hash c = hash rt (
      initialization_payload (record { signer_key = c.rent_payer.key; slothash = c.slothash })
        Scheme.get_initialization_payload c.session_key)

  unfoldable pub process_initialize_external_account :
      Borsh → List AccountInfo → Bytes → M (Unit {0})
  unfolding load create_and_allocate_externally_signed_account get_initialization_payload_hash
  process_initialize_external_account b account_infos input = do
    args ←
        lift (ok_or invalid_argument (b.try_from_slice InitializeAccountArgs (args_codec b) input))
    signature_scheme ←
        lift
          (ok_or (into invalid_signature_scheme) (signature_scheme_try_from args.signature_scheme))
    context ← load b account_infos args
    let payload_hash = get_initialization_payload_hash context
    externally_owned_account ← create_and_allocate_externally_signed_account context
    Account.initialize_account rt externally_owned_account context.initialization_data
        context.session_key
    Account.verify_initialization_payload rt externally_owned_account context.instructions_sysvar
        context.initialization_data payload_hash
