-- ===== src/Tests/Enrollments.antt =====
-- The scenario's initialization, built by the SDK and run by the program.
use external_signature_progr.Base.{
  ◌≡◌, refl, sym, ap, ◌∙◌, arith, some, [], ◌∷◌, ◌++◌, codes, from_le, false,
}
use external_signature_progr.Borsh.{derive, fields, read_all}
use external_signature_progr.Borsh.Reference.{reference, reference-IsBorsh}
use external_signature_progr.Entrypoint.{process_instruction}
use external_signature_progr.Errors.{ok}
use external_signature_progr.Instructions.Initialize
use external_signature_progr.Instructions.Initialize.{
  InitializeAccountArgs, parse_raw_initialization_data,
}
use external_signature_progr.Instructions.Initialize.Fresh.{
  IsInitialized, process_initialize_external_account-IsInitialized,
}
use external_signature_progr.Runtime.{AccountInfo, Instruction}
use external_signature_progr.Sdk.Builders.Accounts.{passed}
use external_signature_progr.Sdk.Builders.{initialize_with}
use external_signature_progr.Sdk.Builders.Enrolled.{IsApproval, initialize_with_succeeds}
use external_signature_progr.Sdk.Builders.Session.{IsSessionKey}
use external_signature_progr.Sdk.Types.{done}
use external_signature_progr.State.{SessionKey, session_key_codec}
use external_signature_progr.State.Account.View.{IsLoaded}
use external_signature_progr.State.P256Webauthn.{
  P256RawInitializationData, parse_initialization_data, raw_initialization_codec,
}
use external_signature_progr.Tests.Client.{
  crates, webauthn, webauthn-IsWebAuthnData, example_com-IsRpId, derived,
}
use external_signature_progr.Tests.Handlers.{initialize_run, hash_length}
use external_signature_progr.Tests.Scenario.{
  runtime, blank_world, external_info, signer_info, info, key_of, account_key, passkey,
  initialize_infos, initialize_input,
}
use external_signature_progr.Utils.Signatures.ClientDataJson.{params_codec}
use external_signature_progr.Utils.SlotHashes
use external_signature_progr.Utils.SlotHashes.{slot_hashes_id}
use external_signature_progr.Utils.SmallVec.{small_vec, deserialize_reader, read_items}
use mathlib.Core.Path.{subst}

initialization :
    IsInitialized runtime reference initialize_infos initialize_input blank_world initialize_run.0
initialization =
    process_initialize_external_account-IsInitialized runtime reference initialize_infos
      initialize_input blank_world initialize_run.0 initialize_run.1

abbrev first_session : SessionKey
first_session = record { key = key_of 8; expiration = 5000 }

abbrev initialize_args : InitializeAccountArgs
initialize_args = record {
  slothash = 454;
  signature_scheme = 0;
  initialization_data = (11 ∷ codes "example.com") ++ passkey ++ (0x10 ∷ 0 ∷ []);
  session_key = some first_session;
}

abbrev raw : P256RawInitializationData
raw = record {
  rp_id = codes "example.com";
  public_key = passkey;
  params = webauthn.client_data_json_reconstruction_params;
}

initialize_args-read :
    reference.try_from_slice InitializeAccountArgs
      (Initialize.args_codec reference)
      initialize_input
    ≡ some initialize_args
unfolding Initialize.args_codec derive fields from_le small_vec deserialize_reader read_items
    read_all session_key_codec
initialize_args-read = refl

initialization-args : initialization.args ≡ initialize_args
initialization-args = cc (initialization.parsed, initialize_args-read)

initialization-data :
    parse_raw_initialization_data runtime reference initialize_args.initialization_data
    ≡ parse_initialization_data runtime raw
unfolding parse_raw_initialization_data derive fields from_le raw_initialization_codec params_codec
    small_vec deserialize_reader read_items read_all
initialization-data = refl

approval :
    IsApproval runtime reference external_info signer_info
      (info (key_of 13) false false)
      (info slot_hashes_id false false)
      (info (key_of 2) false false)
      (codes "example.com")
      webauthn
      454
      (some first_session)
      blank_world
      initialize_run.0
approval =
    let a = initialization in
    let c = a.context in
    let k = a.checked in
    let first : a.external_account ≡ external_info = cc a.listed in
    let second : a.rent_payer ≡ signer_info = cc a.listed in
    let third : a.instructions_info ≡ info (key_of 13) false false = cc a.listed in
    let fourth : a.slothashes_info ≡ info slot_hashes_id false false = cc a.listed in
    let fifth : a.system_program ≡ info (key_of 2) false false = cc a.listed in
    let slot : a.args.slothash ≡ 454 =
      ap (λ (q : InitializeAccountArgs). q.slothash) initialization-args in
    record {
      context = c;
      table = k.table;
      nonce = k.nonce;
      unowned = refl;
      empty = refl;
      loaded =
          subst (λ i. IsLoaded runtime i blank_world c.externally_signed_account) first k.loaded;
      sysvar = subst (λ i. runtime.instructions i ≡ ok c.instructions_sysvar) third k.sysvar;
      slothashes =
          subst (λ i. SlotHashes.try_from i blank_world.accounts ≡ ok k.table) fourth k.slothashes;
      system = refl;
      validated = rw (sym slot, sym second) k.validated;
      hashed = k.hashed;
      parsed =
          sym initialization-data
          ∙ ap
              (λ (q : InitializeAccountArgs).
                parse_raw_initialization_data runtime reference q.initialization_data)
              (sym initialization-args)
          ∙ k.parsed;
      derived = k.derived;
      address = ap (λ (i : AccountInfo). i.key) (sym first) ∙ k.address;
      payer = k.payer ∙ second;
      program = k.program ∙ fifth;
      session =
          k.session_key ∙ ap (λ (q : InitializeAccountArgs). q.session_key) initialization-args;
      self = a.self;
      created = a.created;
      creation = a.creation;
      filled = a.filled;
      filling = a.filling;
      before = a.before;
      after = a.after;
      read = a.read;
      verified = a.verified;
      wrote = a.wrote;
    }

initialize_with_succeeds_example :
    (ix : Instruction) × (initialize_with runtime reference crates webauthn
        (codes "example.com")
        (key_of 12)
        454
        (some first_session)
      ≡ done (account_key, ix))
    × (process_instruction runtime reference (passed ix.accounts) ix.input blank_world
        ≡ ok (tt, initialize_run.0))
initialize_with_succeeds_example =
    initialize_with_succeeds runtime reference crates webauthn (codes "example.com") (key_of 12) 454
      (some first_session) account_key 255 blank_world initialize_run.0 reference-IsBorsh
      hash_length webauthn-IsWebAuthnData example_com-IsRpId (omega arith)
      (λ key e.
        let same : first_session ≡ key = cc in
        subst IsSessionKey same (record { key_length = refl; expiration = omega arith }))
      derived approval
