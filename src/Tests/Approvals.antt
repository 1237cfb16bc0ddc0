-- ===== src/Tests/Approvals.antt =====
-- The scenario's transactions, built by the SDK and run by the program.
use external_signature_progr.Base.{
  ◌≡◌, refl, sym, ap, ◌∙◌, arith, some, from_le, false, ◌+◌, ◌%◌, ◌^◌,
}
use external_signature_progr.Borsh.{derive, fields, read_all}
use external_signature_progr.Borsh.Reference.{reference, reference-IsBorsh}
use external_signature_progr.Entrypoint.{process_instruction}
use external_signature_progr.Errors.{ok}
use external_signature_progr.Errors.Laws.{ok-injective}
use external_signature_progr.Instructions.Refresh
use external_signature_progr.Instructions.Refresh.{
  RefreshSessionKeyArgs, parse_refresh_verification_data,
}
use external_signature_progr.Instructions.Refresh.Authorized.{
  IsAuthorized, process_refresh_session_key-IsAuthorized,
}
use external_signature_progr.Runtime.{Instruction}
use external_signature_progr.Sdk.Builders.Accounts.{passed}
use external_signature_progr.Sdk.Builders.{refresh_session_key}
use external_signature_progr.Sdk.Builders.Refreshed.{IsApproval, refresh_session_key_succeeds}
use external_signature_progr.Sdk.Types.{done}
use external_signature_progr.State.{SessionKey, session_key_codec}
use external_signature_progr.State.P256Webauthn.{
  parse_verification_data, new_public_key, raw_verification_codec,
}
use external_signature_progr.Tests.Client.{
  crates, webauthn, webauthn-IsWebAuthnData, session_key, session_key-IsSessionKey,
}
use external_signature_progr.Tests.Handlers.{refresh_run, hash_length}
use external_signature_progr.Tests.Scenario.{
  runtime, world, account_infos, external_info, signer_info, info, key_of, account_key, extra,
  verification_bytes, refresh_input,
}
use external_signature_progr.Instructions.Payload.{refresh_payload}
use external_signature_progr.State.P256Webauthn.Scheme.{update_session_key}
use external_signature_progr.State.Account.View.{IsLoaded}
use external_signature_progr.Utils.SlotHashes
use mathlib.Core.Path.{subst}
use external_signature_progr.Utils.Signatures.ClientDataJson.{params_codec}
use external_signature_progr.Utils.SlotHashes.{slot_hashes_id}
use external_signature_progr.Utils.SmallVec.{small_vec, deserialize_reader, read_items}

refresh : IsAuthorized runtime reference account_infos refresh_input world refresh_run.0
refresh =
    process_refresh_session_key-IsAuthorized runtime reference account_infos refresh_input world
      refresh_run.0 refresh_run.1

abbrev refresh_args : RefreshSessionKeyArgs
refresh_args = record {
  slothash = 454;
  signature_scheme = 0;
  verification_data = verification_bytes;
  session_key = session_key;
}

refresh_args-read :
    reference.try_from_slice RefreshSessionKeyArgs (Refresh.args_codec reference) refresh_input
    ≡ some refresh_args
unfolding Refresh.args_codec derive fields from_le small_vec deserialize_reader read_items read_all
    session_key_codec
refresh_args-read = refl

refresh-args : refresh.args ≡ refresh_args
refresh-args = cc (refresh.parsed, refresh_args-read)

refresh-verification : refresh.context.verification_data ≡ extra
unfolding parse_refresh_verification_data derive fields from_le raw_verification_codec params_codec
    parse_verification_data new_public_key
refresh-verification = sym (
    ok-injective extra refresh.context.verification_data (
      ap
        (λ (a : RefreshSessionKeyArgs).
          parse_refresh_verification_data runtime reference a.verification_data)
        (sym refresh-args)
      ∙ refresh.checked.extra))

approval :
    IsApproval runtime reference external_info
      (info (key_of 13) false false)
      (info slot_hashes_id false false)
      signer_info
      webauthn
      454
      session_key
      world
      refresh_run.0
unfolding parse_verification_data new_public_key
approval =
    let a = refresh in
    let c = a.context in
    let k = a.checked in
    let first : a.external_account ≡ external_info = cc a.listed in
    let second : a.instructions_info ≡ info (key_of 13) false false = cc a.listed in
    let third : a.slothashes_info ≡ info slot_hashes_id false false = cc a.listed in
    let fourth : a.nonce_signer ≡ signer_info = cc a.listed in
    let slot : a.args.slothash ≡ 454 =
      ap (λ (q : RefreshSessionKeyArgs). q.slothash) refresh-args in
    let key : a.args.session_key ≡ session_key =
      ap (λ (q : RefreshSessionKeyArgs). q.session_key) refresh-args in
    record {
      self = c.externally_signed_account;
      loaded = subst (λ i. IsLoaded runtime i world c.externally_signed_account) first k.loaded;
      verification = c.verification_data;
      parsed = ap ok (sym refresh-verification);
      seeds = k.seeds;
      derived = k.derived;
      instructions = c.instructions_sysvar;
      sysvar = subst (λ i. runtime.instructions i ≡ ok c.instructions_sysvar) second k.sysvar;
      table = k.table;
      slothashes =
          subst (λ i. SlotHashes.try_from i world.accounts ≡ ok k.table) third k.slothashes;
      nonce_data = c.nonce_data;
      nonce = rw (sym slot, sym fourth) k.nonce;
      payload = a.payload;
      signed =
          subst (λ q. refresh_payload reference c.nonce_data q ≡ ok a.payload) (k.session_key ∙ key)
            a.signed;
      before = a.before;
      after = a.after;
      read = a.read;
      verified = a.verified;
      now = a.now;
      clock = a.clock;
      counted = a.counted;
      refreshed = a.refreshed;
      reread = a.reread;
      updated =
          subst
            (λ (q : SessionKey).
              update_session_key runtime a.counted
                (record { key = q.key; expiration = (a.now + q.expiration) % 2 ^ 64 })
              ≡ ok a.refreshed)
            key a.updated;
      wrote = a.wrote;
    }

refresh_session_key_succeeds_example :
    (ix : Instruction) × (refresh_session_key runtime reference crates webauthn account_key
        (key_of 12)
        454
        session_key
      ≡ done ix)
    × (process_instruction runtime reference (passed ix.accounts) ix.input world
        ≡ ok (tt, refresh_run.0))
refresh_session_key_succeeds_example =
    refresh_session_key_succeeds runtime reference crates webauthn account_key (key_of 12) 454
      session_key world refresh_run.0 reference-IsBorsh hash_length webauthn-IsWebAuthnData
      (omega arith) session_key-IsSessionKey approval
