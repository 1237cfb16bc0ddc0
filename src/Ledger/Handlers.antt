-- ===== src/Ledger/Handlers.antt =====
-- What the handlers that run on existing accounts leave of each account of the program
-- (src/instructions/execute_instructions.rs, execute_instructions_sessioned.rs,
-- refresh_session_key.rs).
use external_signature_progr.Base.{
  ◌+◌, ◌%◌, ◌^◌, ◌≡◌, ◌≢◌, sym, arith, Bytes, Pubkey, List, [], some,
}
use external_signature_progr.Borsh.{Borsh, fields}
use external_signature_progr.Borsh.Laws.{IsBorsh, fields_reads, derive_reads}
use external_signature_progr.Errors.{ok}
use external_signature_progr.Instructions.Execute.{process_execute_instructions}
use external_signature_progr.Instructions.Execute.Authorized.{
  process_execute_instructions-IsAuthorized,
}
use external_signature_progr.Instructions.ExecuteSessioned.{process_execute_instructions_sessioned}
use external_signature_progr.Instructions.ExecuteSessioned.Authorized.{
  process_execute_instructions_sessioned-IsSessionAuthorized,
}
use external_signature_progr.Instructions.Invoke.Trace.{Runs, done, call, invoke_instructions_exact}
use external_signature_progr.Instructions.Refresh.{
  RefreshSessionKeyArgs, args_codec, process_refresh_session_key,
}
use external_signature_progr.Instructions.Refresh.Authorized.{
  process_refresh_session_key-IsAuthorized,
}
use external_signature_progr.Ledger.Changes.{
  IsSessionKey, IsVerified-IsCurrent, update_session_key-IsCurrent, Next, written-Next,
}
use external_signature_progr.Ledger.Enrolled.{
  IsHolding, IsEnrolled, IsForeign-IsHolding, IsLoaded-len,
}
use external_signature_progr.Ledger.Rules.{IsRuntime, IsForeign}
use external_signature_progr.Runtime.{Runtime, AccountInfo, AccountState, AccountMeta, Invocation}
use external_signature_progr.State.{SessionKey, session_key_codec, to_signer_seeds}
use external_signature_progr.State.Account.View.{written}
use external_signature_progr.State.P256Webauthn.{P256WebauthnAccountData}
use external_signature_progr.State.P256Webauthn.Scheme.History.{here, Reaches-trans}
use external_signature_progr.Utils.Instructions.{
  CompiledInstruction, create_instruction_execution_account_metas,
}
use external_signature_progr.Utils.Sha256.{hash}
use external_signature_progr.Utils.SmallVec.{small_vec}
use external_signature_progr.World.{World}
use mathlib.Core.Path.{subst}

-- A session key that was read has the widths of its codec.
pub session_key_codec-IsSessionKey :
    (b : Borsh)
    → IsBorsh b
    → (bs : Bytes) (s : SessionKey) (rest : Bytes) → (session_key_codec b).read bs ≡ some (s, rest)
    → IsSessionKey s
unfolding session_key_codec
session_key_codec-IsSessionKey b h bs s rest e =
    let (p, e1, same) =
      derive_reads (λ p. record { key = p.0; expiration = p.1 }) (λ s. (s.key, s.expiration))
        (fields (b.array 32) (b.int 8)) bs s rest e in
    let (mid, key, expiration) = fields_reads (b.array 32) (b.int 8) bs p rest e1 in
    subst IsSessionKey same (record {
      key = h.array_range 32 bs p.0 mid key;
      expiration = omega (arith, h.int_range 8 mid p.1 rest expiration);
    })

pub refresh_args-IsSessionKey :
    (b : Borsh)
    → IsBorsh b
    → (bs : Bytes) (args : RefreshSessionKeyArgs) (rest : Bytes)
    → (args_codec b).read bs ≡ some (args, rest)
    → IsSessionKey args.session_key
unfolding args_codec
refresh_args-IsSessionKey b h bs args rest e =
    let vec = small_vec (b.int 1) b 1 in
    let key = session_key_codec b in
    let (p, e1, same) =
      derive_reads _ _ (fields (b.int 2) (fields (b.int 1) (fields vec key))) bs args rest e in
    let (bs1, _, e2) = fields_reads (b.int 2) (fields (b.int 1) (fields vec key)) bs p rest e1 in
    let (bs2, _, e3) = fields_reads (b.int 1) (fields vec key) bs1 p.1 rest e2 in
    let (bs3, _, e4) = fields_reads vec key bs2 p.1.1 rest e3 in
    subst (λ (a : RefreshSessionKeyArgs). IsSessionKey a.session_key) same
      (session_key_codec-IsSessionKey b h bs3 p.1.1.1 rest e4)

module _ (rt : Runtime) (rules : IsRuntime rt) (key : Pubkey) (metas : List AccountMeta)
    (infos : List AccountInfo) (seeds : List Bytes) where
  -- What calls of other programs keep of an account, `P`, the whole series keeps.
  pub Runs-keeps :
      (P : AccountState → Type 0) (is : List CompiledInstruction) (w w' : World)
      → ((s s' : AccountState) → IsForeign rt.id s s' → P s → P s')
      → Runs rt metas infos seeds is w w'
      → P (w.accounts key)
      → P (w'.accounts key)
  Runs-keeps P _ _ _ step (done w) h = h
  Runs-keeps P _ _ _ step (call i rest c accounts w w' x invoked r) h =
      let foreign : c.instruction.program_id ≢ rt.id =
        subst (λ (q : Invocation). q.instruction.program_id ≢ rt.id) (sym x.call) x.foreign in
      Runs-keeps P rest _ w' step r (
        step (w.accounts key) (accounts key)
          (rules.isolates c w.accounts accounts foreign invoked key) h)

  pub Runs-IsEnrolled :
      (d : P256WebauthnAccountData) (is : List CompiledInstruction) (w w' : World)
      → Runs rt metas infos seeds is w w'
      → IsEnrolled rt.id w.accounts key d
      → IsEnrolled rt.id w'.accounts key d
  Runs-IsEnrolled d is w w' r h =
      Runs-keeps (IsHolding rt.id d) is w w' (IsForeign-IsHolding rt.id d) r h

module _ (rt : Runtime) (rules : IsRuntime rt) (key : Pubkey) (d : P256WebauthnAccountData)
    (b : Borsh) (infos : List AccountInfo) (input : Bytes) (w w' : World)
    (h : IsEnrolled rt.id w.accounts key d) where
  pub process_execute_instructions-Next :
      process_execute_instructions rt b infos input w ≡ ok (tt, w') → Next rt rules w' key d
  process_execute_instructions-Next e =
      let a = process_execute_instructions-IsAuthorized rt b infos input w w' e in
      let c = a.context in
      let self = c.externally_signed_account in
      let (d', enrolled, reached) =
        written-Next rt rules w self key d a.before a.after h
          (IsLoaded-len rt rt.id a.external_account w self key d h a.checked.loaded) a.read
          (IsVerified-IsCurrent rt rules a.instructions_info c.instructions_sysvar a.before
            c.verification_data (hash rt a.payload) a.after a.checked.sysvar a.verified) in
      let runs =
        (invoke_instructions_exact rt c.instruction_execution_account_metas
            c.instruction_execution_accounts (to_signer_seeds c.execution_account)
            a.args.instructions (written w self a.after) w').0
          a.ran in
      (
        d',
        Runs-IsEnrolled rt rules key _ _ _ d' _ (written w self a.after) w' runs enrolled,
        reached,
      )

  pub process_execute_instructions_sessioned-Next :
      process_execute_instructions_sessioned rt b infos input w ≡ ok (tt, w')
      → Next rt rules w' key d
  process_execute_instructions_sessioned-Next e =
      let a = process_execute_instructions_sessioned-IsSessionAuthorized rt b infos input w w' e in
      let runs =
        (invoke_instructions_exact rt
            (create_instruction_execution_account_metas a.execution_accounts a.execution a.scheme)
            a.execution_accounts (to_signer_seeds a.execution) a.args.instructions w w').0
          a.ran in
      (d, Runs-IsEnrolled rt rules key _ _ _ d _ w w' runs h, here d)

  pub process_refresh_session_key-Next :
      IsBorsh b
      → process_refresh_session_key rt b infos input w ≡ ok (tt, w')
      → Next rt rules w' key d
  process_refresh_session_key-Next laws e =
      let a = process_refresh_session_key-IsAuthorized rt b infos input w w' e in
      let c = a.context in
      let self = c.externally_signed_account in
      let len = IsLoaded-len rt rt.id a.external_account w self key d h a.checked.loaded in
      let (d1, enrolled, reached) =
        written-Next rt rules w self key d a.before a.after h len a.read (
          IsVerified-IsCurrent rt rules a.instructions_info c.instructions_sysvar a.before
            c.verification_data (hash rt a.payload) a.after a.checked.sysvar a.verified) in
      let read =
        refresh_args-IsSessionKey b laws input a.args []
          ((laws.exact RefreshSessionKeyArgs (args_codec b) input a.args).0 a.parsed) in
      let fits : IsSessionKey (record {
        key = a.args.session_key.key;
        expiration = (a.now + a.args.session_key.expiration) % 2 ^ 64;
      }) =
        record { key = read.key; expiration = omega arith } in
      let (d2, enrolled', reached') =
        written-Next rt rules (written w self a.after) self key d1 a.counted a.refreshed enrolled
          len a.reread
          (update_session_key-IsCurrent rt rules a.counted _ a.refreshed a.updated fits) in
      (
        d2,
        subst (λ (q : World). IsEnrolled rt.id q.accounts key d2) (sym a.wrote) enrolled',
        Reaches-trans d d1 d2 reached reached',
      )
