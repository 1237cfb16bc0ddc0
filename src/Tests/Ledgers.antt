-- ===== src/Tests/Ledgers.antt =====
-- The scenario's transactions as a history of its ledger.
use external_signature_progr.Base.{
  ℕ, ◌+◌, ◌%◌, ◌^◌, ◌≤◌, ◌≡◌, ◌≢◌, refl, ap, ◌∙◌, arith, true, false, Bool, ◌==◌, if◌then◌else◌, [],
  ◌∷◌, Pubkey, All, IsByte, some, bytes_eq_refl, bytes_eq_ne, le_bytes, all_bytes, all_bytes-IsByte,
  replicate,
}
use external_signature_progr.Borsh.Reference.{reference, reference-IsBorsh}
use external_signature_progr.Entrypoint.{process_instruction}
use external_signature_progr.Errors.{ok, err, invalid_argument}
use external_signature_progr.Errors.Laws.{ok-injective}
use external_signature_progr.Instructions.Refresh.{RefreshSessionKeyArgs, args_codec}
use external_signature_progr.Ledger.Enrolled.{IsEnrolled}
use external_signature_progr.Ledger.History.{History, now, ran, History-Keeps}
use external_signature_progr.Ledger.Rules.{IsRuntime, IsUntouched, IsForeign}
use external_signature_progr.Ledger.Sessions.{refresh_then_session}
use external_signature_progr.Runtime.{
  AccountState, Accounts, Instructions, IntrospectedInstruction, update,
}
use external_signature_progr.State.{session_key_expiration_limit}
use external_signature_progr.State.P256Webauthn.{P256WebauthnAccountData}
use external_signature_progr.State.P256Webauthn.Layout.{encode}
use external_signature_progr.State.P256Webauthn.Scheme.History.{Keeps}
use external_signature_progr.Tests.Handlers.{
  execute_infos, execute_run, refresh_run, new_signer, new_session_run,
}
use external_signature_progr.Tests.Scenario.{
  runtime, runtime_with, world, accounts, stored, precompile_with, transaction_with, program_id,
  account_key, key_of, info, signer_info, external_info, execution_infos, execute_input,
  sessioned_input, refresh_input,
}
use external_signature_progr.Utils.Sha256.{hash, hashv}
use external_signature_progr.Utils.SlotHashes.{slot_hashes_id}
use mathlib.Core.Path.{subst}

untouched : (s : AccountState) → IsUntouched s s
untouched s = record { owner = refl; bytes = refl }

transaction_bytes :
    (counter : ℕ)
    → all_bytes (precompile_with counter).bytes ≡ true
    → (i : ℕ) (ix : IntrospectedInstruction) → transaction_with counter i ≡ ok ix
    → All IsByte ix.bytes × ((n : ℕ) → IsByte (ix.beyond n))
transaction_bytes counter fits i ix e = go (i == 0) e
  where
    go :
        (t : Bool)
        → (if t then ok (precompile_with counter) else err invalid_argument) ≡ ok ix
        → All IsByte ix.bytes × ((n : ℕ) → IsByte (ix.beyond n))
    go true h =
        subst
          (λ (x : IntrospectedInstruction). All IsByte x.bytes × ((n : ℕ) → IsByte (x.beyond n)))
          (ok-injective (precompile_with counter) ix h)
          (all_bytes-IsByte (precompile_with counter).bytes fits, λ n. omega arith)
    go false h = cc

update-IsUntouched :
    (a : Accounts) (key : Pubkey) (s : AccountState)
    → (update a key s key ≡ s) × ((k : Pubkey) → key ≢ k → IsUntouched (a k) (update a key s k))
update-IsUntouched a key s =
    (rw (bytes_eq_refl key) refl, λ k other. rw (bytes_eq_ne key k other) (untouched (a k)))

pub runtime_with-IsRuntime :
    (counter : ℕ)
    → all_bytes (precompile_with counter).bytes ≡ true
    → IsRuntime (runtime_with counter)
unfolding hash hashv
runtime_with-IsRuntime counter fits = record {
  isolates = λ call a a' foreign e k.
      subst (λ (x : Accounts). IsForeign program_id (a k) (x k)) (ok-injective a a' e)
        (record { kept = λ ours. untouched (a k); handed = λ other ours. absurd (other ours) });
  transfers = λ from to lamports a a' e k.
      subst (λ (x : Accounts). IsUntouched (a k) (x k)) (ok-injective a a' e) (untouched (a k));
  allocates = λ key space seeds a a' e.
      let (here, others) =
        update-IsUntouched a key (record (a key) { bytes = replicate space 0 }) in
      subst
        (λ (x : Accounts).
          ((x key).owner ≡ (a key).owner)
          × ((x key).bytes ≡ replicate space 0)
          × ((k : Pubkey) → key ≢ k → IsUntouched (a k) (x k)))
        (ok-injective _ a' e)
        (ap (λ (s : AccountState). s.owner) here, ap (λ (s : AccountState). s.bytes) here, others);
  assigns = λ key owner seeds a a' e.
      let (here, others) = update-IsUntouched a key (record (a key) { owner = owner }) in
      subst
        (λ (x : Accounts).
          ((x key).owner ≡ owner)
          × ((x key).bytes ≡ (a key).bytes)
          × ((k : Pubkey) → key ≢ k → IsUntouched (a k) (x k)))
        (ok-injective _ a' e)
        (ap (λ (s : AccountState). s.owner) here, ap (λ (s : AccountState). s.bytes) here, others);
  sysvar_bytes = λ info instructions i ix e h.
      transaction_bytes counter fits i ix (
        ap (λ (x : Instructions). x i) (ok-injective (transaction_with counter) instructions e)
        ∙ h);
  hash_length = λ bs. refl;
}

runtime-IsRuntime : IsRuntime runtime
unfolding all_bytes
runtime-IsRuntime = runtime_with-IsRuntime 5 refl

pub stored-IsEnrolled : IsEnrolled program_id accounts account_key stored
unfolding accounts encode le_bytes
stored-IsEnrolled = record {
  owned = refl;
  size = refl;
  holds = refl;
  current = record {
    fields = record {
      reserved = refl;
      rp_id = refl;
      rp_id_hash = refl;
      x = refl;
      padding = refl;
      key = refl;
      expiration = omega arith;
      counter = omega arith;
    };
    version = refl;
    scheme = refl;
  };
}

execute-History : History (λ n. runtime) reference program_id accounts execute_run.0.accounts
unfolding process_instruction
execute-History =
    ran 0 execute_infos (1 ∷ execute_input) world execute_run.0 execute_run.0.accounts execute_run.1
      (now execute_run.0.accounts)

History-Keeps_example :
    (d' : P256WebauthnAccountData) × IsEnrolled program_id execute_run.0.accounts account_key d'
    × Keeps stored d'
History-Keeps_example =
    History-Keeps (λ n. runtime) reference program_id (λ n. runtime-IsRuntime) (λ n. refl)
      reference-IsBorsh accounts execute_run.0.accounts account_key stored execute-History
      stored-IsEnrolled

refresh_then_session_example :
    (args : RefreshSessionKeyArgs) × (t : ℕ) × (u : ℕ) × (reference.try_from_slice
        RefreshSessionKeyArgs
        (args_codec reference)
        refresh_input
      ≡ some args)
    × (runtime.clock ≡ ok t)
    × (runtime.clock ≡ ok u)
    × (new_signer.is_signer ≡ true)
    × (new_signer.key ≡ args.session_key.key)
    × (u ≤ (t + args.session_key.expiration) % 2 ^ 64)
    × ((t + args.session_key.expiration) % 2 ^ 64 ≤ (t + session_key_expiration_limit) % 2 ^ 64)
refresh_then_session_example =
    refresh_then_session runtime runtime-IsRuntime reference reference-IsBorsh runtime external_info
      new_signer external_info
      (info (key_of 13) false false ∷ info slot_hashes_id false false ∷ signer_info ∷ [])
      execution_infos refresh_input sessioned_input world refresh_run.0 new_session_run.0 stored
      stored-IsEnrolled refresh_run.1 refl new_session_run.1
