-- ===== src/Ledger/Assertions.antt =====
-- The assertions that an account's instructions need, over many transactions
-- (src/instructions/execute_instructions.rs, refresh_session_key.rs).
use external_signature_progr.Base.{
  ℕ, ◌<◌, ◌≤◌, ◌≡◌, ◌⊎◌, inl, inr, sym, ap, ◌∙◌, arith, Bytes, Pubkey, List, ◌∷◌,
}
use external_signature_progr.Borsh.{Borsh}
use external_signature_progr.Borsh.Laws.{IsBorsh}
use external_signature_progr.Instructions.Execute.Authorized.{IsAuthorized}
use external_signature_progr.Instructions.Invoke.Trace.{invoke_instructions_exact}
use external_signature_progr.Instructions.Refresh.Authorized
use external_signature_progr.Ledger.Changes.{IsVerified-IsCurrent}
use external_signature_progr.Ledger.Enrolled.{
  IsEnrolled, written-IsEnrolled, data_ref-IsEnrolled, IsLoaded-len,
}
use external_signature_progr.Ledger.Handlers.{Runs-IsEnrolled}
use external_signature_progr.Ledger.History.{History, History-Keeps}
use external_signature_progr.Ledger.Rules.{IsRuntime}
use external_signature_progr.Ledger.Sessions.{refreshed-IsEnrolled}
use external_signature_progr.Runtime.{Runtime, AccountInfo}
use external_signature_progr.State.{to_signer_seeds}
use external_signature_progr.State.Account.Keeps.{IsCurrent}
use external_signature_progr.State.Account.View.{written}
use external_signature_progr.State.P256Webauthn.{P256WebauthnAccountData}
use external_signature_progr.State.P256Webauthn.Scheme.History.{Reaches-Keeps, rekeyed, here}
use external_signature_progr.State.P256Webauthn.Scheme.Verify.{CountsUp}
use external_signature_progr.Utils.Sha256.{hash}
use external_signature_progr.World.{World}
use mathlib.Core.Path.{subst}

-- An execution or a refresh for the account `key` that was authorized and took its world to the
-- next one, and the counter of the assertion that authorized it. A handler succeeds exactly when it
-- was authorized (Instructions.Execute.Exact, Instructions.Refresh.Exact).
pub data Approved (rt : Runtime) (b : Borsh) (key : Pubkey) : World → World → ℕ → Type 0 where
  executed :
      (x : AccountInfo) (others : List AccountInfo) (input : Bytes) (w w' : World)
      → x.key ≡ key
      → (a : IsAuthorized rt b (x ∷ others) input w w')
      → Approved rt b key w w' a.verified.assertion.counter
  refreshed :
      (x : AccountInfo) (others : List AccountInfo) (input : Bytes) (w w' : World)
      → x.key ≡ key
      → (a : Authorized.IsAuthorized rt b (x ∷ others) input w w')
      → Approved rt b key w w' a.verified.assertion.counter

CountsUp-counters :
    (d : P256WebauthnAccountData) (n : ℕ) (d' : P256WebauthnAccountData)
    → CountsUp d n d'
    → ((d.counter < n) ⊎ (n ≡ 0)) × (n ≤ d'.counter)
CountsUp-counters d n d' (inl (zeroed, same)) = (inr zeroed, omega (arith, zeroed))
CountsUp-counters d n d' (inr (up, same)) =
    (inl up, omega (arith, ap (λ (r : P256WebauthnAccountData). r.counter) same))

module _ (rt : Runtime) (rules : IsRuntime rt) (b : Borsh) where
  -- An execution computes on the data that the account holds, and leaves what the verification
  -- computed.
  pub executed-IsEnrolled :
      (infos : List AccountInfo) (input : Bytes) (w w' : World) (key : Pubkey)
      (d : P256WebauthnAccountData)
      → (a : IsAuthorized rt b infos input w w') → a.external_account.key ≡ key
      → IsEnrolled rt.id w.accounts key d
      → (a.before ≡ d) × IsEnrolled rt.id w'.accounts key a.after
  executed-IsEnrolled infos input w w' key d a same enrolled =
      let c = a.context in
      let self = c.externally_signed_account in
      let there : self.account_info.key ≡ key =
        ap (λ (i : AccountInfo). i.key) a.checked.loaded.account ∙ same in
      let h : IsEnrolled rt.id w.accounts self.account_info.key d =
        subst (λ k. IsEnrolled rt.id w.accounts k d) (sym there) enrolled in
      let len =
        IsLoaded-len rt rt.id a.external_account w self key d enrolled a.checked.loaded there in
      let found = data_ref-IsEnrolled rt.id w self d h rt a.before len a.read in
      let (current, _) =
        IsVerified-IsCurrent rt rules a.instructions_info c.instructions_sysvar a.before
          c.verification_data (hash rt a.payload) a.after a.checked.sysvar a.verified
          (subst IsCurrent (sym found) h.current) in
      let w1 = written w self a.after in
      let h1 =
        subst (λ k. IsEnrolled rt.id w1.accounts k a.after) there
          (written-IsEnrolled rt.id w self d h a.after current) in
      let runs =
        (invoke_instructions_exact rt c.instruction_execution_account_metas
            c.instruction_execution_accounts (to_signer_seeds c.execution_account)
            a.args.instructions w1 w').0
          a.ran in
      (found, Runs-IsEnrolled rt rules key _ _ _ a.after _ w1 w' runs h1)

  -- The counter that an approval needs, and the one that it leaves.
  Approved-counters :
      IsBorsh b
      → (key : Pubkey) (w w' : World) (n : ℕ) (d : P256WebauthnAccountData)
      → Approved rt b key w w' n
      → IsEnrolled rt.id w.accounts key d
      → ((d.counter < n) ⊎ (n ≡ 0))
        × (d' : P256WebauthnAccountData) × IsEnrolled rt.id w'.accounts key d'
        × (n ≤ d'.counter)
  Approved-counters laws key _ _ _ d (executed x others input w w' same a) h =
      let first : a.external_account ≡ x = cc a.listed in
      let (found, h') =
        executed-IsEnrolled (x ∷ others) input w w' key d a
          (ap (λ (i : AccountInfo). i.key) first ∙ same) h in
      let (up, le) = CountsUp-counters d a.verified.assertion.counter a.after (
        subst (λ q. CountsUp q a.verified.assertion.counter a.after) found
          a.verified.assertion.counts_up) in
      (up, a.after, h', le)
  Approved-counters laws key _ _ _ d (refreshed x others input w w' same a) h =
      let first : a.external_account ≡ x = cc a.listed in
      let (found, again, h') =
        refreshed-IsEnrolled rt rules b laws (x ∷ others) input w w' key d a
          (ap (λ (i : AccountInfo). i.key) first ∙ same) h in
      let (up, le) = CountsUp-counters d a.verified.assertion.counter a.after (
        subst (λ q. CountsUp q a.verified.assertion.counter a.after) found
          a.verified.assertion.counts_up) in
      let kept =
        Reaches-Keeps a.counted a.refreshed
          (rekeyed rt a.counted a.refreshed a.refreshed _ a.updated (here a.refreshed)) in
      (
        up,
        a.refreshed,
        h',
        omega (arith, le, ap (λ (q : P256WebauthnAccountData). q.counter) again, kept.counter),
      )

module _ (at : ℕ → Runtime) (b : Borsh) (id : Pubkey) (rules : (n : ℕ) → IsRuntime (at n))
    (same_id : (n : ℕ) → (at n).id ≡ id) (laws : IsBorsh b) where
  -- No assertion counts twice: if a passkey approved an execution or a refresh for an account that
  -- holds data, and approves another one after any successful instructions of the program and
  -- whatever other programs may do, then the assertion of the later one has a greater counter than
  -- that of the earlier one, or the counter 0 of an authenticator that does not count. The runtime
  -- and borsh keep their documented rules, and the program's id is one throughout.
  pub approvals_count_up :
      (i j : ℕ) (key : Pubkey) (u u' v v' : World) (n m : ℕ) (d : P256WebauthnAccountData)
      → IsEnrolled id u.accounts key d
      → Approved (at i) b key u u' n
      → History at b id u'.accounts v.accounts
      → Approved (at j) b key v v' m
      → (n < m) ⊎ (m ≡ 0)
  approvals_count_up i j key u u' v v' n m d h first history second =
      let (_, d1, h1, le) =
        Approved-counters (at i) (rules i) b laws key u u' n d first
          (subst (λ k. IsEnrolled k u.accounts key d) (sym (same_id i)) h) in
      let (d2, h2, kept) =
        History-Keeps at b id rules same_id laws u'.accounts v.accounts key d1 history
          (subst (λ k. IsEnrolled k u'.accounts key d1) (same_id i) h1) in
      let (up, _, _, _) =
        Approved-counters (at j) (rules j) b laws key v v' m d2 second
          (subst (λ k. IsEnrolled k v.accounts key d2) (sym (same_id j)) h2) in
      elim up [ inl more ↦ inl (omega (arith, le, kept.counter, more)) | inr zeroed ↦ inr zeroed ]
