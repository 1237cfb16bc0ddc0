-- ===== src/Ledger/History.antt =====
-- The ledger over many transactions (src/entrypoint.rs).
use external_signature_progr.Base.{ℕ, zero, suc, arith, ◌≡◌, sym, Bytes, Pubkey, List, [], ◌∷◌}
use external_signature_progr.Borsh.{Borsh}
use external_signature_progr.Borsh.Laws.{IsBorsh}
use external_signature_progr.Entrypoint.{process_instruction}
use external_signature_progr.Errors.{ok}
use external_signature_progr.Instructions.Execute.{process_execute_instructions}
use external_signature_progr.Instructions.ExecuteSessioned.{process_execute_instructions_sessioned}
use external_signature_progr.Instructions.Initialize.{process_initialize_external_account}
use external_signature_progr.Instructions.Initialize.Fresh.{
  process_initialize_external_account-IsInitialized,
}
use external_signature_progr.Instructions.Refresh.{process_refresh_session_key}
use external_signature_progr.Ledger.Changes.{Next}
use external_signature_progr.Ledger.Enrolled.{IsEnrolled, IsForeign-IsHolding}
use external_signature_progr.Ledger.Handlers.{
  process_execute_instructions-Next, process_execute_instructions_sessioned-Next,
  process_refresh_session_key-Next,
}
use external_signature_progr.Ledger.Initialized.{initialized-elsewhere}
use external_signature_progr.Ledger.Rules.{IsRuntime, IsForeign}
use external_signature_progr.Runtime.{Runtime, AccountInfo, Accounts}
use external_signature_progr.State.P256Webauthn.{P256WebauthnAccountData}
use external_signature_progr.State.P256Webauthn.Scheme.History.{
  Reaches, here, Reaches-trans, Keeps, Reaches-Keeps,
}
use external_signature_progr.World.{World}
use mathlib.Core.Path.{subst}

-- What holds of a successful instruction, by its handler.
pub data Handled (rt : Runtime) (b : Borsh) (infos : List AccountInfo) (w w' : World) : Type 0 where
  initialized :
      (input : Bytes)
      → process_initialize_external_account rt b infos input w ≡ ok (tt, w')
      → Handled rt b infos w w'
  executed :
      (input : Bytes)
      → process_execute_instructions rt b infos input w ≡ ok (tt, w')
      → Handled rt b infos w w'
  refreshed :
      (input : Bytes)
      → process_refresh_session_key rt b infos input w ≡ ok (tt, w')
      → Handled rt b infos w w'
  executed_sessioned :
      (input : Bytes)
      → process_execute_instructions_sessioned rt b infos input w ≡ ok (tt, w')
      → Handled rt b infos w w'

pub process_instruction-Handled :
    (rt : Runtime) (b : Borsh) (infos : List AccountInfo) (input : Bytes) (w w' : World)
    → process_instruction rt b infos input w ≡ ok (tt, w')
    → Handled rt b infos w w'
unfolding process_instruction
process_instruction-Handled rt b infos [] w w' e = cc
process_instruction-Handled rt b infos (zero ∷ input) w w' e = initialized input e
process_instruction-Handled rt b infos (suc zero ∷ input) w w' e = executed input e
process_instruction-Handled rt b infos (suc (suc zero) ∷ input) w w' e = refreshed input e
process_instruction-Handled rt b infos (suc (suc (suc zero)) ∷ input) w w' e =
    executed_sessioned input e
process_instruction-Handled rt b infos (suc (suc (suc (suc n))) ∷ input) w w' e =
    absurd (ground arith)

-- The accounts from one moment to a later one: successful instructions of the program, each in the
-- runtime of its moment, and in between whatever other programs may do.
pub data History (at : ℕ → Runtime) (b : Borsh) (id : Pubkey) : Accounts → Accounts → Type 0 where
  now : (a : Accounts) → History at b id a a
  ran :
      (n : ℕ) (infos : List AccountInfo) (input : Bytes) (w w' : World) (a : Accounts)
      → process_instruction (at n) b infos input w ≡ ok (tt, w')
      → History at b id w'.accounts a
      → History at b id w.accounts a
  elsewhere :
      (a a' a'' : Accounts)
      → ((k : Pubkey) → IsForeign id (a k) (a' k))
      → History at b id a' a''
      → History at b id a a''

pub Handled-Next :
    (rt : Runtime) (rules : IsRuntime rt) (b : Borsh) (infos : List AccountInfo) (w w' : World)
    (key : Pubkey) (d : P256WebauthnAccountData)
    → IsBorsh b
    → Handled rt b infos w w'
    → IsEnrolled rt.id w.accounts key d
    → Next rt rules w' key d
Handled-Next rt rules b infos w w' key d laws (initialized input e) h = (
  d,
  initialized-elsewhere rt rules b infos input w w'
      (process_initialize_external_account-IsInitialized rt b infos input w w' e) key d h,
  here d,
)
Handled-Next rt rules b infos w w' key d laws (executed input e) h =
    process_execute_instructions-Next rt rules key d b infos input w w' h e
Handled-Next rt rules b infos w w' key d laws (refreshed input e) h =
    process_refresh_session_key-Next rt rules key d b infos input w w' h laws e
Handled-Next rt rules b infos w w' key d laws (executed_sessioned input e) h =
    process_execute_instructions_sessioned-Next rt rules key d b infos input w w' h e

module _ (at : ℕ → Runtime) (b : Borsh) (id : Pubkey) (rules : (n : ℕ) → IsRuntime (at n))
    (same_id : (n : ℕ) → (at n).id ≡ id) (laws : IsBorsh b) where
  -- Over any history of the ledger, the data of an account that holds some are what verifications and
  -- new session keys have made of them.
  pub History-Reaches :
      (a a' : Accounts) (key : Pubkey) (d : P256WebauthnAccountData)
      → History at b id a a'
      → IsEnrolled id a key d
      → (d' : P256WebauthnAccountData) × IsEnrolled id a' key d' × Reaches d d'
  History-Reaches _ _ key d (now a) h = (d, h, here d)
  History-Reaches _ _ key d (ran n infos input w w' a e r) h =
      let (d1, enrolled, reached) =
        Handled-Next (at n) (rules n) b infos w w' key d laws
          (process_instruction-Handled (at n) b infos input w w' e)
          (subst (λ i. IsEnrolled i w.accounts key d) (sym (same_id n)) h) in
      let (d2, enrolled', reached') =
        History-Reaches w'.accounts a key d1 r
          (subst (λ i. IsEnrolled i w'.accounts key d1) (same_id n) enrolled) in
      (d2, enrolled', Reaches-trans d d1 d2 reached reached')
  History-Reaches _ _ key d (elsewhere a a' a'' f r) h =
      History-Reaches a' a'' key d r (IsForeign-IsHolding id d (a key) (a' key) (f key) h)

  -- An account that holds data holds data for ever: over any successful instructions of the
  -- program and whatever other programs may do in between, it stays the program's, the header, the
  -- relying party and the passkey in its bytes stay, and the counter never falls. The runtime and
  -- borsh keep their documented rules, and the program's id is one throughout.
  pub History-Keeps :
      (a a' : Accounts) (key : Pubkey) (d : P256WebauthnAccountData)
      → History at b id a a'
      → IsEnrolled id a key d
      → (d' : P256WebauthnAccountData) × IsEnrolled id a' key d' × Keeps d d'
  History-Keeps a a' key d r h =
      let (d', enrolled, reached) = History-Reaches a a' key d r h in
      (d', enrolled, Reaches-Keeps d d' reached)
