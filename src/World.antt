-- ===== src/World.antt =====
-- The state that an instruction runs in: the accounts, and the calls of other programs so far. A
-- failed instruction leaves no state, since the runtime undoes what it wrote.
pub mod Laws
use external_signature_progr.Base.{List, [], ◌∷◌, ◌++◌, Pubkey, ℕ, Bytes}
use external_signature_progr.Errors.{Result, ok, err, panic}
use external_signature_progr.Runtime.{Runtime, Accounts, AccountState, Invocation, update}

pub record World : Type 0 where
  pub accounts : Accounts
  pub invoked : List Invocation

abbrev pub M : Type 0 → Type 0
M A = World → Result (A × World)

abbrev pub pure : {A : Type 0} → A → M A
pure a w = ok (a, w)

infixl 5 ◌>>=◌ ◌>>◌
abbrev pub ◌>>=◌ : {A B : Type 0} → M A → (A → M B) → M B
(m >>= f) w = elim (m w) [ ok p ↦ f p.0 p.1 | err e ↦ err e | panic ↦ panic ]

abbrev pub ◌>>◌ : {B : Type 0} → M (Unit {0}) → M B → M B
m >> k = m >>= λ _. k

abbrev pub lift : {A : Type 0} → Result A → M A
lift (ok a) w = ok (a, w)
lift (err e) w = err e
lift panic w = panic

abbrev pub get_accounts : M Accounts
get_accounts w = ok (w.accounts, w)

abbrev pub put_state : Pubkey → AccountState → M (Unit {0})
put_state key state w = ok (tt, record w { accounts = update w.accounts key state })

-- A call that changes the accounts.
abbrev pub run : (Accounts → Result Accounts) → M (Unit {0})
run f w = elim (f w.accounts) [
  | ok accounts ↦ ok (tt, record w { accounts = accounts })
  | err e ↦ err e
  | panic ↦ panic
]

-- `slice_invoke_signed`
unfoldable pub slice_invoke_signed : Runtime → Invocation → M (Unit {0})
slice_invoke_signed rt call w = elim (rt.invoke call w.accounts) [
  | ok accounts ↦ ok (tt, record { accounts = accounts; invoked = w.invoked ++ (call ∷ []) })
  | err e ↦ err e
  | panic ↦ panic
]
