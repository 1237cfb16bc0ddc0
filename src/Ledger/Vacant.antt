-- ===== src/Ledger/Vacant.antt =====
-- Accounts of the program without data: they cannot be loaded and read, so no handler but an
-- initialization writes to them (src/state/externally_signed_account/account.rs).
use external_signature_progr.Base.{
  ℕ, ◌≡◌, ◌≢◌, refl, sym, ap, ◌∙◌, arith, Bytes, Pubkey, All, All-take, [], ◌∷◌, length, get_or,
  inl, inr, same_or_other, ◌==◌, Bool, not, ◌||◌, if◌then◌else◌, ltb, take,
}
use external_signature_progr.Errors.{
  ProgramError, Result, ok, err, slice, into, error_deserializing_header,
  error_deserializing_account_data,
}
use external_signature_progr.Errors.Laws.{>>=-eq-ok, ok-injective}
use external_signature_progr.Ledger.Counters.{All-slice}
use external_signature_progr.Ledger.Enrolled.{written-IsUntouched}
use external_signature_progr.Ledger.Rules.{IsForeign, IsUntouched, IsZero}
use external_signature_progr.Runtime.{Runtime, AccountInfo, AccountState, Accounts}
use external_signature_progr.State.Account.{ExternallySignedAccount, bytes_of, data_ref, header}
use external_signature_progr.State.Account.View.{IsLoaded, state_of, written}
use external_signature_progr.State.P256Webauthn.{AccountHeader, P256WebauthnAccountData}
use external_signature_progr.State.P256Webauthn.Layout.{decode}
use external_signature_progr.State.P256Webauthn.Scheme
use external_signature_progr.World.{World}
use mathlib.Core.Path.{subst}

-- Not the program's, or without data.
abbrev pub IsVacant : Pubkey → AccountState → Type 0
IsVacant id s = s.owner ≡ id → All IsZero s.bytes

pub IsUntouched-IsVacant :
    (id : Pubkey) (s s' : AccountState) → IsUntouched s s' → IsVacant id s → IsVacant id s'
IsUntouched-IsVacant id s s' u v owned = subst (All IsZero) (sym u.bytes) (v (sym u.owner ∙ owned))

pub IsForeign-IsVacant :
    (id : Pubkey) (s s' : AccountState) → IsForeign id s s' → IsVacant id s → IsVacant id s'
IsForeign-IsVacant id s s' f v owned = elim (same_or_other s.owner id) [
  | inl ours ↦ IsUntouched-IsVacant id s s' (f.kept ours) v owned
  | inr other ↦ f.handed other owned
]

first_zero : (bs : Bytes) → All IsZero bs → get_or bs 0 0 ≡ 0
first_zero [] h = refl
first_zero (b ∷ bs) (zeroed, h) = zeroed

first_check :
    {A : Type 0} (n : ℕ) (t : Bool) (e : ProgramError) (r : Result A) {y : A}
    → (if not (n == Scheme.version) || t then err e else r) ≡ ok y
    → n ≢ 0
first_check n t e r h zeroed = ground arith

-- Zeros have no header of this version.
data_ref-not-IsZero :
    (rt : Runtime) (self : ExternallySignedAccount) (accounts : Accounts)
    (d : P256WebauthnAccountData)
    → data_ref rt self accounts ≡ ok d
    → ¬ All IsZero (accounts self.account_info.key).bytes
unfolding data_ref header bytes_of
data_ref-not-IsZero rt self accounts d e zeros =
    let bytes = bytes_of self accounts in
    let (h, e1, k1) = >>=-eq-ok (header self accounts) _ e in
    let (part, e2, k2) = >>=-eq-ok (slice bytes 0 4) _ e1 in
    let zero_version : h.version ≡ 0 =
      ap (λ (q : AccountHeader). q.version) (sym (ok-injective _ h k2))
      ∙ first_zero part (
          All-slice IsZero bytes 0 4 part e2
            (All-take IsZero self.len (accounts self.account_info.key).bytes zeros)) in
    first_check h.version (not (h.scheme == Scheme.scheme)) (into error_deserializing_header)
      (if ltb (length bytes) Scheme.size
        then err (into error_deserializing_account_data)
        else if rt.is_aligned (accounts self.account_info.key).address 8
        then ok (decode (take Scheme.size bytes))
        else err (into error_deserializing_account_data))
      k1 zero_version

no_bytes : (bs : Bytes) → length bs ≡ 0 → All IsZero bs
no_bytes [] h = tt
no_bytes (b ∷ bs) h = absurd (omega arith)

-- A wrapper whose data can be read has an account that is not vacant.
read-not-IsVacant :
    (rt : Runtime) (info : AccountInfo) (w : World) (self : ExternallySignedAccount)
    (d : P256WebauthnAccountData)
    → IsLoaded rt info w self
    → data_ref rt self w.accounts ≡ ok d
    → ¬ IsVacant rt.id (w.accounts self.account_info.key)
read-not-IsVacant rt info w self d l e v =
    let there : self.account_info.key ≡ info.key = ap (λ (i : AccountInfo). i.key) l.account in
    let zeros : All IsZero (w.accounts self.account_info.key).bytes = elim l.owned [
      | inl ours ↦ v (ap (λ k. (w.accounts k).owner) there ∙ ours)
      | inr p ↦ no_bytes (state_of w self).bytes (ap (λ k. length (w.accounts k).bytes) there ∙ p.1)
    ] in
    data_ref-not-IsZero rt self w.accounts d e zeros

-- A write through it leaves the vacant accounts.
pub written-IsVacant :
    (rt : Runtime) (info : AccountInfo) (w v : World) (self : ExternallySignedAccount)
    (d d' : P256WebauthnAccountData) (key : Pubkey)
    → IsLoaded rt info w self
    → data_ref rt self w.accounts ≡ ok d
    → IsVacant rt.id (w.accounts key)
    → IsVacant rt.id (v.accounts key)
    → IsVacant rt.id ((written v self d').accounts key)
written-IsVacant rt info w v self d d' key l e before after =
    let other : self.account_info.key ≢ key = λ same.
      read-not-IsVacant rt info w self d l e
        (subst (λ k. IsVacant rt.id (w.accounts k)) (sym same) before) in
    IsUntouched-IsVacant rt.id (v.accounts key) ((written v self d').accounts key)
      (written-IsUntouched v self d' key other) after
