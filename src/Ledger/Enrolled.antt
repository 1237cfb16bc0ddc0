-- ===== src/Ledger/Enrolled.antt =====
-- Accounts of the ledger that hold passkey data, and what reading and writing them through the
-- wrapper does (src/state/externally_signed_account/account.rs).
use external_signature_progr.Base.{
  ◌≡◌, ◌≢◌, refl, sym, ◌∙◌, ap, Bytes, Pubkey, ◌++◌, length, append-nil, take, drop, take-all,
  drop-all, Bool, true, false, if◌then◌else◌, not, ◌||◌, ◌==◌, ltb, [], bytes_eq_refl, bytes_eq_ne,
}
use external_signature_progr.Errors.{
  ProgramError, ok, err, into, error_deserializing_header, error_deserializing_account_data,
}
use external_signature_progr.Errors.Laws.{>>=-eq-ok}
use external_signature_progr.Ledger.Rules.{IsUntouched, IsUntouched-same, IsForeign}
use external_signature_progr.Runtime.{Runtime, AccountInfo, AccountState, Accounts}
use external_signature_progr.State.Account.{ExternallySignedAccount, bytes_of, data_ref, header}
use external_signature_progr.State.Account.Keeps.{IsCurrent}
use external_signature_progr.State.Account.View.{IsLoaded, state_of, written}
use external_signature_progr.State.P256Webauthn.{P256WebauthnAccountData}
use external_signature_progr.State.P256Webauthn.Layout.{encode, decode}
use external_signature_progr.State.P256Webauthn.Layout.RoundTrip.{decode-encode, length-encode}
use external_signature_progr.State.P256Webauthn.Scheme
use external_signature_progr.World.{World}

-- An account's state belongs to the program `id` and holds the data `d`, and nothing else.
pub record IsHolding (id : Pubkey) (d : P256WebauthnAccountData) (s : AccountState) : Type 0 where
  pub owned : s.owner ≡ id
  pub size : length s.bytes ≡ 152
  pub holds : s.bytes ≡ encode d
  pub current : IsCurrent d

abbrev pub IsEnrolled : Pubkey → Accounts → Pubkey → P256WebauthnAccountData → Type 0
IsEnrolled id accounts key d = IsHolding id d (accounts key)

-- A write to another account leaves it.
pub written-IsUntouched :
    (w : World) (self : ExternallySignedAccount) (d : P256WebauthnAccountData) (key : Pubkey)
    → self.account_info.key ≢ key
    → IsUntouched (w.accounts key) ((written w self d).accounts key)
written-IsUntouched w self d key other =
    IsUntouched-same (w.accounts key) ((written w self d).accounts key)
      (rw (bytes_eq_ne self.account_info.key key other) refl)

pub IsUntouched-IsHolding :
    (id : Pubkey) (d : P256WebauthnAccountData) (s s' : AccountState)
    → IsUntouched s s'
    → IsHolding id d s
    → IsHolding id d s'
IsUntouched-IsHolding id d s s' u h = record {
  owned = u.owner ∙ h.owned;
  size = ap length u.bytes ∙ h.size;
  holds = u.bytes ∙ h.holds;
  current = h.current;
}

pub IsForeign-IsHolding :
    (id : Pubkey) (d : P256WebauthnAccountData) (s s' : AccountState)
    → IsForeign id s s'
    → IsHolding id d s
    → IsHolding id d s'
IsForeign-IsHolding id d s s' f h = IsUntouched-IsHolding id d s s' (f.kept h.owned) h

-- What passes the three checks of `data_ref`.
checks-eq-ok :
    {A : Type 0} (t u v : Bool) (x : A) (e e' e'' : ProgramError) {y : A}
    → (if t then err e else if u then err e' else if v then ok x else err e'') ≡ ok y
    → x ≡ y
checks-eq-ok true u v x e e' e'' h = cc
checks-eq-ok false true v x e e' e'' h = cc
checks-eq-ok false false true x e e' e'' h = cc
checks-eq-ok false false false x e e' e'' h = cc

module _ (id : Pubkey) (w : World) (self : ExternallySignedAccount) (d : P256WebauthnAccountData)
    (h : IsEnrolled id w.accounts self.account_info.key d) where
  -- A write to it replaces its data.
  pub written-IsEnrolled :
      (d' : P256WebauthnAccountData)
      → IsCurrent d'
      → IsEnrolled id (written w self d').accounts self.account_info.key d'
  written-IsEnrolled d' current =
      let key = self.account_info.key in
      let state : (written w self d').accounts key
          ≡ record (state_of w self) { bytes = encode d' ++ drop 152 (state_of w self).bytes } =
        rw (bytes_eq_refl key) refl in
      let rest : drop 152 (state_of w self).bytes ≡ [] =
        drop-all 152 (state_of w self).bytes h.size in
      let bytes : ((written w self d').accounts key).bytes ≡ encode d' =
        ap (λ (s : AccountState). s.bytes) state
        ∙ ap (λ (r : Bytes). encode d' ++ r) rest
        ∙ append-nil (encode d') in
      record {
        owned = ap (λ (s : AccountState). s.owner) state ∙ h.owned;
        size = ap length bytes ∙ length-encode d' current.fields;
        holds = bytes;
        current = current;
      }

  -- Reading it gives its data.
  pub data_ref-IsEnrolled :
      (rt : Runtime) (found : P256WebauthnAccountData)
      → self.len ≡ 152
      → data_ref rt self w.accounts ≡ ok found
      → found ≡ d
  unfolding data_ref bytes_of
  data_ref-IsEnrolled rt found whole e =
      let bytes = (state_of w self).bytes in
      let all : bytes_of self w.accounts ≡ bytes = take-all self.len bytes (h.size ∙ sym whole) in
      let (h', _, k) = >>=-eq-ok (header self w.accounts) _ e in
      let read : decode (take 152 (bytes_of self w.accounts)) ≡ found =
        checks-eq-ok (not (h'.version == Scheme.version) || not (h'.scheme == Scheme.scheme))
          (ltb (length (bytes_of self w.accounts)) Scheme.size)
          (rt.is_aligned (state_of w self).address 8)
          (decode (take Scheme.size (bytes_of self w.accounts))) (into error_deserializing_header)
          (into error_deserializing_account_data) (into error_deserializing_account_data) k in
      let image : take 152 (bytes_of self w.accounts) ≡ encode d =
        ap (take 152) (all ∙ h.holds)
        ∙ take-all 152 (encode d) (length-encode d h.current.fields) in
      sym read ∙ ap decode image ∙ decode-encode d h.current.fields

-- The length in a wrapper of such an account.
pub IsLoaded-len :
    (rt : Runtime) (id : Pubkey) (info : AccountInfo) (w : World) (self : ExternallySignedAccount)
    (key : Pubkey) (d : P256WebauthnAccountData)
    → IsEnrolled id w.accounts key d
    → IsLoaded rt info w self
    → self.account_info.key ≡ key
    → self.len ≡ 152
IsLoaded-len rt id info w self key d h l same =
    l.whole
    ∙ ap (λ (k : Pubkey). length (w.accounts k).bytes)
        (sym (ap (λ (i : AccountInfo). i.key) l.account) ∙ same)
    ∙ h.size
