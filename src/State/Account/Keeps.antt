-- ===== src/State/Account/Keeps.antt =====
-- What a write through the wrapper leaves (src/state/externally_signed_account/account.rs).
use external_signature_progr.Base.{
  ℕ, ◌≤◌, ◌≡◌, ◌≢◌, refl, sym, ◌∙◌, ap, arith, true, false, Bytes, ◌++◌, length, length-append,
  length-drop, append-nil, take, drop, take-append, bytes_eq_refl, bytes_eq_ne, [], ltb, leb, ◌==◌,
  ==_iff, get_or,
}
use external_signature_progr.Errors.{ok, slice}
use external_signature_progr.Runtime.{Runtime, AccountState}
use external_signature_progr.State.P256Webauthn.{P256WebauthnAccountData, AccountHeader}
use external_signature_progr.State.P256Webauthn.Layout.{encode}
use external_signature_progr.State.P256Webauthn.Layout.RoundTrip.{
  IsWellFormed, decode-encode, length-encode,
}
use external_signature_progr.State.P256Webauthn.Scheme
use external_signature_progr.State.Account.{
  ExternallySignedAccount, bytes_of, header, data_ref, write_data,
}
use external_signature_progr.State.Account.View.{state_of, written}
use external_signature_progr.World.{World}

-- The account that the wrapper holds has been allocated, since when its length has not changed.
pub record IsAllocated (rt : Runtime) (w : World) (self : ExternallySignedAccount) : Type 0 where
  pub whole : self.len ≡ length (state_of w self).bytes
  pub room : 152 ≤ length (state_of w self).bytes
  pub aligned : rt.is_aligned (state_of w self).address 8 ≡ true

-- Data with the fields' widths and the header of this version and scheme.
pub record IsCurrent (d : P256WebauthnAccountData) : Type 0 where
  pub fields : IsWellFormed d
  pub version : d.header.version ≡ Scheme.version
  pub scheme : d.header.scheme ≡ Scheme.scheme

abbrev image : World → ExternallySignedAccount → P256WebauthnAccountData → Bytes
image w self d = encode d ++ drop Scheme.size (state_of w self).bytes

le→leb : (m n : ℕ) → m ≤ n → leb m n ≡ true
le→leb m n h = ground arith

le→ltb : (m n : ℕ) → m ≤ n → ltb n m ≡ false
le→ltb m n h = ground arith

module _ (rt : Runtime) (w : World) (self : ExternallySignedAccount) (d : P256WebauthnAccountData)
    (allocated : IsAllocated rt w self) (current : IsCurrent d) where
  length-image : length (image w self d) ≡ self.len
  length-image = omega (
    arith,
    length-append (encode d) (drop 152 (state_of w self).bytes),
    length-encode d current.fields,
    length-drop 152 (state_of w self).bytes,
    allocated.whole,
    allocated.room,
  )

  state_of-written :
      state_of (written w self d) self ≡ record (state_of w self) { bytes = image w self d }
  state_of-written = rw (bytes_eq_refl self.account_info.key) refl

  bytes_of-written : bytes_of self (written w self d).accounts ≡ image w self d
  unfolding bytes_of
  bytes_of-written = rw (bytes_eq_refl self.account_info.key) (
      ap (take self.len) (sym (append-nil (image w self d)))
      ∙ take-append self.len (image w self d) [] length-image)

  take-image : take 152 (image w self d) ≡ encode d
  take-image =
      take-append 152 (encode d) (drop 152 (state_of w self).bytes) (length-encode d current.fields)

  head_fits : leb 4 (length (image w self d)) ≡ true
  head_fits =
      le→leb 4 (length (image w self d))
        (omega (arith, length-image, allocated.whole, allocated.room))

  first_two :
      (get_or (take 4 (image w self d)) 0 0 ≡ d.header.version)
      × (get_or (take 4 (image w self d)) 1 0 ≡ d.header.scheme)
  unfolding encode
  first_two = (refl, refl)

  header-written :
      (h : AccountHeader) × (header self (written w self d).accounts ≡ ok h)
      × (h.version ≡ d.header.version)
      × (h.scheme ≡ d.header.scheme)
  unfolding header slice
  header-written =
      let bytes = image w self d in
      let h : AccountHeader = record {
        version = get_or (take 4 bytes) 0 0;
        scheme = get_or (take 4 bytes) 1 0;
        reserved = drop 2 (take 4 bytes);
      } in
      (h, rw (bytes_of-written, head_fits) refl, first_two.0, first_two.1)

  data_ref-written : data_ref rt self (written w self d).accounts ≡ ok d
  unfolding data_ref
  data_ref-written =
      let (h, e, version, scheme) = header-written in
      let right_version : (h.version == Scheme.version) ≡ true =
        (==_iff _ _).1 (version ∙ current.version) in
      let right_scheme : (h.scheme == Scheme.scheme) ≡ true =
        (==_iff _ _).1 (scheme ∙ current.scheme) in
      let big : ltb (length (image w self d)) Scheme.size ≡ false =
        le→ltb Scheme.size (length (image w self d))
          (omega (arith, length-image, allocated.whole, allocated.room)) in
      let aligned : rt.is_aligned (state_of (written w self d) self).address 8 ≡ true =
        ap (λ (a : AccountState). rt.is_aligned a.address 8) state_of-written ∙ allocated.aligned in
      rw
        (
          e,
          right_version,
          right_scheme,
          bytes_of-written,
          big,
          aligned,
          take-image,
          decode-encode d current.fields,
        )
        refl

  -- Data written through the wrapper are read back, and no other account changes, when the account
  -- has been allocated and its length has not changed since the wrapper was loaded, and the data
  -- have the fields' widths and the header of this version and scheme.
  pub write_data-data_ref :
      (write_data self d w ≡ ok (tt, written w self d))
      × (data_ref rt self (written w self d).accounts ≡ ok d)
      × ((k : Bytes) → self.account_info.key ≢ k → (written w self d).accounts k ≡ w.accounts k)
  unfolding write_data
  write_data-data_ref =
      (refl, data_ref-written, λ k other. rw (bytes_eq_ne self.account_info.key k other) refl)
