-- ===== src/State/P256Webauthn/Layout/RoundTrip.antt =====
-- Writing account data into bytes and reading them back
-- (src/state/p256_webauthn/account_data.rs).
use external_signature_progr.Base.{
  ℕ, zero, suc, ◌+◌, ◌^◌, ◌<◌, ◌≡◌, refl, ap, sym, ◌∙◌, Bytes, [], ◌∷◌, ◌++◌, length, length-append,
  arith, take, drop, get_or, le_bytes, from_le, take-append, drop-drop, drop-append, append-nil,
}
use external_signature_progr.Base.Numbers.{from_le-le_bytes, length-le_bytes}
use external_signature_progr.State.P256Webauthn.{P256WebauthnAccountData}
use external_signature_progr.State.P256Webauthn.Layout.{encode, decode}

-- The widths of the fields that the layout fixes.
pub record IsWellFormed (d : P256WebauthnAccountData) : Type 0 where
  pub reserved : length d.header.reserved ≡ 2
  pub rp_id : length d.rp_id_info.rp_id ≡ 32
  pub rp_id_hash : length d.rp_id_info.rp_id_hash ≡ 32
  pub x : length d.public_key.x ≡ 32
  pub padding : length d.padding ≡ 2
  pub key : length d.session_key.key ≡ 32
  pub expiration : d.session_key.expiration < 2 ^ 64
  pub counter : d.counter < 2 ^ 64

-- The field at an offset, and what stands behind it.
skip :
    (xs : Bytes) (m n : ℕ) (ys zs : Bytes)
    → drop m xs ≡ ys ++ zs
    → length ys ≡ n
    → (take n (drop m xs) ≡ ys) × (drop (m + n) xs ≡ zs)
skip xs m n ys zs e h = (
  ap (take n) e ∙ take-append n ys zs h,
  sym (drop-drop m n xs) ∙ ap (drop n) e ∙ drop-append n ys zs h,
)

get_or-drop : (n : ℕ) (xs : Bytes) → get_or xs n 0 ≡ get_or (drop n xs) 0 0
get_or-drop zero xs = refl
get_or-drop (suc n) [] = refl
get_or-drop (suc n) (x ∷ xs) = get_or-drop n xs

byte_at : (xs : Bytes) (m b : ℕ) (zs : Bytes) → drop m xs ≡ b ∷ zs → get_or xs m 0 ≡ b
byte_at xs m b zs e = get_or-drop m xs ∙ ap (λ (l : Bytes). get_or l 0 0) e

-- Account data that is written into bytes is read back field by field, when the fields have the
-- widths of the layout.
pub decode-encode : (d : P256WebauthnAccountData) → IsWellFormed d → decode (encode d) ≡ d
unfolding decode encode
decode-encode d h =
    let bs = encode d in
    let (reserved, e4) = skip bs 2 2 d.header.reserved _ refl h.reserved in
    let rp_id_len = byte_at bs 4 _ _ e4 in
    let (_, e5) = skip bs 4 1 (d.rp_id_info.rp_id_len ∷ []) _ e4 refl in
    let (rp_id, e37) = skip bs 5 32 d.rp_id_info.rp_id _ e5 h.rp_id in
    let (rp_id_hash, e69) = skip bs 37 32 d.rp_id_info.rp_id_hash _ e37 h.rp_id_hash in
    let (x, e101) = skip bs 69 32 d.public_key.x _ e69 h.x in
    let y_parity = byte_at bs 101 _ _ e101 in
    let (_, e102) = skip bs 101 1 (d.public_key.y_parity ∷ []) _ e101 refl in
    let (padding, e104) = skip bs 102 2 d.padding _ e102 h.padding in
    let (key, e136) = skip bs 104 32 d.session_key.key _ e104 h.key in
    let (expiration, e144) =
      skip bs 136 8 (le_bytes 8 d.session_key.expiration) _ e136
        (length-le_bytes 8 d.session_key.expiration) in
    let (counter, _) =
      skip bs 144 8 (le_bytes 8 d.counter) [] (e144 ∙ sym (append-nil _))
        (length-le_bytes 8 d.counter) in
    let expiration' =
      ap from_le expiration ∙ from_le-le_bytes 8 d.session_key.expiration h.expiration in
    let counter' = ap from_le counter ∙ from_le-le_bytes 8 d.counter h.counter in
    λ i. record {
      header = record {
        version = d.header.version;
        scheme = d.header.scheme;
        reserved = reserved i;
      };
      rp_id_info = record { rp_id_len = rp_id_len i; rp_id = rp_id i; rp_id_hash = rp_id_hash i };
      public_key = record { x = x i; y_parity = y_parity i };
      padding = padding i;
      session_key = record { key = key i; expiration = expiration' i };
      counter = counter' i;
    }

-- The image fills the account's 152 bytes.
pub length-encode : (d : P256WebauthnAccountData) → IsWellFormed d → length (encode d) ≡ 152
unfolding encode
length-encode d h = simp length-append (
    omega (
      arith,
      h.reserved,
      h.rp_id,
      h.rp_id_hash,
      h.x,
      h.padding,
      h.key,
      length-le_bytes 8 d.session_key.expiration,
      length-le_bytes 8 d.counter,
    ))
