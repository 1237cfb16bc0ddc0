-- ===== src/State/P256Webauthn/Layout.antt =====
-- The `repr(C)` layout of `P256WebauthnAccountData` in an account's first 152 bytes
-- (src/state/p256_webauthn/account_data.rs).
pub mod RoundTrip
use external_signature_progr.Base.{ℕ, Bytes, [], ◌∷◌, ◌++◌, get_or, take, drop, le_bytes, from_le}
use external_signature_progr.State.P256Webauthn.{P256WebauthnAccountData}

unfoldable pub encode : P256WebauthnAccountData → Bytes
encode d =
    d.header.version
    ∷ (d.header.scheme
        ∷ (d.header.reserved
            ++ (d.rp_id_info.rp_id_len
                ∷ (d.rp_id_info.rp_id
                    ++ (d.rp_id_info.rp_id_hash
                        ++ (d.public_key.x
                            ++ (d.public_key.y_parity
                                ∷ (d.padding
                                    ++ (d.session_key.key
                                        ++ (le_bytes 8 d.session_key.expiration
                                            ++ le_bytes 8 d.counter))))))))))

-- Field by field, at the offsets of the layout.
unfoldable pub decode : Bytes → P256WebauthnAccountData
decode bs = record {
  header = record {
    version = get_or bs 0 0;
    scheme = get_or bs 1 0;
    reserved = take 2 (drop 2 bs);
  };
  rp_id_info = record {
    rp_id_len = get_or bs 4 0;
    rp_id = take 32 (drop 5 bs);
    rp_id_hash = take 32 (drop 37 bs);
  };
  public_key = record { x = take 32 (drop 69 bs); y_parity = get_or bs 101 0 };
  padding = take 2 (drop 102 bs);
  session_key = record { key = take 32 (drop 104 bs); expiration = from_le (take 8 (drop 136 bs)) };
  counter = from_le (take 8 (drop 144 bs));
}
