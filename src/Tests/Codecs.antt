-- ===== src/Tests/Codecs.antt =====
-- Short vectors of bytes, and the packed parameters of the client data.
use external_signature_progr.Base.{
  ℕ, ◌<◌, ◌≡◌, ◌++◌, refl, false, true, Bytes, [], ◌∷◌, some, arith, All, from_le,
}
use external_signature_progr.Borsh.{read_all}
use external_signature_progr.Borsh.Laws.{RoundTrips, int-RoundTrips}
use external_signature_progr.Borsh.Reference.{reference, reference-IsBorsh}
use external_signature_progr.Utils.Signatures.ClientDataJson.{
  get, new_with_optional_cross_origin, auth_type, is_cross_origin, is_http, has_google_extra,
  omits_cross_origin,
}
use external_signature_progr.Utils.Signatures.ClientDataJson.Params.{
  new_with_optional_cross_origin_getters,
}
use external_signature_progr.Utils.SmallVec.{serialize, deserialize_reader, read_items}
use external_signature_progr.Utils.SmallVec.RoundTrip.{deserialize_reader-serialize}

abbrev bytes : Bytes
bytes = 7 ∷ 8 ∷ []

byte-RoundTrips : (v : ℕ) → v < 256 → RoundTrips (reference.int 1) v
byte-RoundTrips v h = int-RoundTrips reference reference-IsBorsh 1 v (omega arith)

bytes-RoundTrips : All (RoundTrips (reference.int 1)) bytes
bytes-RoundTrips = (byte-RoundTrips 7 (omega arith), (byte-RoundTrips 8 (omega arith), tt))

deserialize_reader-serialize_example :
    (w : Bytes) × (serialize (reference.int 1) 1 bytes ≡ some w)
    × ((rest : Bytes)
        → deserialize_reader (reference.int 1) reference 1 (w ++ rest) ≡ some (bytes, rest))
deserialize_reader-serialize_example =
    deserialize_reader-serialize (reference.int 1) (reference-IsBorsh.int-IsCodec 1) reference
      reference-IsBorsh 1 bytes (omega arith) bytes-RoundTrips

read : deserialize_reader (reference.int 1) reference 1 (2 ∷ 7 ∷ 8 ∷ 9 ∷ []) ≡ some (bytes, 9 ∷ [])
unfolding deserialize_reader read_items read_all from_le
read = refl

new_with_optional_cross_origin_getters_example :
    let p = new_with_optional_cross_origin get true false false true (some 443) in
    (auth_type p ≡ get)
    × (is_cross_origin p ≡ true)
    × (is_http p ≡ false)
    × (has_google_extra p ≡ true)
    × (omits_cross_origin p ≡ true)
    × (p.port ≡ some 443)
unfolding new_with_optional_cross_origin
new_with_optional_cross_origin_getters_example =
    new_with_optional_cross_origin_getters get true false false true (some 443)
