-- ===== src/Ledger/Parsed.antt =====
-- What the arguments of an initialization parse to
-- (src/state/p256_webauthn/initialization_args.rs, src/instructions/initialize_external_account.rs).
use external_signature_progr.Base.{
  ℕ, ◌-◌, ◌≡◌, refl, ◌++◌, sym, ap, ◌∙◌, arith, Bool, true, false, if◌then◌else◌, ltb, Bytes,
  length, length-append, length-replicate, replicate, Option, some, [],
}
use external_signature_progr.Borsh.{Borsh, fields}
use external_signature_progr.Borsh.Laws.{IsBorsh, fields_reads, derive_reads}
use external_signature_progr.Errors.{
  ProgramError, Result, ok, err, slice, index, ok_or, into, invalid_argument,
  p256_relying_part_too_long, p256_relying_part_include_quotes,
}
use external_signature_progr.Errors.Laws.{>>=-eq-ok, ok-injective, ok_or-eq-ok}
use external_signature_progr.Instructions.Initialize.{
  InitializeAccountArgs, args_codec, parse_raw_initialization_data,
}
use external_signature_progr.Ledger.Changes.{IsSessionKey}
use external_signature_progr.Ledger.Counters.{length-slice}
use external_signature_progr.Ledger.Handlers.{session_key_codec-IsSessionKey}
use external_signature_progr.Runtime.{Runtime}
use external_signature_progr.State.{SessionKey, session_key_codec}
use external_signature_progr.State.P256Webauthn.{
  RpIdInformation, CompressedP256PublicKey, P256RawInitializationData, P256ParsedInitializationData,
  new_rp_id_information, new_public_key, parse_initialization_data, raw_initialization_codec,
  contains, to_bytes,
}
use external_signature_progr.State.P256Webauthn.Keys.{new_public_key-to_bytes}
use external_signature_progr.Utils.Signatures.ClientDataJson.{params_codec}
use external_signature_progr.Utils.Sha256.{hash}
use external_signature_progr.Utils.SmallVec.{small_vec}
use mathlib.Core.Path.{subst}

-- What the layout asks of the fields, and the counter at its start.
pub record IsParsed (p : P256ParsedInitializationData) : Type 0 where
  pub rp_id : length p.rp_id_info.rp_id ≡ 32
  pub rp_id_hash : length p.rp_id_info.rp_id_hash ≡ 32
  pub x : length p.public_key.x ≡ 32
  pub counter : p.counter ≡ 0

new_rp_id_information-eq-ok :
    (rp_id rp_id_hash : Bytes) (info : RpIdInformation)
    → new_rp_id_information rp_id rp_id_hash ≡ ok info
    → (length info.rp_id ≡ 32) × (info.rp_id_hash ≡ rp_id_hash)
unfolding new_rp_id_information
new_rp_id_information-eq-ok rp_id rp_id_hash info e = ground (
  arith,
  length-append rp_id (replicate (32 - length rp_id) 0),
  length-replicate {A = ℕ} (32 - length rp_id) 0,
)

length-new_public_key :
    (bytes : Bytes) (key : CompressedP256PublicKey)
    → new_public_key bytes ≡ ok key
    → length key.x ≡ 32
unfolding new_public_key
length-new_public_key bytes key e =
    let (x, e1, k1) = >>=-eq-ok (slice bytes 1 33) _ e in
    let (parity, e2, k2) = >>=-eq-ok (index bytes 0) _ k1 in
    ap (λ (k : CompressedP256PublicKey). length k.x) (sym (ok-injective _ _ k2))
    ∙ length-slice bytes 1 33 x e1

checks-eq-ok :
    {A : Type 0} (t u : Bool) (e e' : ProgramError) (r : Result A) {y : A}
    → (if t then err e else if u then err e' else r) ≡ ok y
    → r ≡ ok y
checks-eq-ok true u e e' r h = cc
checks-eq-ok false true e e' r h = cc
checks-eq-ok false false e e' r h = h

module _ (rt : Runtime) (hash_length : (bs : Bytes) → length (hash rt bs) ≡ 32) where
  parse_initialization_data-IsParsed :
      (raw : P256RawInitializationData) (p : P256ParsedInitializationData)
      → parse_initialization_data rt raw ≡ ok p
      → IsParsed p
  unfolding parse_initialization_data
  parse_initialization_data-IsParsed raw p e =
      let k =
        checks-eq-ok (ltb 32 (length raw.rp_id)) (contains b'"' raw.rp_id)
          (into p256_relying_part_too_long) (into p256_relying_part_include_quotes) _ e in
      let (info, e1, k1) = >>=-eq-ok (new_rp_id_information raw.rp_id (hash rt raw.rp_id)) _ k in
      let (key, e2, k2) = >>=-eq-ok (new_public_key raw.public_key) _ k1 in
      let (wide, hashed) = new_rp_id_information-eq-ok raw.rp_id (hash rt raw.rp_id) info e1 in
      subst IsParsed (ok-injective _ p k2) (record {
        rp_id = wide;
        rp_id_hash = ap length hashed ∙ hash_length raw.rp_id;
        x = length-new_public_key raw.public_key key e2;
        counter = refl;
      })

  pub parse_raw_initialization_data-IsParsed :
      (b : Borsh) (bytes : Bytes) (p : P256ParsedInitializationData)
      → parse_raw_initialization_data rt b bytes ≡ ok p
      → IsParsed p
  unfolding parse_raw_initialization_data
  parse_raw_initialization_data-IsParsed b bytes p e =
      let (raw, _, k) =
        >>=-eq-ok
          (ok_or invalid_argument
            (b.try_from_slice P256RawInitializationData (raw_initialization_codec b) bytes))
          _ e in
      parse_initialization_data-IsParsed raw p k

-- The session key of the arguments, where there is one.
pub args-IsSessionKey :
    (b : Borsh)
    → IsBorsh b
    → (bs : Bytes) (args : InitializeAccountArgs) (s : SessionKey)
    → b.try_from_slice InitializeAccountArgs (args_codec b) bs ≡ some args
    → args.session_key ≡ some s
    → IsSessionKey s
unfolding args_codec
args-IsSessionKey b h bs args s parsed given =
    let vec = small_vec (b.int 1) b 1 in
    let key = b.option SessionKey (session_key_codec b) in
    let (p, e1, same) =
      derive_reads _ _ (fields (b.int 2) (fields (b.int 1) (fields vec key))) bs args []
        ((h.exact InitializeAccountArgs (args_codec b) bs args).0 parsed) in
    let (bs1, _, e2) = fields_reads (b.int 2) (fields (b.int 1) (fields vec key)) bs p [] e1 in
    let (bs2, _, e3) = fields_reads (b.int 1) (fields vec key) bs1 p.1 [] e2 in
    let (bs3, _, e4) = fields_reads vec key bs2 p.1.1 [] e3 in
    let some_key : p.1.1.1 ≡ some s =
      ap (λ (a : InitializeAccountArgs). a.session_key) same ∙ given in
    let (bs4, e5) =
      h.option_range SessionKey (session_key_codec b) bs3 s []
        (e4 ∙ ap (λ (k : Option SessionKey). some (k, [])) some_key) in
    session_key_codec-IsSessionKey b h bs4 s [] e5

-- What the bytes of the arguments say of the relying party and of the passkey: the name, padded with
-- zeros, with its length and its hash, and the 33 bytes of the key.
pub record IsMeant (rt : Runtime) (b : Borsh) (bytes : Bytes) (p : P256ParsedInitializationData)
    : Type 0 where
  pub raw : P256RawInitializationData
  pub read :
      b.try_from_slice P256RawInitializationData (raw_initialization_codec b) bytes ≡ some raw
  pub name_length : p.rp_id_info.rp_id_len ≡ length raw.rp_id
  pub name : p.rp_id_info.rp_id ≡ raw.rp_id ++ replicate (32 - length raw.rp_id) 0
  pub name_hash : p.rp_id_info.rp_id_hash ≡ hash rt raw.rp_id
  pub key : to_bytes p.public_key ≡ raw.public_key
  pub params : p.params ≡ raw.params

rp_id_info-named :
    (rp_id rp_id_hash : Bytes) (info : RpIdInformation)
    → new_rp_id_information rp_id rp_id_hash ≡ ok info
    → (info.rp_id_len ≡ length rp_id)
      × (info.rp_id ≡ rp_id ++ replicate (32 - length rp_id) 0)
      × (info.rp_id_hash ≡ rp_id_hash)
unfolding new_rp_id_information
rp_id_info-named rp_id rp_id_hash info e = ground arith

raw-length :
    (b : Borsh)
    → IsBorsh b
    → (bytes : Bytes) (raw : P256RawInitializationData)
    → b.try_from_slice P256RawInitializationData (raw_initialization_codec b) bytes ≡ some raw
    → length raw.public_key ≡ 33
unfolding raw_initialization_codec
raw-length b h bytes raw e =
    let vec = small_vec (b.int 1) b 1 in
    let (p, e1, same) =
      derive_reads _ _ (fields vec (fields (b.array 33) (params_codec b))) bytes raw []
        ((h.exact P256RawInitializationData (raw_initialization_codec b) bytes raw).0 e) in
    let (bs1, _, e2) = fields_reads vec (fields (b.array 33) (params_codec b)) bytes p [] e1 in
    let (bs2, key, _) = fields_reads (b.array 33) (params_codec b) bs1 p.1 [] e2 in
    ap (λ (r : P256RawInitializationData). length r.public_key) (sym same)
    ∙ h.array_range 33 bs1 p.1.0 bs2 key

pub parse_raw_initialization_data-IsMeant :
    (rt : Runtime) (b : Borsh)
    → IsBorsh b
    → (bytes : Bytes) (p : P256ParsedInitializationData)
    → parse_raw_initialization_data rt b bytes ≡ ok p
    → IsMeant rt b bytes p
unfolding parse_raw_initialization_data parse_initialization_data
parse_raw_initialization_data-IsMeant rt b h bytes p e =
    let (raw, read, k0) =
      >>=-eq-ok
        (ok_or invalid_argument
          (b.try_from_slice P256RawInitializationData (raw_initialization_codec b) bytes))
        _ e in
    let decoded = ok_or-eq-ok invalid_argument _ read in
    let k =
      checks-eq-ok (ltb 32 (length raw.rp_id)) (contains b'"' raw.rp_id)
        (into p256_relying_part_too_long) (into p256_relying_part_include_quotes) _ k0 in
    let (info, e1, k1) = >>=-eq-ok (new_rp_id_information raw.rp_id (hash rt raw.rp_id)) _ k in
    let (key, e2, k2) = >>=-eq-ok (new_public_key raw.public_key) _ k1 in
    let (len, name, hashed) = rp_id_info-named raw.rp_id (hash rt raw.rp_id) info e1 in
    let (key', e3, same) =
      new_public_key-to_bytes raw.public_key (raw-length b h bytes raw decoded) in
    let one : key ≡ key' = ok-injective key key' (sym e2 ∙ e3) in
    subst (IsMeant rt b bytes) (ok-injective _ p k2) (record {
      raw = raw;
      read = decoded;
      name_length = len;
      name = name;
      name_hash = hashed;
      key = ap to_bytes one ∙ same;
      params = refl;
    })
