-- ===== src/Sdk/Precompile/LowS.antt =====
-- What the SDK's crates document, and the compact signature against the DER signature
-- (sdks/rust-sdk/src/instructions/precompile.rs).
use external_signature_progr.Base.{
  ℕ, ◌+◌, ◌-◌, ◌*◌, ◌^◌, ◌<◌, ◌≤◌, ltb, Bool, false, ◌≡◌, refl, sym, ◌∙◌, arith, Bytes, length,
  length-append, length-replicate, replicate, ◌++◌, from_be, from_be_pad, le_bytes, some, ◌⊎◌, inl,
  inr, Bool-cases, ltb→lt, ltb→ge,
}
use external_signature_progr.Sdk.Precompile.{
  Secp256r1SignatureOffsets, Openssl, Secp256r1Program, padded, half_order, low_s,
  parse_der_signature_to_compact,
}
use external_signature_progr.Sdk.Types.{done}
use mathlib.Core.Path.{subst}

-- What openssl documents of its signed numbers, by magnitude and sign: a slice is read as a big-endian
-- number that is not negative, a vector is the magnitude without leading zeros, and numbers that are
-- not negative are compared and, the smaller from the larger, subtracted as such. None of these calls
-- fails but for memory.

pub record IsOpenssl (o : Openssl) : Type 1 where
  pub value : o.BigNum → ℕ
  pub negative : o.BigNum → Bool
  pub from_slice_value :
      (bs : Bytes)
      → (n : o.BigNum) × (o.from_slice bs ≡ some n) × (value n ≡ from_be bs) × (negative n ≡ false)
  pub to_vec_value : (n : o.BigNum) → from_be (o.to_vec n) ≡ value n
  pub to_vec_short : (n : o.BigNum) (w : ℕ) → value n < 256 ^ w → length (o.to_vec n) ≤ w
  pub gt_value :
      (m n : o.BigNum)
      → negative m ≡ false
      → negative n ≡ false
      → o.gt m n ≡ ltb (value n) (value m)
  pub fresh_some : (n : o.BigNum) × (o.fresh ≡ some n)
  pub sub_value :
      (m n : o.BigNum)
      → negative m ≡ false
      → negative n ≡ false
      → value n ≤ value m
      → (d : o.BigNum) × (o.checked_sub m n ≡ some d)
        × (value d + value n ≡ value m)
        × (negative d ≡ false)

padded-from_be : (bs : Bytes) → from_be (padded bs) ≡ from_be bs
unfolding padded
padded-from_be bs = from_be_pad (32 - length bs) bs

length-padded : (bs : Bytes) → length bs ≤ 32 → length (padded bs) ≡ 32
unfolding padded
length-padded bs h = omega (
  arith,
  length-append (replicate (32 - length bs) 0) bs,
  length-replicate {A = ℕ} (32 - length bs) 0,
)

half_order_small : from_be half_order < 256 ^ 31 * 128
unfolding from_be
half_order_small = omega arith

-- The documented layout of the offsets: seven u16, little-endian, in the fields' order.
unfoldable pub offsets_bytes : Secp256r1SignatureOffsets → Bytes
offsets_bytes o =
    le_bytes 2 o.signature_offset
    ++ (le_bytes 2 o.signature_instruction_index
        ++ (le_bytes 2 o.public_key_offset
            ++ (le_bytes 2 o.public_key_instruction_index
                ++ (le_bytes 2 o.message_data_offset
                    ++ (le_bytes 2 o.message_data_size
                        ++ le_bytes 2 o.message_instruction_index)))))

-- The order of the curve's group is odd, and what the SDK calls its half is the half rounded down.
pub record IsSecp256r1Program (program : Secp256r1Program) : Type 0 where
  pub order_value : from_be program.order ≡ 2 * from_be half_order + 1
  pub data_start_value : program.data_start ≡ 16
  pub offsets_layout : (o : Secp256r1SignatureOffsets) → program.offsets_bytes o ≡ offsets_bytes o

module _ (program : Secp256r1Program) where
  -- A 32-byte number in the lower half that is s or its negative.
  pub record IsLow (s : ℕ) (t : Bytes) : Type 0 where
    pub size : length t ≡ 32
    pub low : 2 * from_be t < from_be program.order
    pub same_up_to_sign : (from_be t ≡ s) ⊎ (from_be t + s ≡ from_be program.order)

module _ (o : Openssl) (program : Secp256r1Program) (ho : IsOpenssl o)
    (hp : IsSecp256r1Program program) where
  low_s-IsLow :
      (s : Bytes)
      → length s ≤ 32
      → from_be s ≤ from_be program.order
      → (t : Bytes) × (low_s o program s ≡ done t) × IsLow program (from_be s) t
  unfolding low_s
  low_s-IsLow s short le =
      let (n, en, vn, pn) = ho.from_slice_value s in
      let (half, eh, vh, ph) = ho.from_slice_value half_order in
      let (order, eo, vo, po) = ho.from_slice_value program.order in
      let odd = hp.order_value in
      elim (Bool-cases (o.gt n half)) [
        | inl above ↦
            (let (space, ef) = ho.fresh_some in
              let (d, ed, vd, _) = ho.sub_value order n po pn (omega (arith, vn, vo, le)) in
              let upper =
                ltb→lt (ho.value half) (ho.value n) (sym (ho.gt_value n half pn ph) ∙ above) in
              let difference : ho.value d + from_be s ≡ from_be program.order =
                omega (arith, vd, vo, vn) in
              let small : ho.value d < 256 ^ 32 =
                omega (arith, difference, upper, vn, vh, odd, half_order_small) in
              let fits = ho.to_vec_short d 32 small in
              let back = padded-from_be (o.to_vec d) ∙ ho.to_vec_value d in
              let inside : ltb 32 (length (o.to_vec d)) ≡ false = ground arith in
              (
                padded (o.to_vec d),
                rw (en, eh, eo, above, ef, ed, inside) refl,
                record {
                  size = length-padded (o.to_vec d) fits;
                  low = omega (arith, back, difference, upper, vn, vh, odd);
                  same_up_to_sign = inr (rw back difference);
                },
              ))
        | inr below ↦
            (let under =
                ltb→ge (ho.value half) (ho.value n) (sym (ho.gt_value n half pn ph) ∙ below) in
              let lower : from_be s ≤ from_be half_order = omega (arith, under, vn, vh) in
              let back = padded-from_be s in
              (
                padded s,
                rw (en, eh, eo, below) refl,
                record {
                  size = length-padded s short;
                  low = omega (arith, back, lower, odd);
                  same_up_to_sign = inl back;
                },
              ))
      ]

  -- A DER signature whose r fits 32 bytes and whose s is at most the order, in magnitude, becomes
  -- 32 bytes of r and 32 bytes in the lower half of the order that are s or, with s, add up to the
  -- order. Openssl's signed numbers behave as documented on those that are not negative, and the
  -- order is one more than twice the SDK's half.
  pub parse_der_signature_to_compact-IsLow :
      (der : Bytes) (r s : o.BigNum)
      → o.from_der der ≡ some (r, s)
      → ho.value r < 256 ^ 32
      → ho.value s ≤ from_be program.order
      → (rs : Bytes) × (ss : Bytes) × (parse_der_signature_to_compact o program der
          ≡ done (rs ++ ss))
        × (length rs ≡ 32)
        × (from_be rs ≡ ho.value r)
        × IsLow program (ho.value s) ss
  unfolding parse_der_signature_to_compact
  parse_der_signature_to_compact-IsLow der r s e hr hs =
      let vr = ho.to_vec_value r in
      let vs = ho.to_vec_value s in
      let order_small : ho.value s < 256 ^ 32 =
        omega (arith, hs, hp.order_value, half_order_small) in
      let fr = ho.to_vec_short r 32 hr in
      let fs = ho.to_vec_short s 32 order_small in
      let ir : ltb 32 (length (o.to_vec r)) ≡ false = ground arith in
      let is : ltb 32 (length (o.to_vec s)) ≡ false = ground arith in
      let (ss, es, low) = low_s-IsLow (o.to_vec s) fs (omega (arith, vs, hs)) in
      (
        padded (o.to_vec r),
        ss,
        rw (e, ir, is, es) refl,
        length-padded (o.to_vec r) fr,
        padded-from_be (o.to_vec r) ∙ vr,
        subst (λ v. IsLow program v ss) vs low,
      )
