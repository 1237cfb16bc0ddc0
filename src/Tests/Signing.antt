-- ===== src/Tests/Signing.antt =====
-- Openssl by signed numbers, and a precompile instruction that the program reads back.
use external_signature_progr.Base.{
  ℕ, zero, suc, ◌+◌, ◌-◌, ◌*◌, ◌/◌, ◌%◌, ◌^◌, ◌<◌, ◌≤◌, ltb, ◌==◌, if◌then◌else◌, Bool, true, false,
  ◌≡◌, refl, ap, ◌∙◌, arith, Bool-cases, inl, inr, Bytes, [], ◌∷◌, ◌++◌, length, length-append,
  take, drop, replicate, get_or, raw_bytes, from_be, from_be_snoc, some, none,
}
use external_signature_progr.Sdk.Precompile.{
  Openssl, Secp256r1Program, parse_der_signature_to_compact, low_s, padded,
  create_secp256r1_instruction,
}
use external_signature_progr.Sdk.Precompile.LowS.{
  offsets_bytes, IsOpenssl, IsSecp256r1Program, IsLow, parse_der_signature_to_compact-IsLow,
}
use external_signature_progr.Sdk.Types.{done}
use external_signature_progr.Tests.Scenario.{
  key_of, runtime, transaction, precompile, passkey, message,
}
use external_signature_progr.Errors.{ok}
use external_signature_progr.Runtime.{Instruction}
use external_signature_progr.Sdk.Precompile.Parts.{IsDeployed}
use external_signature_progr.Sdk.Precompile.ReadBack.{
  parsed, create-get_signature_payload, create-get_signature_payload_elsewhere,
}
use native.Mathlib.Nat.{pow-suc}

-- The big-endian digits of a number, without leading zeros, on fuel.
pub digits : ℕ → ℕ → Bytes
digits zero n = []
digits (suc fuel) n =
    let rest = digits fuel (n / 256) in if n == 0 then [] else rest ++ ((n % 256) ∷ [])

pub digits-from_be : (fuel n : ℕ) → n ≤ fuel → from_be (digits fuel n) ≡ n
unfolding digits from_be
digits-from_be zero n h = omega arith
digits-from_be (suc fuel) n h = elim (Bool-cases (n == 0)) [
  | inl empty ↦ rw empty (ground arith)
  | inr full ↦ rw full (
      from_be_snoc (digits fuel (n / 256)) (n % 256)
      ∙ omega (arith, digits-from_be fuel (n / 256) (omega (arith, h))))
]

pub digits-short : (fuel n w : ℕ) → n < 256 ^ w → length (digits fuel n) ≤ w
unfolding digits
digits-short zero n w h = omega arith
digits-short (suc fuel) n zero h = ground arith
digits-short (suc fuel) n (suc w) h = elim (Bool-cases (n == 0)) [
  | inl empty ↦ rw empty (omega arith)
  | inr full ↦ rw full (
      omega (
        arith,
        length-append (digits fuel (n / 256)) ((n % 256) ∷ []),
        digits-short fuel (n / 256) w (omega (arith, h, pow-suc 256 w)),
      ))
]

-- A number by its magnitude and its sign.
abbrev Signed : Type 0
Signed = ℕ × Bool

abbrev greater : Signed → Signed → Bool
greater (m, false) (n, false) = ltb n m
greater (m, false) (n, true) = ltb 0 (m + n)
greater (m, true) (n, false) = false
greater (m, true) (n, true) = ltb m n

abbrev subtract : Signed → Signed → Signed
subtract (m, false) (n, false) = if ltb m n then (n - m, true) else (m - n, false)
subtract (m, false) (n, true) = (m + n, false)
subtract (m, true) (n, false) = (m + n, true)
subtract (m, true) (n, true) = if ltb n m then (m - n, true) else (n - m, false)

-- A signature stands for itself: r and s of 32 bytes each.
abbrev pub openssl : Openssl
openssl = record {
  BigNum = Signed;
  from_der = λ der. some ((from_be (take 32 der), false), (from_be (drop 32 der), false));
  from_slice = λ bs. some (from_be bs, false);
  to_vec = λ n. digits n.0 n.0;
  gt = greater;
  fresh = some (0, false);
  checked_sub = λ m n. some (subtract m n);
}

pub greater-ltb : (m n : Signed) → m.1 ≡ false → n.1 ≡ false → greater m n ≡ ltb n.0 m.0
greater-ltb (m, false) (n, false) _ _ = refl
greater-ltb (m, false) (n, true) _ e = cc
greater-ltb (m, true) n e _ = cc

pub subtract_lem :
    (m n : Signed)
    → m.1 ≡ false
    → n.1 ≡ false
    → n.0 ≤ m.0
    → ((subtract m n).0 + n.0 ≡ m.0) × ((subtract m n).1 ≡ false)
subtract_lem (m, false) (n, false) _ _ le =
    let inside : ltb m n ≡ false = ground arith in rw inside (omega arith, refl)
subtract_lem (m, false) (n, true) _ e le = cc
subtract_lem (m, true) n e _ le = cc

abbrev pub openssl-IsOpenssl : IsOpenssl openssl
openssl-IsOpenssl = record {
  value = λ n. n.0;
  negative = λ n. n.1;
  from_slice_value = λ bs. ((from_be bs, false), refl, refl, refl);
  to_vec_value = λ n. digits-from_be n.0 n.0 (omega arith);
  to_vec_short = λ n w h. digits-short n.0 n.0 w h;
  gt_value = greater-ltb;
  fresh_some = ((0, false), refl);
  sub_value = λ m n pm pn le.
      let (sum, sign) = subtract_lem m n pm pn le in (subtract m n, refl, sum, sign);
}

abbrev pub program : Secp256r1Program
program = record {
  id = key_of 3;
  order =
      replicate 4 0xFF
      ++ (replicate 4 0
          ++ (replicate 8 0xFF
              ++ (0xBC ∷ 0xE6 ∷ 0xFA ∷ 0xAD ∷ 0xA7 ∷ 0x17 ∷ 0x9E ∷ 0x84 ∷ 0xF3 ∷ 0xB9 ∷ 0xCA ∷ 0xC2
                  ∷ 0xFC ∷ 0x63 ∷ 0x25 ∷ 0x51 ∷ [])));
  data_start = 16;
  offsets_bytes = offsets_bytes;
}

pub program-IsSecp256r1Program : IsSecp256r1Program program
unfolding from_be
program-IsSecp256r1Program = record {
  order_value = refl;
  data_start_value = refl;
  offsets_layout = λ o. refl;
}

-- An s in the upper half.
abbrev der : Bytes
der = key_of 9 ++ (0xFF ∷ replicate 31 0)

abbrev s : ℕ
s = 255 * 256 ^ 31

s_low : s ≤ from_be program.order
unfolding from_be
s_low = omega arith

r_low : from_be (key_of 9) < 256 ^ 32
unfolding from_be
r_low = omega arith

der_s : from_be (0xFF ∷ replicate 31 0) ≡ s
unfolding from_be
der_s = refl

parse_der_signature_to_compact-IsLow_example :
    (rs : Bytes) × (ss : Bytes) × (parse_der_signature_to_compact openssl program der
      ≡ done (rs ++ ss))
    × (length rs ≡ 32)
    × (from_be rs ≡ from_be (key_of 9))
    × IsLow program s ss
parse_der_signature_to_compact-IsLow_example =
    parse_der_signature_to_compact-IsLow openssl program openssl-IsOpenssl
      program-IsSecp256r1Program der (from_be (key_of 9), false) (s, false)
      (ap (λ n. some ((from_be (key_of 9), false), (n, false))) der_s) r_low s_low

-- The compact signature of `der`.
compact :
    (rs : Bytes) × (ss : Bytes) × (parse_der_signature_to_compact openssl program der
      ≡ done (rs ++ ss))
    × (length (rs ++ ss) ≡ 64)
unfolding parse_der_signature_to_compact low_s padded digits from_be
compact = (
  padded (digits (from_be (key_of 9)) (from_be (key_of 9))),
  padded (digits (from_be program.order - s) (from_be program.order - s)),
  refl,
  refl,
)

abbrev compact_signature : Bytes
compact_signature = compact.0 ++ compact.1

deployed : IsDeployed runtime program 0
unfolding from_be
deployed = record {
  crate = program-IsSecp256r1Program;
  same_id = refl;
  other_id = λ e. omega (arith, ap (λ (k : Bytes). get_or k 0 0) e);
  aligned = refl;
}

create-get_signature_payload_example :
    (ix : Instruction) × (create_secp256r1_instruction openssl program der message passkey none
      ≡ done ix)
    × (parsed runtime openssl program transaction 0 (λ i. 0) deployed ix
        ≡ ok (record { signature = compact_signature; public_key = passkey; message = message }))
create-get_signature_payload_example =
    create-get_signature_payload runtime openssl program transaction 0 (λ i. 0) deployed der message
      passkey compact_signature (omega arith) refl compact.2 compact.3

create-get_signature_payload_elsewhere_example :
    (ix : Instruction) × (create_secp256r1_instruction openssl program der message passkey
        (some (0, 80))
      ≡ done ix)
    × (parsed runtime openssl program transaction 0 (λ i. 0) deployed ix
        ≡ ok (record {
          signature = compact_signature;
          public_key = raw_bytes precompile.bytes precompile.beyond 80 33;
          message = message;
        }))
create-get_signature_payload_elsewhere_example =
    create-get_signature_payload_elsewhere runtime openssl program transaction 0 (λ i. 0) deployed
      der message passkey compact_signature 0 80 precompile (omega arith) (omega arith)
      (omega arith) refl compact.2 compact.3
