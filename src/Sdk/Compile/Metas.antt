-- ===== src/Sdk/Compile/Metas.antt =====
-- The metas of a compiled message against its sections (sdks/rust-sdk/src/instructions/execute.rs).
use external_signature_progr.Base.{
  ℕ, suc, ◌+◌, ◌-◌, ◌%◌, ◌^◌, ◌<◌, ◌≤◌, ltb, if◌then◌else◌, ◌≡◌, refl, ap, ◌∙◌, arith, Bool, true,
  false, List, [], ◌∷◌, ◌++◌, map, length, length-append, Pubkey,
}
use external_signature_progr.Runtime.{AccountMeta}
use external_signature_progr.Sdk.Compile.{meta_at, metas_from, account_metas}
use external_signature_progr.Sdk.Types.{Message}

abbrev pub flagged : Bool → Bool → Pubkey → AccountMeta
flagged is_signer is_writable key = record {
  pubkey = key;
  is_signer = is_signer;
  is_writable = is_writable;
}

module _ (a b c : ℕ) where
  metas_from-append :
      (i : ℕ) (xs ys : List Pubkey)
      → metas_from a b c i (xs ++ ys) ≡ metas_from a b c i xs ++ metas_from a b c (i + length xs) ys
  unfolding metas_from
  metas_from-append i [] ys = ap (λ k. metas_from a b c k ys) (omega arith)
  metas_from-append i (x ∷ xs) ys =
      let shift : suc i + length xs ≡ i + suc (length xs) = omega arith in
      ap (λ l. meta_at a b c i x ∷ l)
        (metas_from-append (suc i) xs ys
          ∙ ap (λ k. metas_from a b c (suc i) xs ++ metas_from a b c k ys) shift)

  -- A section has one pair of flags.
  metas_from-map :
      (s w : Bool) (i : ℕ) (xs : List Pubkey)
      → ((k : ℕ)
          → i ≤ k
          → k < i + length xs
          → (ltb k b ≡ s) × ((if s then ltb k a else ltb k c) ≡ w))
      → metas_from a b c i xs ≡ map (flagged s w) xs
  unfolding metas_from meta_at
  metas_from-map s w i [] h = refl
  metas_from-map s w i (x ∷ xs) h =
      let (signs, writes) = h i (omega arith) (omega arith) in
      let rest =
        metas_from-map s w (suc i) xs
          (λ k low high. h k (omega (arith, low)) (omega (arith, high))) in
      rw (signs, writes, rest) refl

metas_from_sections :
    (ws rs wu ru : List Pubkey)
    → metas_from
        (length ws)
        (length ws + length rs)
        (length ws + (length rs + length wu))
        0
        (ws ++ (rs ++ (wu ++ ru)))
      ≡ map (flagged true true) ws
        ++ (map (flagged true false) rs
            ++ (map (flagged false true) wu ++ map (flagged false false) ru))
metas_from_sections ws rs wu ru =
    let a = length ws in
    let b = a + length rs in
    let c = a + (length rs + length wu) in
    let cut1 = metas_from-append a b c 0 ws (rs ++ (wu ++ ru)) in
    let cut2 = metas_from-append a b c a rs (wu ++ ru) in
    let cut3 = metas_from-append a b c b wu ru in
    let part1 : metas_from a b c 0 ws ≡ map (flagged true true) ws =
      metas_from-map a b c true true 0 ws (λ k low high. ground arith) in
    let part2 : metas_from a b c a rs ≡ map (flagged true false) rs =
      metas_from-map a b c true false a rs (λ k low high. ground arith) in
    let part3 : metas_from a b c b wu ≡ map (flagged false true) wu =
      metas_from-map a b c false true b wu (λ k low high. ground arith) in
    let part4 : metas_from a b c (b + length wu) ru ≡ map (flagged false false) ru =
      metas_from-map a b c false false (b + length wu) ru (λ k low high. ground arith) in
    let zero : 0 + a ≡ a = omega arith in
    rw (cut1, zero, cut2, cut3, part1, part2, part3, part4) refl

-- A message lists the writable signers, the read-only signers, the other writable accounts and the
-- other read-only accounts, and its header counts the signers and the two read-only sections.
pub record HasSections (m : Message) (ws rs wu ru : List Pubkey) : Type 0 where
  pub keys : m.account_keys ≡ ws ++ (rs ++ (wu ++ ru))
  pub signers : m.num_required_signatures ≡ length ws + length rs
  pub readonly_signers : m.num_readonly_signed_accounts ≡ length rs
  pub readonly_others : m.num_readonly_unsigned_accounts ≡ length ru
  pub few_signers : m.num_required_signatures < 256
  pub few_keys : length m.account_keys < 2 ^ 64

-- The metas of a message follow its sections: for keys that are the writable signers, the
-- read-only signers, the other writable accounts and the other read-only accounts, in this order,
-- as the header counts them, the accounts of each section get its flags, in their order, when
-- there are fewer than 256 signers and 2^64 keys.
pub account_metas_sections :
    (m : Message) (ws rs wu ru : List Pubkey)
    → HasSections m ws rs wu ru
    → account_metas m
      ≡ map (flagged true true) ws
        ++ (map (flagged true false) rs
            ++ (map (flagged false true) wu ++ map (flagged false false) ru))
unfolding account_metas
account_metas_sections m ws rs wu ru h =
    let n = length ws in
    let signed = length rs in
    let free = length wu in
    let end1 : (m.num_required_signatures + 256 - m.num_readonly_signed_accounts) % 256 ≡ n =
      omega (arith, h.signers, h.readonly_signers, h.few_signers) in
    let total : length m.account_keys ≡ n + (signed + (free + length ru)) =
      ap length h.keys
      ∙ omega (
        arith,
        length-append ws (rs ++ (wu ++ ru)),
        length-append rs (wu ++ ru),
        length-append wu ru,
      ) in
    let end3 : (length m.account_keys + 2 ^ 64 - m.num_readonly_unsigned_accounts) % 2 ^ 64
        ≡ n + (signed + free) =
      omega (arith, total, h.readonly_others, h.few_keys) in
    rw (end1, end3, h.signers, h.keys) (metas_from_sections ws rs wu ru)
