-- ===== src/Utils/Nonce/Validate.antt =====
-- When `validate_nonce` accepts, and what it then returns (src/utils/nonce.rs).
use external_signature_progr.Base.{ℕ, ◌+◌, ◌-◌, ◌%◌, ◌≤◌, ◌<◌, ◌≡◌, ◌↔◌, sym, ◌∙◌, true, arith}
use external_signature_progr.Errors.{ok, ◌>>=◌}
use external_signature_progr.Runtime.{AccountInfo, Runtime}
use external_signature_progr.Utils.SlotHashes.{SlotHash, SlotHashes, get_slothashes_len}
use external_signature_progr.Utils.SlotHashes.{get_slot_hash}
use external_signature_progr.Utils.SlotHashes.Table.{height_at, IsDescending, IsEntry}
use external_signature_progr.Utils.Nonce.{
  TruncatedSlot, NonceData, new, get_index_difference, find_slot_hash_with_fallback, validate_nonce,
}
use external_signature_progr.Utils.Nonce.Search.{
  find_slot_hash_with_fallback-IsEntry, find_slot_hash_with_fallback_exact,
}
use external_signature_progr.Errors.Laws.{>>=-eq-ok}

-- The conditions under which the nonce of `slot` is good: a transaction-level call that the nonce
-- signer signed, and an entry `r` of the table less than 150 slots old whose height ends in `slot`.
pub record IsFresh (rt : Runtime) (s : SlotHashes) (slot : TruncatedSlot) (signer : AccountInfo)
    (r : SlotHash) : Type 0 where
  pub top_level : rt.stack_height ≤ 1
  pub signed : signer.is_signer ≡ true
  pub entry : IsEntry s r.height r
  pub past : r.height ≤ height_at s 0
  pub recent : height_at s 0 < r.height + 150
  pub named : r.height % 1000 ≡ slot

-- How far back from the most recent slot the truncated slot lies.
abbrev distance : SlotHashes → TruncatedSlot → ℕ
distance s slot = (height_at s 0 % 1000 + 1000 - slot) % 1000

-- The guards that stand before the search.
record Guards (rt : Runtime) (s : SlotHashes) (slot : TruncatedSlot) (signer : AccountInfo)
    : Type 0 where
  truncated : slot < 1000
  top_level : rt.stack_height ≤ 1
  signed : signer.is_signer ≡ true
  nonempty : 0 < get_slothashes_len s
  recent : distance s slot < 150
  past : distance s slot ≤ height_at s 0

module _ (rt : Runtime) (s : SlotHashes) (slot : TruncatedSlot) (signer : AccountInfo) where
  accepted-Guards :
      {d : NonceData} → validate_nonce rt s slot signer ≡ ok d → Guards rt s slot signer
  unfolding validate_nonce get_slot_hash new get_index_difference
  accepted-Guards h = ground arith

  validate_nonce-search :
      Guards rt s slot signer
      → validate_nonce rt s slot signer ≡ (do
        r ← find_slot_hash_with_fallback s (height_at s 0 - distance s slot) (distance s slot)
        ok (record { signer_key = signer.key; slothash = r.hash }))
  unfolding validate_nonce get_slot_hash new get_index_difference
  validate_nonce-search g = ground arith

  -- A returned nonce is fresh, whatever the table holds.
  accepted-IsFresh :
      {d : NonceData}
      → validate_nonce rt s slot signer ≡ ok d
      → (r : SlotHash) × IsFresh rt s slot signer r
        × (d ≡ record { signer_key = signer.key; slothash = r.hash })
  accepted-IsFresh h =
      let g : Guards rt s slot signer = accepted-Guards h in
      let (r, found, e) = >>=-eq-ok _ _ (sym (validate_nonce-search g) ∙ h) in
      let (i, lt, same, at) = find_slot_hash_with_fallback-IsEntry s _ _ r found in
      let height : r.height ≡ height_at s 0 - distance s slot = cc in
      (
        r,
        record {
          top_level = g.top_level;
          signed = g.signed;
          entry = (i, lt, same, cc);
          past = omega arith;
          recent = omega (arith, g.recent, g.past);
          named = omega (arith, g.truncated, g.past);
        },
        cc,
      )

  fresh-Guards : (r : SlotHash) → IsFresh rt s slot signer r → Guards rt s slot signer
  fresh-Guards r f = let (i, lt, _, _) = f.entry in ground arith

  fresh-accepted :
      (r : SlotHash)
      → IsDescending s
      → IsFresh rt s slot signer r
      → validate_nonce rt s slot signer ≡ ok (record { signer_key = signer.key; slothash = r.hash })
  fresh-accepted r d f =
      let g : Guards rt s slot signer = fresh-Guards r f in
      let (i, lt, same, at) = f.entry in
      let back : r.height ≡ height_at s 0 - distance s slot =
        omega (arith, f.past, f.recent, f.named, g.truncated) in
      let found =
        (find_slot_hash_with_fallback_exact s (height_at s 0 - distance s slot) (distance s slot) r
            d (omega (arith, g.past))).1
          (i, lt, same, cc) in
      validate_nonce-search g ∙ rw found

  -- On a table that lists slots from the most recent one down, `validate_nonce` accepts exactly
  -- the fresh nonces: it returns d if and only if the call is not a CPI, the nonce signer signed,
  -- and the table has an entry less than 150 slots older than its first whose height is the
  -- truncated slot modulo 1000, with d the signer's key and that entry's hash.
  pub validate_nonce_exact :
      (d : NonceData)
      → IsDescending s
      → (validate_nonce rt s slot signer ≡ ok d) ↔ (
          (r : SlotHash) × IsFresh rt s slot signer r
          × (d ≡ record { signer_key = signer.key; slothash = r.hash }))
  validate_nonce_exact d desc = (accepted-IsFresh, λ (r, f, e). cc (fresh-accepted r desc f))
