-- ===== src/Utils/Nonce.antt =====
-- src/utils/nonce.rs: truncated slots, the search for a slot hash, and the nonce's validation.
pub mod Window
pub mod Search
pub mod Validate
use external_signature_progr.Base.{ℕ, zero, suc, ◌+◌, ◌-◌, ◌%◌, min, ltb, leb, ◌==◌, if◌then◌else◌}
use external_signature_progr.Base.{Bytes, Pubkey, Option, none, some}
use external_signature_progr.Errors.{Result, ok, err, into, ◌>>=◌, ◌>>◌, require, ok_or}
use external_signature_progr.Errors.{
  invalid_truncated_slot, invalid_slothash_index, cpi_not_allowed, missing_nonce_signature,
  expired_slothash,
}
use external_signature_progr.Runtime.{AccountInfo, Runtime}
use external_signature_progr.Utils.SlotHashes.{SlotHash, SlotHashes, get_slothashes_len}
use external_signature_progr.Utils.SlotHashes.{get_slot_hash}

-- `TruncatedSlot(u16)`, by its number.
abbrev pub TruncatedSlot : Type 0
TruncatedSlot = ℕ

-- `checked_sub`, and `checked_add` on u16.
abbrev pub checked_sub : ℕ → ℕ → Option ℕ
checked_sub a b = if ltb a b then none else some (a - b)

abbrev pub checked_add : ℕ → ℕ → Option ℕ
checked_add a b = if ltb (a + b) 65536 then some (a + b) else none

-- `TruncatedSlot::new`: the number is below 1000, so `as u16` keeps it.
unfoldable pub new : ℕ → Result TruncatedSlot
new untruncated_slot = ok (untruncated_slot % 1000 % 65536)

unfoldable pub get_index_difference : TruncatedSlot → TruncatedSlot → Result ℕ
get_index_difference self other =
    if leb other self then ok_or (into invalid_truncated_slot) (checked_sub self other) else do
      wraparound_distance ← ok_or (into invalid_truncated_slot) (checked_sub 1000 other)
      ok_or (into invalid_truncated_slot) (checked_add self wraparound_distance)

-- `for index in (0..search_end).rev()`
unfoldable pub reverse_linear_search_slot_hash : SlotHashes → ℕ → ℕ → Result SlotHash
reverse_linear_search_slot_hash s expected_slot zero = err (into invalid_slothash_index)
reverse_linear_search_slot_hash s expected_slot (suc index) =
    let rest = reverse_linear_search_slot_hash s expected_slot index in
    do
      candidate ← get_slot_hash s index
      if candidate.height == expected_slot then ok candidate else rest

-- The part of `find_slot_hash_with_fallback` after the direct index.
unfoldable pub search_from : SlotHashes → ℕ → ℕ → Result SlotHash
search_from s expected_slot search_end =
    if search_end == 0
    then err (into invalid_slothash_index)
    else reverse_linear_search_slot_hash s expected_slot search_end

unfoldable pub find_slot_hash_with_fallback : SlotHashes → ℕ → ℕ → Result SlotHash
find_slot_hash_with_fallback s expected_slot expected_index =
    let slothashes_len = get_slothashes_len s in
    let fallback = search_from s expected_slot (min expected_index slothashes_len) in
    if ltb expected_index slothashes_len
    then (do
      candidate ← get_slot_hash s expected_index
      if candidate.height == expected_slot then ok candidate else fallback)
    else fallback

pub record NonceData : Type 0 where
  pub signer_key : Pubkey
  pub slothash : Bytes

unfoldable pub validate_nonce :
    Runtime → SlotHashes → TruncatedSlot → AccountInfo → Result NonceData
validate_nonce rt s slot nonce_signer = do
  require (ltb slot 1000) invalid_truncated_slot
  require (leb rt.stack_height 1) cpi_not_allowed
  require nonce_signer.is_signer missing_nonce_signature
  most_recent_slot_hash ← get_slot_hash s 0
  truncated_most_recent_slot ← new most_recent_slot_hash.height
  index_difference ← get_index_difference truncated_most_recent_slot slot
  require (ltb index_difference 150) expired_slothash
  expected_slot ←
      ok_or (into invalid_truncated_slot)
        (checked_sub most_recent_slot_hash.height index_difference)
  slot_hash ← find_slot_hash_with_fallback s expected_slot index_difference
  ok (record { signer_key = nonce_signer.key; slothash = slot_hash.hash })
