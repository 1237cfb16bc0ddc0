-- ===== src/Tests/Nonces.antt =====
-- Nonces of the scenario's table: slots 123456 and 123454.
use external_signature_progr.Base.{zero, suc, ◌+◌, ◌≡◌, refl, arith, from_le, raw_byte, raw_bytes}
use external_signature_progr.Errors.{ok, ◌>>=◌}
use external_signature_progr.Tests.Scenario.{runtime, table, signer_info, key_of}
use external_signature_progr.Utils.Nonce.{
  NonceData, new, get_index_difference, find_slot_hash_with_fallback, search_from,
  reverse_linear_search_slot_hash, validate_nonce,
}
use external_signature_progr.Utils.Nonce.Search.{find_slot_hash_with_fallback_exact}
use external_signature_progr.Utils.Nonce.Validate.{IsFresh, validate_nonce_exact}
use external_signature_progr.Utils.Nonce.Window.{
  get_index_difference_circle, get_index_difference-new,
}
use external_signature_progr.Utils.SlotHashes.{
  SlotHash, get_slothashes_len, get_slot_hash, get_slot_hash_unchecked,
}
use external_signature_progr.Utils.SlotHashes.Table.{IsDescending, IsEntry, height_at}

table-IsDescending : IsDescending table
unfolding get_slothashes_len get_slot_hash_unchecked from_le raw_byte raw_bytes
table-IsDescending zero (suc zero) lt h = omega arith
table-IsDescending i zero lt h = absurd (omega arith)
table-IsDescending (suc i) (suc zero) lt h = absurd (omega arith)
table-IsDescending i (suc (suc j)) lt h = absurd (omega arith)

-- The older slot.
abbrev older : SlotHash
older = record { height = 123454; hash = key_of 11 }

older-IsFresh : IsFresh runtime table 454 signer_info older
unfolding get_slothashes_len get_slot_hash_unchecked from_le raw_byte raw_bytes
older-IsFresh = record {
  top_level = omega arith;
  signed = refl;
  entry = (1, omega arith, refl, refl);
  past = omega arith;
  recent = omega arith;
  named = refl;
}

abbrev nonce : NonceData
nonce = record { signer_key = key_of 12; slothash = key_of 11 }

validate_nonce_exact_example : validate_nonce runtime table 454 signer_info ≡ ok nonce
validate_nonce_exact_example =
    (validate_nonce_exact runtime table 454 signer_info nonce table-IsDescending).1
      (older, older-IsFresh, refl)

older-IsEntry : IsEntry table 123454 older
unfolding get_slothashes_len get_slot_hash_unchecked from_le raw_byte raw_bytes
older-IsEntry = (1, omega arith, refl, refl)

distance : 123454 + 2 ≡ height_at table 0
unfolding get_slot_hash_unchecked from_le raw_byte raw_bytes
distance = refl

find_slot_hash_with_fallback_exact_example : find_slot_hash_with_fallback table 123454 2 ≡ ok older
find_slot_hash_with_fallback_exact_example =
    (find_slot_hash_with_fallback_exact table 123454 2 older table-IsDescending distance).1
      older-IsEntry

found : find_slot_hash_with_fallback table 123454 2 ≡ ok older
unfolding find_slot_hash_with_fallback search_from reverse_linear_search_slot_hash get_slot_hash
    get_slothashes_len get_slot_hash_unchecked from_le raw_byte raw_bytes
found = refl

get_index_difference_circle_example : get_index_difference 3 990 ≡ ok 13
get_index_difference_circle_example = get_index_difference_circle 3 990 (omega arith) (omega arith)

get_index_difference-new_example :
    (do a ← new 124003; b ← new 123990; get_index_difference a b) ≡ ok 13
get_index_difference-new_example =
    get_index_difference-new 124003 123990 (omega arith) (omega arith)
