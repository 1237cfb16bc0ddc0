-- ===== src/Utils/Nonce/Search.antt =====
-- Correctness of the search for a slot hash (src/utils/nonce.rs).
use external_signature_progr.Base.{ℕ, zero, suc, ◌+◌, ◌≤◌, ◌<◌, ◌≡◌, ◌==◌, min, arith}
use external_signature_progr.Base.{Bool-cases, inl, inr, ltb, ◌↔◌}
use external_signature_progr.Errors.{ok}
use external_signature_progr.Utils.SlotHashes.{SlotHash, SlotHashes, get_slothashes_len}
use external_signature_progr.Utils.SlotHashes.{get_slot_hash_unchecked}
use external_signature_progr.Utils.SlotHashes.Table.{
  height_at, IsDescending, IsEntry, get_slot_hash_lt, height_at-index, height_at-injective,
}
use external_signature_progr.Utils.Nonce.{
  reverse_linear_search_slot_hash, search_from, find_slot_hash_with_fallback,
}

-- What the loop returns is an entry for the slot.
reverse_linear_search-IsEntry :
    (s : SlotHashes) (slot n : ℕ) (r : SlotHash)
    → n ≤ get_slothashes_len s
    → reverse_linear_search_slot_hash s slot n ≡ ok r
    → IsEntry s slot r
unfolding reverse_linear_search_slot_hash
reverse_linear_search-IsEntry s slot zero r h e = cc
reverse_linear_search-IsEntry s slot (suc n) r h e = elim (Bool-cases (height_at s n == slot)) [
  | inl found ↦ (n, omega arith, ground (arith, get_slot_hash_lt s n), ground arith)
  | inr more ↦
      reverse_linear_search-IsEntry s slot n r (omega arith) (ground (arith, get_slot_hash_lt s n))
]

-- The loop reaches an entry below its start.
reverse_linear_search_finds :
    (s : SlotHashes) (slot n i : ℕ)
    → IsDescending s
    → n ≤ get_slothashes_len s
    → i < n
    → height_at s i ≡ slot
    → reverse_linear_search_slot_hash s slot n ≡ ok (get_slot_hash_unchecked s i)
unfolding reverse_linear_search_slot_hash
reverse_linear_search_finds s slot zero i d h lt e = absurd (omega arith)
reverse_linear_search_finds s slot (suc n) i d h lt e = ground (
  arith,
  get_slot_hash_lt s n,
  height_at-injective s i n d,
  reverse_linear_search_finds s slot n i d,
)

search_from-IsEntry :
    (s : SlotHashes) (slot n : ℕ) (r : SlotHash)
    → n ≤ get_slothashes_len s
    → search_from s slot n ≡ ok r
    → IsEntry s slot r
unfolding search_from
search_from-IsEntry s slot n r h e = reverse_linear_search-IsEntry s slot n r h (ground arith)

search_from_finds :
    (s : SlotHashes) (slot n i : ℕ)
    → IsDescending s
    → n ≤ get_slothashes_len s
    → i < n
    → height_at s i ≡ slot
    → search_from s slot n ≡ ok (get_slot_hash_unchecked s i)
unfolding search_from
search_from_finds s slot n i d h lt e = ground (arith, reverse_linear_search_finds s slot n i d)

-- Whatever the table holds, a result is one of its entries, and it is for the expected slot.
pub find_slot_hash_with_fallback-IsEntry :
    (s : SlotHashes) (slot index : ℕ) (r : SlotHash)
    → find_slot_hash_with_fallback s slot index ≡ ok r
    → IsEntry s slot r
unfolding find_slot_hash_with_fallback
find_slot_hash_with_fallback-IsEntry s slot index r e =
    elim (Bool-cases (ltb index (get_slothashes_len s))) [
      | inl inside ↦ elim (Bool-cases (height_at s index == slot)) [
        | inl direct ↦ (index, ground arith, ground (arith, get_slot_hash_lt s index), ground arith)
        | inr moved ↦
            search_from-IsEntry s slot (min index (get_slothashes_len s)) r (omega arith)
              (ground (arith, get_slot_hash_lt s index))
      ]
      | inr outside ↦
          search_from-IsEntry s slot (min index (get_slothashes_len s)) r (omega arith)
            (ground arith)
    ]

find_slot_hash_with_fallback_finds :
    (s : SlotHashes) (slot index i : ℕ)
    → IsDescending s
    → slot + index ≡ height_at s 0
    → i < get_slothashes_len s
    → height_at s i ≡ slot
    → find_slot_hash_with_fallback s slot index ≡ ok (get_slot_hash_unchecked s i)
unfolding find_slot_hash_with_fallback
find_slot_hash_with_fallback_finds s slot index i d top lt e = ground (
  arith,
  get_slot_hash_lt s index,
  height_at-index s i d lt,
  height_at-injective s i index d,
  search_from_finds s slot (min index (get_slothashes_len s)) i d,
)

-- On a descending table, started at the slot's distance from the most recent slot, the direct
-- index with its bounded fallback finds exactly the table's entry for the slot: it succeeds with r
-- if and only if r is an entry for that slot.
pub find_slot_hash_with_fallback_exact :
    (s : SlotHashes) (slot index : ℕ) (r : SlotHash)
    → IsDescending s
    → slot + index ≡ height_at s 0
    → (find_slot_hash_with_fallback s slot index ≡ ok r) ↔ IsEntry s slot r
find_slot_hash_with_fallback_exact s slot index r d top = (
  find_slot_hash_with_fallback-IsEntry s slot index r,
  λ (i, lt, same, e). cc (find_slot_hash_with_fallback_finds s slot index i d top lt e),
)
