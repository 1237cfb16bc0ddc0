-- ===== src/Utils/SlotHashes/Table.antt =====
-- The sysvar's entries as a table (src/utils/slothashes.rs).
use external_signature_progr.Base.{ℕ, zero, suc, ◌+◌, ◌≤◌, ◌<◌, ◌≡◌, arith}
use external_signature_progr.Errors.{ok}
use external_signature_progr.Utils.SlotHashes.{SlotHash, SlotHashes, get_slothashes_len}
use external_signature_progr.Utils.SlotHashes.{get_slot_hash, get_slot_hash_unchecked}

abbrev pub height_at : SlotHashes → ℕ → ℕ
height_at s i = (get_slot_hash_unchecked s i).height

-- The runtime lists the slots from the most recent one down, each slot once.
abbrev pub IsDescending : SlotHashes → Type 0
IsDescending s = (i j : ℕ) → i < j → j < get_slothashes_len s → height_at s j < height_at s i

-- `r` is an entry of the table, for the slot `slot`.
abbrev pub IsEntry : SlotHashes → ℕ → SlotHash → Type 0
IsEntry s slot r =
    (i : ℕ) × (i < get_slothashes_len s)
    × (get_slot_hash_unchecked s i ≡ r)
    × (height_at s i ≡ slot)

pub get_slot_hash_lt :
    (s : SlotHashes) (i : ℕ)
    → i < get_slothashes_len s
    → get_slot_hash s i ≡ ok (get_slot_hash_unchecked s i)
unfolding get_slot_hash
get_slot_hash_lt s i h = ground arith

-- The i-th entry is at least i slots below the first.
pub height_at-index :
    (s : SlotHashes) (i : ℕ)
    → IsDescending s
    → i < get_slothashes_len s
    → height_at s i + i ≤ height_at s 0
height_at-index s zero d h = omega arith
height_at-index s (suc i) d h =
    omega (arith, height_at-index s i d (omega arith), d i (suc i) (omega arith) h)

pub height_at-injective :
    (s : SlotHashes) (i j : ℕ)
    → IsDescending s
    → i < get_slothashes_len s
    → j < get_slothashes_len s
    → height_at s i ≡ height_at s j
    → i ≡ j
height_at-injective s i j d hi hj e = grind (arith, d i j, d j i)
