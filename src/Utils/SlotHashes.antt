-- ===== src/Utils/SlotHashes.antt =====
-- src/utils/slothashes.rs: the SlotHashes sysvar as raw bytes. Its reads go through raw pointers.
pub mod Table
use external_signature_progr.Base.{ℕ, ◌+◌, ◌*◌, leb, if◌then◌else◌, Bytes, Pubkey, [], ◌∷◌}
use external_signature_progr.Base.{bytes_eq, from_le, raw_bytes, not}
use external_signature_progr.Errors.{Result, ok, err, into, unsupported_sysvar}
use external_signature_progr.Errors.{invalid_slothash_index}
use external_signature_progr.Runtime.{AccountInfo, Accounts}

abbrev pub slot_hashes_id : Pubkey
slot_hashes_id =
    0x06 ∷ 0xa7 ∷ 0xd5 ∷ 0x17 ∷ 0x19 ∷ 0x2f ∷ 0x0a ∷ 0xaf ∷ 0xc6 ∷ 0xf2 ∷ 0x65 ∷ 0xe3 ∷ 0xfb ∷ 0x77
    ∷ 0xcc ∷ 0x7a ∷ 0xda ∷ 0x82 ∷ 0xc5 ∷ 0x29 ∷ 0xd0 ∷ 0xbe ∷ 0x3b ∷ 0x13 ∷ 0x6e ∷ 0x2d ∷ 0x00
    ∷ 0x55 ∷ 0x20 ∷ 0x00 ∷ 0x00 ∷ 0x00 ∷ []

pub record SlotHash : Type 0 where
  pub height : ℕ
  pub hash : Bytes

-- The account's data, and what stands behind it in memory.
pub record SlotHashes : Type 0 where
  pub bytes : Bytes
  pub beyond : ℕ → ℕ

unfoldable pub get_slothashes_len : SlotHashes → ℕ
get_slothashes_len s = from_le (raw_bytes s.bytes s.beyond 0 8)

-- `size_of::<SlotHash>()` is 40: the height, then the hash.
unfoldable pub get_slot_hash_unchecked : SlotHashes → ℕ → SlotHash
get_slot_hash_unchecked s index = record {
  height = from_le (raw_bytes s.bytes s.beyond (8 + index * 40) 8);
  hash = raw_bytes s.bytes s.beyond (8 + index * 40 + 8) 32;
}

unfoldable pub get_slot_hash : SlotHashes → ℕ → Result SlotHash
get_slot_hash s index =
    if leb (get_slothashes_len s) index
    then err (into invalid_slothash_index)
    else ok (get_slot_hash_unchecked s index)

-- `TryFrom<&AccountInfo>`. No borrow is outstanding when the handlers call it.
unfoldable pub try_from : AccountInfo → Accounts → Result SlotHashes
try_from account_info accounts =
    if not (bytes_eq account_info.key slot_hashes_id)
    then err unsupported_sysvar
    else ok (record {
      bytes = (accounts account_info.key).bytes;
      beyond = (accounts account_info.key).beyond;
    })
