-- ===== src/Utils/SmallVec.antt =====
-- src/utils/small_vec.rs: vectors behind a length of `width` bytes: 1 for `SmallVec<u8, T>`, 2 for
-- `SmallVec<u16, T>`.
-- A vector is a list; the loop's reserved capacity is not part of it.
pub mod RoundTrip
use Prim.Native.Nat.{max}
use external_signature_progr.Base.{
  ℕ, ◌^◌, ◌/◌, min, Bool, ltb, ◌==◌, if◌then◌else◌, List, [], ◌++◌, length, Bytes,
}
use external_signature_progr.Base.{Option, none, some, le_bytes}
use external_signature_progr.Errors.{Result, ok, panic}
use external_signature_progr.Borsh.{Codec, Borsh, ◌>>=◌, no_slice, no_vec, write_all, read_all}

-- `TryFrom<Vec<T>>`: `none` is the error "Vector length exceeds SmallVec capacity".
unfoldable pub try_from : {A : Type 0} → ℕ → List A → Option (List A)
try_from width xs = if ltb (length xs) (256 ^ width) then some xs else none

-- A vector's accessors, and `From<SmallVec<L, T>> for Vec<T>`.
module _ {A : Type 0} where
  unfoldable pub vec_len : List A → ℕ
  vec_len self = length self

  unfoldable pub is_empty : List A → Bool
  is_empty self = length self == 0

  unfoldable pub iter : List A → List A
  iter self = self

  unfoldable pub as_slice : List A → List A
  as_slice self = self

  unfoldable pub into_vec : List A → List A
  into_vec val = val

-- `hint::cautious`: the capacity that is reserved for `hint` items of `el_size` bytes. The division
-- panics on items of no size.
unfoldable pub cautious : ℕ → ℕ → Result ℕ
cautious el_size hint = if el_size == 0 then panic else ok (max (min hint (4096 / el_size)) 1)

module _ {A : Type 0} (c : Codec A) where
  unfoldable pub serialize_slice : List A → Option Bytes
  serialize_slice xs = elim (c.u8_slice xs) [ some bs ↦ some bs | none ↦ write_all c xs ]

  unfoldable pub serialize : ℕ → List A → Option Bytes
  serialize width xs =
      if ltb (length xs) (256 ^ width)
      then (do items ← serialize_slice xs; some (le_bytes width (length xs) ++ items))
      else none

  -- The vector behind a length that has been read.
  unfoldable pub read_items : ℕ → Bytes → Option (List A × Bytes)
  read_items len bs = if len == 0 then some ([], bs) else (do
    (whole, rest) ← c.vec_from_reader len bs
    elim whole [ some xs ↦ some (xs, rest) | none ↦ read_all c len rest ])

  unfoldable pub deserialize_reader : Borsh → ℕ → Bytes → Option (List A × Bytes)
  deserialize_reader b width bs = do (len, rest) ← (b.int width).read bs; read_items len rest

  unfoldable pub small_vec : Borsh → ℕ → Codec (List A)
  small_vec b width = record {
    write = serialize width;
    read = deserialize_reader b width;
    u8_slice = no_slice;
    vec_from_reader = no_vec;
  }
