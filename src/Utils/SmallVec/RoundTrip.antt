-- ===== src/Utils/SmallVec/RoundTrip.antt =====
-- Vectors behind short lengths: round trip, capacity (src/utils/small_vec.rs).
use external_signature_progr.Base.{
  ℕ, zero, suc, ◌^◌, ◌<◌, lt→ltb, List, ◌++◌, append_assoc, none, some, Bytes, length, le_bytes,
  ◌≡◌, refl, inl, ◌↔◌, ◌≢◌, arith, All, sym, ◌∙◌,
}
use external_signature_progr.Borsh.{Codec, Borsh, write_all, read_all}
use external_signature_progr.Borsh.Laws.{
  RoundTrips, IsCodec, IsBorsh, >>=-eq-some, write_all-read_all, read_all_items,
}
use external_signature_progr.Utils.SmallVec.{
  try_from, serialize_slice, serialize, read_items, deserialize_reader, small_vec,
}

module _ {A : Type 0} (c : Codec A) (h : IsCodec c) where
  -- The hook for byte slices writes what the loop writes.
  pub serialize_slice-write_all : (xs : List A) → serialize_slice c xs ≡ write_all c xs
  unfolding serialize_slice
  serialize_slice-write_all xs = ground (arith, h.slice_agrees xs)

  -- The hook for vectors of bytes, the empty vector and the loop read the same.
  read_items-read_all : (n : ℕ) (bs : Bytes) → read_items c n bs ≡ read_all c n bs
  unfolding read_items read_all
  read_items-read_all zero bs = refl
  read_items-read_all (suc n) bs = ground (arith, h.vec_agrees (suc n) bs)

  module _ (b : Borsh) (hb : IsBorsh b) (width : ℕ) where
    -- A vector that fits its length type, of items that round-trip, is written, and is read back
    -- whole from in front of anything, when borsh keeps its documented format and the item codec's
    -- hooks for whole vectors agree with its loops.
    pub deserialize_reader-serialize :
        (xs : List A)
        → length xs < 256 ^ width
        → All (RoundTrips c) xs
        → (w : Bytes) × (serialize c width xs ≡ some w)
          × ((rest : Bytes) → deserialize_reader c b width (w ++ rest) ≡ some (xs, rest))
    unfolding serialize deserialize_reader
    deserialize_reader-serialize xs lt items =
        let (w, ww, rr) = write_all-read_all c xs items in
        (
          le_bytes width (length xs) ++ w,
          rw (lt→ltb _ _ lt, serialize_slice-write_all xs, ww),
          λ rest. rw (
            append_assoc,
            hb.int_reads width (length xs) (w ++ rest) lt,
            read_items-read_all,
            rr,
          ),
        )

    -- What is read fits the length type, and each of its items can be written again, when borsh
    -- keeps its documented format and the item codec's hooks for whole vectors agree with its
    -- loops.
    deserialize_reader_fits :
        (bs : Bytes) (xs : List A) (rest : Bytes)
        → deserialize_reader c b width bs ≡ some (xs, rest)
        → (length xs < 256 ^ width) × All (RoundTrips c) xs
    unfolding deserialize_reader
    deserialize_reader_fits bs xs rest e =
        let ((n, mid), rn, e') = >>=-eq-some ((b.int width).read bs) _ e in
        let (len, items) =
          read_all_items c n mid xs rest h (sym (read_items-read_all n mid) ∙ e') in
        (rw len (hb.int_range width bs n mid rn), items)

    pub small_vec-RoundTrips :
        (xs : List A)
        → length xs < 256 ^ width
        → All (RoundTrips c) xs
        → RoundTrips (small_vec c b width) xs
    unfolding small_vec
    small_vec-RoundTrips = deserialize_reader-serialize

    small_vec-rewrites :
        (bs : Bytes) (xs : List A) (rest : Bytes)
        → (small_vec c b width).read bs ≡ some (xs, rest)
        → RoundTrips (small_vec c b width) xs
    unfolding small_vec
    small_vec-rewrites bs xs rest e =
        let (lt, items) = deserialize_reader_fits bs xs rest e in
        deserialize_reader-serialize xs lt items

    pub small_vec-IsCodec : IsCodec (small_vec c b width)
    unfolding small_vec
    small_vec-IsCodec = record {
      rewrites = small_vec-rewrites;
      slice_agrees = λ xs. inl refl;
      vec_agrees = λ n bs. inl refl;
    }

-- The capacity check of `try_from` accepts exactly the vectors that can be serialized, when their
-- items round-trip and the item codec's hooks agree with its loops.
pub try_from-serialize :
    {A : Type 0} (c : Codec A) (width : ℕ) (xs : List A)
    → IsCodec c
    → All (RoundTrips c) xs
    → (try_from width xs ≡ some xs) ↔ (serialize c width xs ≢ none)
unfolding try_from serialize
try_from-serialize c width xs h items =
    let (w, ww, rr) = write_all-read_all c xs items in
    (ground (arith, serialize_slice-write_all c h xs), ground arith)
