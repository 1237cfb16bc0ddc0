-- ===== src/Borsh/Reference.antt =====
-- The documented borsh format as functions: an instance of the crate's interface.
use external_signature_progr.Base.{
  ℕ, ◌^◌, ◌<◌, ltb, leb, ◌==◌, if◌then◌else◌, [], ◌∷◌, ◌++◌, Option, none, some, Bytes, length,
  take, drop, le_bytes, from_le, ◌≡◌, refl, inl, arith, ◌↔◌, length-append, take-append,
  drop-append, length-take, lt→ltb,
}
use external_signature_progr.Base.Numbers.{length-le_bytes, from_le-le_bytes}
use external_signature_progr.Borsh.{Codec, Borsh, ◌>>=◌, no_slice, no_vec}
use external_signature_progr.Borsh.Laws.{IsCodec, IsBorsh, RoundTrips, >>=-eq-some}

abbrev pub reference_int : ℕ → Codec ℕ
reference_int w = record {
  write = λ v. if ltb v (256 ^ w) then some (le_bytes w v) else none;
  read = λ bs.
      if leb w (length bs)
      then (if ltb (from_le (take w bs)) (256 ^ w)
          then some (from_le (take w bs), drop w bs)
          else none)
      else none;
  u8_slice = no_slice;
  vec_from_reader = no_vec;
}

abbrev pub reference_array : ℕ → Codec Bytes
reference_array n = record {
  write = λ a. if length a == n then some a else none;
  read = λ bs. if leb n (length bs) then some (take n bs, drop n bs) else none;
  u8_slice = no_slice;
  vec_from_reader = no_vec;
}

module _ (A : Type 0) (c : Codec A) where
  abbrev pub write_option : Option A → Option Bytes
  write_option none = some (0 ∷ [])
  write_option (some a) = c.write a >>= λ w. some (1 ∷ w)

  abbrev pub read_option : Bytes → Option (Option A × Bytes)
  read_option [] = none
  read_option (tag ∷ bs) =
      let inner : Option (Option A × Bytes) = c.read bs >>= λ p. some (some p.0, p.1) in
      if tag == 0 then some (none, bs) else if tag == 1 then inner else none

  abbrev pub read_exactly : Bytes → Option A
  read_exactly bs = c.read bs >>= λ p. if length p.1 == 0 then some p.0 else none

abbrev pub reference : Borsh
reference = record {
  int = reference_int;
  array = reference_array;
  option = λ A c. record {
    write = write_option A c;
    read = read_option A c;
    u8_slice = no_slice;
    vec_from_reader = no_vec;
  };
  try_from_slice = read_exactly;
}

int_reads :
    (w v : ℕ) (rest : Bytes)
    → v < 256 ^ w
    → (reference_int w).read (le_bytes w v ++ rest) ≡ some (v, rest)
int_reads w v rest h = ground (
  arith,
  length-append (le_bytes w v) rest,
  length-le_bytes w v,
  from_le-le_bytes w v h,
  take-append w (le_bytes w v) rest (length-le_bytes w v),
  drop-append w (le_bytes w v) rest (length-le_bytes w v),
)

int_range :
    (w : ℕ) (bs : Bytes) (v : ℕ) (rest : Bytes)
    → (reference_int w).read bs ≡ some (v, rest)
    → v < 256 ^ w
int_range w bs v rest e = ground arith

int_writes : (w v : ℕ) → v < 256 ^ w → (reference_int w).write v ≡ some (le_bytes w v)
int_writes w v h = rw (lt→ltb v (256 ^ w) h) refl

array_reads :
    (n : ℕ) (a rest : Bytes) → length a ≡ n → (reference_array n).read (a ++ rest) ≡ some (a, rest)
array_reads n a rest h =
    ground (arith, length-append a rest, take-append n a rest h, drop-append n a rest h)

array_range :
    (n : ℕ) (bs a rest : Bytes) → (reference_array n).read bs ≡ some (a, rest) → length a ≡ n
array_range n bs a rest e = ground (arith, length-take n bs)

array_writes : (n : ℕ) (a : Bytes) → length a ≡ n → (reference_array n).write a ≡ some a
array_writes n a h = ground arith

module _ (A : Type 0) (c : Codec A) where
  some-RoundTrips : (a : A) → RoundTrips c a → RoundTrips (reference.option A c) (some a)
  some-RoundTrips a (w, ww, rr) = (1 ∷ w, rw ww refl, λ rest. rw (rr rest) refl)

  none-RoundTrips : RoundTrips (reference.option A c) none
  none-RoundTrips = (0 ∷ [], refl, λ rest. refl)

  option_rewrites :
      (bs : Bytes) (a : Option A) (rest : Bytes)
      → IsCodec c
      → (reference.option A c).read bs ≡ some (a, rest)
      → RoundTrips (reference.option A c) a
  option_rewrites bs none rest h e = none-RoundTrips
  option_rewrites [] (some a) rest h e = cc
  option_rewrites (tag ∷ bs) (some a) rest h e =
      some-RoundTrips a (h.rewrites bs a rest (ground arith))

  option_range :
      (bs : Bytes) (a : A) (rest : Bytes)
      → (reference.option A c).read bs ≡ some (some a, rest)
      → (mid : Bytes) × (c.read mid ≡ some (a, rest))
  option_range [] a rest e = cc
  option_range (tag ∷ bs) a rest e = (bs, ground arith)

  exact_iff :
      (bs : Bytes) (a : A) → (reference.try_from_slice A c bs ≡ some a) ↔ (c.read bs ≡ some (a, []))
  exact_iff bs a = (
    λ e.
        let ((v, rest), r, k) = >>=-eq-some (c.read bs) _ e in
        let (none_left, same) = take_all v rest k in cc,
    λ e. rw e refl,
  )
    where
      take_all :
          (v : A) (rest : Bytes)
          → (if length rest == 0 then some v else none) ≡ some a
          → (rest ≡ []) × (v ≡ a)
      take_all v [] h = (refl, cc)
      take_all v (x ∷ xs) h = absurd (ground arith)

-- The instance keeps the interface's promises.
pub reference-IsBorsh : IsBorsh reference
reference-IsBorsh = record {
  int-IsCodec = λ w. record {
    rewrites = λ bs v rest e.
        let lt = int_range w bs v rest e in
        (le_bytes w v, int_writes w v lt, λ more. int_reads w v more lt);
    slice_agrees = λ xs. inl refl;
    vec_agrees = λ n bs. inl refl;
  };
  int_writes = int_writes;
  int_reads = int_reads;
  int_range = int_range;
  array-IsCodec = λ n. record {
    rewrites = λ bs a rest e.
        let len = array_range n bs a rest e in
        (a, array_writes n a len, λ more. array_reads n a more len);
    slice_agrees = λ xs. inl refl;
    vec_agrees = λ k bs. inl refl;
  };
  array_writes = array_writes;
  array_reads = array_reads;
  array_range = array_range;
  option-IsCodec = λ A c h. record {
    rewrites = λ bs a rest e. option_rewrites A c bs a rest h e;
    slice_agrees = λ xs. inl refl;
    vec_agrees = λ n bs. inl refl;
  };
  option_none = none-RoundTrips;
  option_writes_none = λ A c. refl;
  option_writes_some = λ A c a w e. rw e refl;
  option_some = some-RoundTrips;
  option_range = option_range;
  exact = exact_iff;
}
