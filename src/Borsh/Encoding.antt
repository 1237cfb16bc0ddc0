-- ===== src/Borsh/Encoding.antt =====
-- Encodings by their bytes: what a codec writes for a value, that it reads it back, and that it is
-- made of bytes.
use external_signature_progr.Base.{
  ℕ, ◌^◌, ◌<◌, ◌≡◌, refl, [], ◌∷◌, ◌++◌, append_assoc, none, some, Bytes, IsByte, All, All-append,
  length, le_bytes, arith,
}
use external_signature_progr.Base.Numbers.{le_bytes-IsByte}
use external_signature_progr.Borsh.{Codec, Borsh, fields, derive}
use external_signature_progr.Borsh.Laws.{RoundTrips, IsBorsh}
use mathlib.Core.Path.{subst}

pub record Encodes {A : Type 0} (c : Codec A) (a : A) (w : Bytes) : Type 0 where
  pub writes : c.write a ≡ some w
  pub reads : (rest : Bytes) → c.read (w ++ rest) ≡ some (a, rest)
  pub bytes : All IsByte w

pub Encodes-RoundTrips :
    {A : Type 0} (c : Codec A) (a : A) (w : Bytes) → Encodes c a w → RoundTrips c a
Encodes-RoundTrips c a w e = (w, e.writes, e.reads)

-- A round trip whose bytes are known.
pub RoundTrips-Encodes :
    {A : Type 0} (c : Codec A) (a : A) (w : Bytes)
    → RoundTrips c a
    → c.write a ≡ some w
    → All IsByte w
    → Encodes c a w
RoundTrips-Encodes c a w (v, wv, rv) e small =
    let same : v ≡ w = cc in
    record {
      writes = e;
      reads = subst (λ u. (rest : Bytes) → c.read (u ++ rest) ≡ some (a, rest)) same rv;
      bytes = small;
    }

module _ (b : Borsh) (h : IsBorsh b) where
  pub int-Encodes : (width v : ℕ) → v < 256 ^ width → Encodes (b.int width) v (le_bytes width v)
  int-Encodes width v lt = record {
    writes = h.int_writes width v lt;
    reads = λ rest. h.int_reads width v rest lt;
    bytes = le_bytes-IsByte width v;
  }

  pub array-Encodes : (n : ℕ) (a : Bytes) → length a ≡ n → All IsByte a → Encodes (b.array n) a a
  array-Encodes n a len small = record {
    writes = h.array_writes n a len;
    reads = λ rest. h.array_reads n a rest len;
    bytes = small;
  }

  pub none-Encodes : (A : Type 0) (c : Codec A) → Encodes (b.option A c) none (0 ∷ [])
  none-Encodes A c =
      RoundTrips-Encodes (b.option A c) none (0 ∷ []) (h.option_none A c) (h.option_writes_none A c)
        (omega arith, tt)

  pub some-Encodes :
      (A : Type 0) (c : Codec A) (a : A) (w : Bytes)
      → Encodes c a w
      → Encodes (b.option A c) (some a) (1 ∷ w)
  some-Encodes A c a w e =
      RoundTrips-Encodes (b.option A c) (some a) (1 ∷ w)
        (h.option_some A c a (Encodes-RoundTrips c a w e)) (h.option_writes_some A c a w e.writes)
        (omega arith, e.bytes)

module _ {A B : Type 0} (c : Codec A) where
  pub fields-Encodes :
      (d : Codec B) (x : A) (y : B) (v w : Bytes)
      → Encodes c x v
      → Encodes d y w
      → Encodes (fields c d) (x, y) (v ++ w)
  unfolding fields
  fields-Encodes d x y v w ex ey = record {
    writes = rw (ex.writes, ey.writes) refl;
    reads = λ rest. rw (append_assoc, ex.reads, ey.reads) refl;
    bytes = All-append IsByte v w ex.bytes ey.bytes;
  }

  pub derive-Encodes :
      (make : A → B) (parts : B → A) (x : A) (w : Bytes)
      → parts (make x) ≡ x
      → Encodes c x w
      → Encodes (derive make parts c) (make x) w
  unfolding derive
  derive-Encodes make parts x w e ex = record {
    writes = rw (e, ex.writes) refl;
    reads = λ rest. rw (ex.reads rest) refl;
    bytes = ex.bytes;
  }
