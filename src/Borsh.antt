-- ===== src/Borsh.antt =====
-- The borsh crate as the program uses it: a codec for each type, the crate's own codecs as a
-- parameter, and what `#[derive(BorshSerialize, BorshDeserialize)]` makes of a struct's fields.
pub mod Laws
pub mod Encoding
pub mod Reference
use external_signature_progr.Base.{ℕ, zero, suc, List, [], ◌∷◌, ◌++◌, Option, none, some, Bytes}

infixl 5 ◌>>=◌
abbrev pub ◌>>=◌ {ℓ κ} : {A : Type ℓ} {B : Type κ} → Option A → (A → Option B) → Option B
none >>= f = none
some a >>= f = f a

-- A type's `serialize` and `deserialize_reader`, with the reader as the bytes that are left, and
-- the hooks `u8_slice` and `vec_from_reader`. An I/O error is `none`.
pub record Codec (A : Type 0) : Type 0 where
  pub write : A → Option Bytes
  pub read : Bytes → Option (A × Bytes)
  pub u8_slice : List A → Option Bytes
  pub vec_from_reader : ℕ → Bytes → Option (Option (List A) × Bytes)

-- The default hooks.
abbrev pub no_slice : {A : Type 0} → List A → Option Bytes
no_slice xs = none

abbrev pub no_vec : {A : Type 0} → ℕ → Bytes → Option (Option (List A) × Bytes)
no_vec n bs = some (none, bs)

-- The crate's codecs: integers by their width in bytes, byte arrays by their length, `Option`, and
-- `try_from_slice`.
pub record Borsh : Type 1 where
  pub int : ℕ → Codec ℕ
  pub array : ℕ → Codec Bytes
  pub option : (A : Type 0) → Codec A → Codec (Option A)
  pub try_from_slice : (A : Type 0) → Codec A → Bytes → Option A

-- The derived codec of a struct writes and reads its fields in their order.
module _ {A B : Type 0} where
  unfoldable pub fields : Codec A → Codec B → Codec (A × B)
  fields c d = record {
    write = λ p. (do v ← c.write p.0; w ← d.write p.1; some (v ++ w));
    read = λ bs. (do (a, rest) ← c.read bs; (b, rest') ← d.read rest; some ((a, b), rest'));
    u8_slice = no_slice;
    vec_from_reader = no_vec;
  }

  unfoldable pub derive : (A → B) → (B → A) → Codec A → Codec B
  derive make parts c = record {
    write = λ b. c.write (parts b);
    read = λ bs. (do (a, rest) ← c.read bs; some (make a, rest));
    u8_slice = no_slice;
    vec_from_reader = no_vec;
  }

module _ {A : Type 0} (c : Codec A) where
  -- Item by item: `for item in data { item.serialize(writer)? }`, and n times `deserialize_reader`.
  unfoldable pub write_all : List A → Option Bytes
  write_all [] = some []
  write_all (x ∷ xs) = do v ← c.write x; w ← write_all xs; some (v ++ w)

  unfoldable pub read_all : ℕ → Bytes → Option (List A × Bytes)
  read_all zero bs = some ([], bs)
  read_all (suc n) bs = do
    (x, rest) ← c.read bs
    (xs, rest') ← read_all n rest
    some (x ∷ xs, rest')
