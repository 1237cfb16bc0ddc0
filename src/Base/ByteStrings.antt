-- ===== src/Base/ByteStrings.antt =====
-- Byte strings: lists of numbers below 256, little-endian and big-endian numbers, public keys.
use Prim.Native.Char.{code}
use Prim.Native.String.{String}
use Prim.Native.Nat.{ℕ, zero, suc, ◌+◌, ◌*◌, ◌/◌, ◌%◌, ◌^◌, ◌<◌}
use mathlib.Core.Path.{◌≡◌, refl}
use mathlib.Core.Logic.{◌≢◌, ◌↔◌, ◌⊎◌, inl, inr}
use mathlib.Core.Bool.{Bool, true, false, ◌&&◌}
use mathlib.Core.List.{List, [], ◌∷◌, ◌++◌}
use native.Mathlib.Omega.{arith}
use external_signature_progr.Base.Tests.{◌==◌, ltb}
use external_signature_progr.Base.Lists.{replicate, length, take, drop}

abbrev pub Bytes : Type 0
Bytes = List ℕ

abbrev pub Pubkey : Type 0
Pubkey = Bytes

abbrev pub IsByte : ℕ → Type 0
IsByte b = b < 256

module _ {ℓ} {A : Type ℓ} where
  abbrev pub All {κ} : (A → Type κ) → List A → Type κ
  All P [] = Unit {κ}
  All P (x ∷ xs) = P x × All P xs

  pub All-append {κ} : (P : A → Type κ) (xs ys : List A) → All P xs → All P ys → All P (xs ++ ys)
  All-append P [] ys hx hy = hy
  All-append P (x ∷ xs) ys (one, hx) hy = (one, All-append P xs ys hx hy)

  pub All-append-left {κ} : (P : A → Type κ) (xs ys : List A) → All P (xs ++ ys) → All P xs
  All-append-left P [] ys h = tt
  All-append-left P (x ∷ xs) ys (one, h) = (one, All-append-left P xs ys h)

  pub All-take {κ} : (P : A → Type κ) (n : ℕ) (xs : List A) → All P xs → All P (take n xs)
  All-take P zero xs h = tt
  All-take P (suc n) [] h = tt
  All-take P (suc n) (x ∷ xs) (one, h) = (one, All-take P n xs h)

  pub All-drop {κ} : (P : A → Type κ) (n : ℕ) (xs : List A) → All P xs → All P (drop n xs)
  All-drop P zero xs h = h
  All-drop P (suc n) [] h = tt
  All-drop P (suc n) (x ∷ xs) (one, h) = All-drop P n xs h

-- A test for bytes.
unfoldable pub all_bytes : Bytes → Bool
all_bytes [] = true
all_bytes (b ∷ bs) = ltb b 256 && all_bytes bs

pub all_bytes-IsByte : (bs : Bytes) → all_bytes bs ≡ true → All IsByte bs
unfolding all_bytes
all_bytes-IsByte [] h = tt
all_bytes-IsByte (b ∷ bs) h =
    let first : b < 256 = ground arith in
    let rest : all_bytes bs ≡ true = ground arith in (first, all_bytes-IsByte bs rest)

-- The bytes of an ASCII text.
abbrev pub codes : String → Bytes
codes String.[] = []
codes (String.◌∷◌ c s) = code c ∷ codes s

-- `==` on byte slices.
unfoldable pub bytes_eq : Bytes → Bytes → Bool
bytes_eq [] [] = true
bytes_eq [] (y ∷ ys) = false
bytes_eq (x ∷ xs) [] = false
bytes_eq (x ∷ xs) (y ∷ ys) = (x == y) && bytes_eq xs ys

bytes_eq→eq : (xs ys : Bytes) → bytes_eq xs ys ≡ true → xs ≡ ys
unfolding bytes_eq
bytes_eq→eq [] [] h = refl
bytes_eq→eq [] (y ∷ ys) h = cc
bytes_eq→eq (x ∷ xs) [] h = cc
bytes_eq→eq (x ∷ xs) (y ∷ ys) h = ground (arith, bytes_eq→eq xs ys)

pub bytes_eq_refl : (xs : Bytes) → bytes_eq xs xs ≡ true
unfolding bytes_eq
bytes_eq_refl [] = refl
bytes_eq_refl (x ∷ xs) = ground (arith, bytes_eq_refl xs)

eq→bytes_eq : (xs ys : Bytes) → xs ≡ ys → bytes_eq xs ys ≡ true
eq→bytes_eq xs ys h = rw h (bytes_eq_refl ys)

pub bytes_eq_iff : (xs ys : Bytes) → (bytes_eq xs ys ≡ true) ↔ (xs ≡ ys)
bytes_eq_iff xs ys = (bytes_eq→eq xs ys, eq→bytes_eq xs ys)

pub bytes_eq_ne : (xs ys : Bytes) → xs ≢ ys → bytes_eq xs ys ≡ false
bytes_eq_ne xs ys h = ground (arith, bytes_eq→eq xs ys)

pub same_or_other : (xs ys : Bytes) → (xs ≡ ys) ⊎ (xs ≢ ys)
same_or_other xs ys =
    elim (bytes_eq xs ys) as (λ t. bytes_eq xs ys ≡ t → (xs ≡ ys) ⊎ (xs ≢ ys)) [
      | true ↦ λ e. inl (bytes_eq→eq xs ys e)
      | false ↦ λ e. inr (λ h. ground (arith, eq→bytes_eq xs ys))
    ]
      refl

-- `to_le_bytes` on n bytes, and back.
unfoldable pub le_bytes : ℕ → ℕ → Bytes
le_bytes zero v = []
le_bytes (suc n) v = (v % 256) ∷ le_bytes n (v / 256)

unfoldable pub from_le : Bytes → ℕ
from_le [] = 0
from_le (b ∷ bs) = b + 256 * from_le bs

be_from : ℕ → Bytes → ℕ
be_from acc [] = acc
be_from acc (b ∷ bs) = be_from (acc * 256 + b) bs

unfoldable pub from_be : Bytes → ℕ
unfolding be_from
from_be bs = be_from 0 bs

-- Leading zeros do not count.
pub from_be_pad : (n : ℕ) (bs : Bytes) → from_be (replicate n 0 ++ bs) ≡ from_be bs
unfolding from_be be_from
from_be_pad zero bs = refl
from_be_pad (suc n) bs = from_be_pad n bs

be_from_snoc :
    (acc : ℕ) (bs : Bytes) (d : ℕ) → be_from acc (bs ++ (d ∷ [])) ≡ be_from acc bs * 256 + d
unfolding be_from
be_from_snoc acc [] d = refl
be_from_snoc acc (b ∷ bs) d = be_from_snoc (acc * 256 + b) bs d

pub from_be_snoc : (bs : Bytes) (d : ℕ) → from_be (bs ++ (d ∷ [])) ≡ from_be bs * 256 + d
unfolding from_be
from_be_snoc bs d = be_from_snoc 0 bs d

-- Four bytes make a 32-bit number.
pub from_be_word : (bs : Bytes) → length bs ≡ 4 → All IsByte bs → from_be bs < 2 ^ 32
unfolding from_be be_from
from_be_word [] n h = absurd (omega arith)
from_be_word (a ∷ []) n h = absurd (omega arith)
from_be_word (a ∷ b ∷ []) n h = absurd (omega arith)
from_be_word (a ∷ b ∷ c ∷ []) n h = absurd (omega arith)
from_be_word (a ∷ b ∷ c ∷ d ∷ []) n (ha, (hb, (hc, (hd, _)))) = omega arith
from_be_word (a ∷ b ∷ c ∷ d ∷ e ∷ bs) n h = absurd (omega arith)

-- A read of n bytes through a raw pointer into `bs`, with no check: past the end of `bs` it sees
-- whatever stands there, `beyond`.
unfoldable pub raw_byte : Bytes → (ℕ → ℕ) → ℕ → ℕ
raw_byte [] beyond i = beyond i
raw_byte (b ∷ bs) beyond zero = b
raw_byte (b ∷ bs) beyond (suc i) = raw_byte bs beyond i

unfoldable pub raw_bytes : Bytes → (ℕ → ℕ) → ℕ → ℕ → Bytes
unfolding raw_byte
raw_bytes bs beyond offset zero = []
raw_bytes bs beyond offset (suc n) = raw_byte bs beyond offset ∷ raw_bytes bs beyond (offset + 1) n

raw_byte-IsByte :
    (bs : Bytes) (beyond : ℕ → ℕ) (i : ℕ)
    → All IsByte bs
    → ((n : ℕ) → IsByte (beyond n))
    → IsByte (raw_byte bs beyond i)
unfolding raw_byte
raw_byte-IsByte [] beyond i h behind = behind i
raw_byte-IsByte (b ∷ bs) beyond zero (one, h) behind = one
raw_byte-IsByte (b ∷ bs) beyond (suc i) (one, h) behind = raw_byte-IsByte bs beyond i h behind

pub raw_bytes-IsByte :
    (bs : Bytes) (beyond : ℕ → ℕ) (offset n : ℕ)
    → All IsByte bs
    → ((m : ℕ) → IsByte (beyond m))
    → All IsByte (raw_bytes bs beyond offset n)
unfolding raw_bytes
raw_bytes-IsByte bs beyond offset zero h behind = tt
raw_bytes-IsByte bs beyond offset (suc n) h behind =
    (raw_byte-IsByte bs beyond offset h behind, raw_bytes-IsByte bs beyond (offset + 1) n h behind)
