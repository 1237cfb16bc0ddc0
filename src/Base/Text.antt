-- ===== src/Base/Text.antt =====
-- Text of Rust's standard library: `str::from_utf8` as a check, and `Display` of a `u16`.
use external_signature_progr.Base.Tests.{ltb, leb, ◌==◌, if◌then◌else◌}
use external_signature_progr.Base.ByteStrings.{Bytes}
use Prim.Native.Nat.{ℕ, zero, suc, ◌+◌, ◌-◌, ◌/◌, ◌%◌}
use mathlib.Core.Bool.{Bool, false, ◌&&◌}
use mathlib.Core.List.{[], ◌∷◌, ◌++◌}
use mathlib.Core.Option.{Option, none, some}

-- Inside a character: how many bytes are still to come, and the range of the next.
record Utf8 : Type 0 where
  needed : ℕ
  low : ℕ
  high : ℕ

expect : ℕ → ℕ → ℕ → Option Utf8
expect needed low high = some (record { needed = needed; low = low; high = high })

-- The first byte of a character, by the table of well-formed sequences.
first_byte : ℕ → Option Utf8
unfolding expect
first_byte b =
    if ltb b 0x80
    then expect 0 0x80 0xbf
    else if ltb b 0xc2
    then none
    else if ltb b 0xe0
    then expect 1 0x80 0xbf
    else if b == 0xe0
    then expect 2 0xa0 0xbf
    else if b == 0xed
    then expect 2 0x80 0x9f
    else if ltb b 0xf0
    then expect 2 0x80 0xbf
    else if b == 0xf0
    then expect 3 0x90 0xbf
    else if ltb b 0xf4
    then expect 3 0x80 0xbf
    else if b == 0xf4
    then expect 3 0x80 0x8f
    else none

next_byte : Utf8 → ℕ → Option Utf8
unfolding first_byte
next_byte s b =
    if s.needed == 0
    then first_byte b
    else if leb s.low b && leb b s.high
    then expect (s.needed - 1) 0x80 0xbf
    else none

utf8_from : Option Utf8 → Bytes → Bool
unfolding next_byte
utf8_from none bs = false
utf8_from (some s) [] = s.needed == 0
utf8_from (some s) (b ∷ bs) = utf8_from (next_byte s b) bs

-- `std::str::from_utf8(bs).is_ok()`
unfoldable pub is_utf8 : Bytes → Bool
unfolding utf8_from expect
is_utf8 bs = utf8_from (expect 0 0x80 0xbf) bs

-- At most `n` decimal digits.
unfoldable pub digits : ℕ → ℕ → Bytes
digits zero v = []
digits (suc n) v =
    let front = digits n (v / 10) in
    if ltb v 10 then (b'0' + v) ∷ [] else front ++ ((b'0' + v % 10) ∷ [])

-- `format!("{}", port)` for a `u16`, which has five digits at most.
unfoldable pub decimal_u16 : ℕ → Bytes
unfolding digits
decimal_u16 v = digits 5 v
