-- ===== src/Base.antt =====
-- The names that the other modules share: the libraries', passed on, and those of the children.
mod Tests
mod Lists
mod ByteStrings
pub mod Bits
pub mod Text
pub mod Numbers
pub use Tests.*
pub use Lists.*
pub use Prim.Native.Nat.{ℕ, zero, suc, ◌+◌, ◌-◌, ◌*◌, ◌/◌, ◌%◌, ◌^◌, ◌≤◌, ◌<◌, min}
pub use mathlib.Core.Path.{◌≡◌, refl, sym, ap, ◌∙◌}
pub use mathlib.Core.Logic.{◌≢◌, ◌↔◌, ◌⊎◌, inl, inr}
pub use mathlib.Core.Bool.{Bool, true, false, ◌&&◌, ◌||◌, not}
pub use mathlib.Core.Option.{Option, none, some}
pub use mathlib.Core.List.{List, [], ◌∷◌, ◌++◌, map, append_assoc, append-nil}
pub use native.Mathlib.Omega.{arith}
pub use ByteStrings.{
  Bytes, Pubkey, IsByte, All, All-append, All-append-left, All-take, All-drop, codes, bytes_eq_iff,
  bytes_eq_refl, bytes_eq_ne, all_bytes-IsByte, same_or_other, from_be_pad, from_be_snoc,
  from_be_word, raw_bytes-IsByte,
}
unfoldable pub use ByteStrings.{
  all_bytes, bytes_eq, le_bytes, from_le, from_be, raw_byte, raw_bytes,
}
