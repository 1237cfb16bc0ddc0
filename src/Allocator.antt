-- ===== src/Allocator.antt =====
-- src/allocator.rs: the bump allocator. Its one word of state stands at the heap's first address,
-- where the runtime leaves a zero before the first call.
pub mod Alloc
pub mod Blocks
pub mod DefaultHeap
use Prim.Native.Nat.{bit_and}
use external_signature_progr.Base.{
  ℕ, ◌+◌, ◌-◌, ◌*◌, ◌%◌, ◌^◌, min, ltb, ◌==◌, if◌then◌else◌, List, [], ◌∷◌, Option, none, some,
}

-- `HEAP_LENGTH`
abbrev pub heap_length : ℕ
heap_length = 8 * 32 * 1024

-- `std::alloc::Layout`
pub record Layout : Type 0 where
  pub size : ℕ
  pub align : ℕ

-- The pointer that a call returns, `none` for null, and the word `*POS_PTR` that it leaves.
pub record Allocation : Type 0 where
  pub pointer : Option ℕ
  pub position : ℕ

-- `(pos + align - 1) & !(align - 1)` on usize.
unfoldable pub align_up : ℕ → ℕ → ℕ
align_up pos align = bit_and ((pos + align + (2 ^ 64 - 1)) % 2 ^ 64) (2 ^ 64 - 1 - (align - 1))

unfoldable pub saturating_add : ℕ → ℕ → ℕ
saturating_add a b = min (a + b) (2 ^ 64 - 1)

-- `dealloc` frees nothing.
unfoldable pub dealloc : ℕ → Layout → ℕ → ℕ
dealloc pointer layout word = word

-- The heap's start is a constant of the runtime's.
module _ (heap_start : ℕ) where
  abbrev pub top_address : ℕ
  top_address = heap_start + heap_length

  abbrev pub bottom_address : ℕ
  bottom_address = heap_start + 8

  unfoldable pub alloc : Layout → ℕ → Allocation
  unfolding align_up saturating_add
  alloc layout word =
      let start = if word == 0 then bottom_address else word in
      let pos = align_up start layout.align in
      let next_pos = saturating_add pos layout.size in
      if ltb top_address next_pos
      then record { pointer = none; position = word }
      else record { pointer = some pos; position = next_pos }
