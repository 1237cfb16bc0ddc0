-- ===== src/Allocator/Alloc.antt =====
-- One call of the allocator (src/allocator.rs).
use external_signature_progr.Base.{
  ℕ, ◌+◌, ◌-◌, ◌*◌, ◌/◌, ◌%◌, ◌^◌, ◌≤◌, ◌<◌, ◌≡◌, ◌⊎◌, inl, inr, refl, ◌∙◌, ap, arith, min, ltb,
  ◌==◌, if◌then◌else◌, none, some, Bool-cases,
}
use external_signature_progr.Base.Bits.{bit_and_rounds_down}
use external_signature_progr.Allocator.{Layout, heap_length, align_up, saturating_add, alloc}
use Prim.Native.Nat.{bit_and}
use native.Mathlib.Decide.{dec_le}
use native.Mathlib.Nat.{one-le-pow, pow-le-pow_right, mul-mod_left, lt-div-mul-add, div-mul-le_self}

-- A layout as Rust makes them: the alignment is a power of two, and the size rounded up to it is
-- below 2^63.
pub record IsLayout (layout : Layout) : Type 0 where
  pub exponent : ℕ
  pub power : layout.align ≡ 2 ^ exponent
  pub fits : layout.size + layout.align ≤ 2 ^ 63

-- The heap lies in the lower half of the addresses, and not at their start.
abbrev pub IsHeap : ℕ → Type 0
IsHeap heap_start = (0 < heap_start) × (heap_start + heap_length < 2 ^ 62)

-- The word at the heap's start: nothing allocated, or where the next block may start.
abbrev pub IsWord : ℕ → ℕ → Type 0
IsWord heap_start word = (word ≡ 0) ⊎ ((heap_start + 8 ≤ word) × (word ≤ heap_start + heap_length))

-- Where the next block may start.
abbrev pub start : ℕ → ℕ → ℕ
start heap_start word = if word == 0 then heap_start + 8 else word

-- The least multiple of the alignment from `from` on.
pub record IsAligned (from align p : ℕ) : Type 0 where
  pub multiple : p % align ≡ 0
  pub above : from ≤ p
  pub least : p < from + align

exponent_bound : (k : ℕ) → 2 ^ k ≤ 2 ^ 63 → k ≤ 64
exponent_bound k h = elim (dec_le k 64) [
  | yes p ↦ p
  | no p ↦
      absurd (omega (arith, pow-le-pow_right {n = 2} (omega arith) {i = 64} {j = k} (omega arith)))
]

align_up-IsAligned :
    (from align k : ℕ)
    → align ≡ 2 ^ k
    → align ≤ 2 ^ 63
    → from < 2 ^ 62
    → IsAligned from align (align_up from align)
unfolding align_up
align_up-IsAligned from align k power small low =
    let positive : 1 ≤ 2 ^ k = one-le-pow k 2 (omega arith) in
    let word : (from + align + (2 ^ 64 - 1)) % 2 ^ 64 ≡ from + align - 1 = omega (arith, power) in
    let mask : 2 ^ 64 - 1 - (align - 1) ≡ 2 ^ 64 - 2 ^ k = omega (arith, power) in
    let raised = from + align - 1 in
    let down : align_up from align ≡ raised / 2 ^ k * 2 ^ k =
      ap (λ (n : ℕ). bit_and n (2 ^ 64 - 1 - (align - 1))) word
      ∙ ap (bit_and raised) mask
      ∙ bit_and_rounds_down 64 k raised (omega (arith, power))
          (exponent_bound k (omega (arith, power))) in
    let below : raised / 2 ^ k * 2 ^ k ≤ raised = div-mul-le_self raised (2 ^ k) in
    let near : raised < raised / 2 ^ k * 2 ^ k + 2 ^ k = lt-div-mul-add (omega arith) in
    record {
      multiple =
          ap (λ (n : ℕ). n % align) down
          ∙ ap (λ (n : ℕ). raised / 2 ^ k * 2 ^ k % n) power
          ∙ mul-mod_left (raised / 2 ^ k) (2 ^ k);
      above = omega (arith, down, below, near, power);
      least = omega (arith, down, below, near, power);
    }

placed :
    (heap_start : ℕ) (layout : Layout) (word p : ℕ)
    → align_up (start heap_start word) layout.align ≡ p
    → min (p + layout.size) (2 ^ 64 - 1) ≡ p + layout.size
    → ((p + layout.size ≤ heap_start + heap_length)
        × (alloc heap_start layout word ≡ record { pointer = some p; position = p + layout.size }))
      ⊎ ((heap_start + heap_length < p + layout.size)
          × (alloc heap_start layout word ≡ record { pointer = none; position = word }))
unfolding alloc saturating_add
placed heap_start layout word p e unsaturated =
    elim (Bool-cases (ltb (heap_start + heap_length) (p + layout.size))) [
      | inl over ↦ inr (ground (arith, over), rw (e, unsaturated, over) refl)
      | inr fits ↦ inl (ground (arith, fits), rw (e, unsaturated, fits) refl)
    ]

-- `alloc` returns the least multiple of the alignment from where the next block may start, if the
-- block then ends within the heap, and moves the word to the block's end; if it does not, `alloc`
-- returns null and leaves the word.
pub alloc_lem :
    (heap_start : ℕ) (layout : Layout) (word : ℕ)
    → IsHeap heap_start
    → IsLayout layout
    → IsWord heap_start word
    → (p : ℕ) × IsAligned (start heap_start word) layout.align p
      × (((p + layout.size ≤ heap_start + heap_length)
            × (alloc heap_start layout word
                ≡ record { pointer = some p; position = p + layout.size }))
          ⊎ ((heap_start + heap_length < p + layout.size)
              × (alloc heap_start layout word ≡ record { pointer = none; position = word })))
alloc_lem heap_start layout word heap fine valid =
    let low : start heap_start word < 2 ^ 62 = ground (arith, heap.1, valid) in
    let p = align_up (start heap_start word) layout.align in
    let aligned =
      align_up-IsAligned (start heap_start word) layout.align fine.exponent fine.power
        (omega (arith, fine.fits)) low in
    let unsaturated : min (p + layout.size) (2 ^ 64 - 1) ≡ p + layout.size =
      omega (arith, aligned.least, low, fine.fits) in
    (p, aligned, placed heap_start layout word p refl unsaturated)
