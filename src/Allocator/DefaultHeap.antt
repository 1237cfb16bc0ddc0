-- ===== src/Allocator/DefaultHeap.antt =====
-- Programs that do not ask for a larger heap: requests within the 32 KiB that the runtime maps anyway
-- (src/allocator.rs).
use external_signature_progr.Base.{
  ℕ, suc, ◌+◌, ◌*◌, ◌≤◌, ◌≡◌, inl, inr, refl, sym, ap, ◌∙◌, arith, List, [], ◌∷◌, All, length,
}
use external_signature_progr.Allocator.{Layout}
use external_signature_progr.Allocator.Alloc.{IsLayout, IsHeap, IsWord, start, alloc_lem}
use external_signature_progr.Allocator.Blocks.{Block, blocks, blocks-some}
use mathlib.Core.Path.{subst}

-- What the runtime maps without `requestHeapFrame`.
abbrev pub default_length : ℕ
default_length = 32 * 1024

-- What the requests take at most, alignment included.
unfoldable pub demand : List Layout → ℕ
demand [] = 0
demand (layout ∷ rest) = layout.size + layout.align + demand rest

abbrev pub IsInside : ℕ → Block → Type 0
IsInside heap_start b = b.address + b.layout.size ≤ heap_start + default_length

module _ (heap_start : ℕ) (heap : IsHeap heap_start) where
  IsServed : ℕ → List Layout → Type 0
  IsServed word layouts =
      (length (blocks heap_start word layouts) ≡ length layouts)
      × All (IsInside heap_start) (blocks heap_start word layouts)

  blocks-IsServed :
      (word : ℕ) (layouts : List Layout)
      → IsWord heap_start word
      → All IsLayout layouts
      → start heap_start word + demand layouts ≤ heap_start + default_length
      → IsServed word layouts
  unfolding IsServed blocks demand
  blocks-IsServed word [] valid fine within = (refl, tt)
  blocks-IsServed word (layout ∷ rest) valid (fits, fine) within =
      let (p, at, outcome) = alloc_lem heap_start layout word heap fits valid in
      elim outcome [
        | inl (inside, e) ↦
            let end = p + layout.size in
            let past : heap_start + 8 ≤ end = ground (arith, valid, at.above) in
            let same : start heap_start end ≡ end = ground (arith, past) in
            let (count, all) =
              blocks-IsServed end rest (inr (past, inside)) fine
                (omega (arith, same, at.least, within)) in
            let listed = blocks-some heap_start heap layout rest word end p e in
            (
              ap length listed ∙ ap suc count,
              subst (All (IsInside heap_start)) (sym listed) (omega (arith, at.least, within), all),
            )
        | inr (out, e) ↦ absurd (omega (arith, out, at.least, within))
      ]

  -- Calls whose sizes and alignments add up to at most 32 KiB less the heap's first word all
  -- succeed, and every block ends within the 32 KiB that the runtime maps without a request for a
  -- larger heap.
  pub blocks-IsInside :
      (layouts : List Layout)
      → All IsLayout layouts
      → demand layouts + 8 ≤ default_length
      → (length (blocks heap_start 0 layouts) ≡ length layouts)
        × All (IsInside heap_start) (blocks heap_start 0 layouts)
  unfolding IsServed
  blocks-IsInside layouts fine within =
      blocks-IsServed 0 layouts (inl refl) fine (omega (arith, within))
