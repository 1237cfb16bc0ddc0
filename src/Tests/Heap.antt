-- ===== src/Tests/Heap.antt =====
-- Three allocations in the heap that the runtime maps at 0x300000000.
use external_signature_progr.Allocator.{Layout, alloc, heap_length}
use external_signature_progr.Allocator.Alloc.{IsLayout, IsHeap, IsAligned, start, alloc_lem}
use external_signature_progr.Allocator.Blocks.{
  IsPlaced, IsBefore, Pairwise, blocks, blocks-IsPlaced,
}
use external_signature_progr.Allocator.DefaultHeap.{
  default_length, demand, IsInside, blocks-IsInside,
}
use external_signature_progr.Base.{
  length, ℕ, ◌≡◌, ◌+◌, ◌≤◌, ◌<◌, ◌⊎◌, inl, some, none, refl, arith, All, List, [], ◌∷◌,
}

abbrev heap_start : ℕ
heap_start = 0x300000000

abbrev layouts : List Layout
layouts =
    record { size = 100; align = 8 }
    ∷ record { size = 4096; align = 4096 }
    ∷ record { size = 300000; align = 1 }
    ∷ []

heap : IsHeap heap_start
heap = (omega arith, omega arith)

block_fits : IsLayout (record { size = 100; align = 8 })
block_fits = record { exponent = 3; power = refl; fits = omega arith }

blocks_fit : All IsLayout layouts
blocks_fit = (
  block_fits,
  (
    record { exponent = 12; power = refl; fits = omega arith },
    (record { exponent = 0; power = refl; fits = omega arith }, tt),
  ),
)

blocks-IsPlaced_example :
    All (IsPlaced heap_start) (blocks heap_start 0 layouts)
    × Pairwise IsBefore (blocks heap_start 0 layouts)
blocks-IsPlaced_example = blocks-IsPlaced heap_start heap layouts blocks_fit

alloc_lem_example :
    (p : ℕ) × IsAligned (start heap_start 0) 8 p
    × (((p + 100 ≤ heap_start + heap_length)
          × (alloc heap_start (record { size = 100; align = 8 }) 0
              ≡ record { pointer = some p; position = p + 100 }))
        ⊎ ((heap_start + heap_length < p + 100)
            × (alloc heap_start (record { size = 100; align = 8 }) 0
                ≡ record { pointer = none; position = 0 })))
alloc_lem_example =
    alloc_lem heap_start (record { size = 100; align = 8 }) 0 heap block_fits (inl refl)

abbrev small_layouts : List Layout
small_layouts =
    record { size = 100; align = 8 }
    ∷ record { size = 4096; align = 4096 }
    ∷ record { size = 20000; align = 1 }
    ∷ []

small_blocks_fit : All IsLayout small_layouts
small_blocks_fit = (
  block_fits,
  (
    record { exponent = 12; power = refl; fits = omega arith },
    (record { exponent = 0; power = refl; fits = omega arith }, tt),
  ),
)

small_demand : demand small_layouts + 8 ≤ default_length
unfolding demand
small_demand = omega arith

blocks-IsInside_example :
    (length (blocks heap_start 0 small_layouts) ≡ length small_layouts)
    × All (IsInside heap_start) (blocks heap_start 0 small_layouts)
blocks-IsInside_example =
    blocks-IsInside heap_start heap small_layouts small_blocks_fit small_demand
