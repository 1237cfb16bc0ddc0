-- ===== src/Allocator/Blocks.antt =====
-- What a series of calls hands out (src/allocator.rs).
use external_signature_progr.Base.{
  ℕ, ◌+◌, ◌%◌, ◌≤◌, ◌≡◌, inl, inr, refl, sym, ap, arith, List, [], ◌∷◌, none, some, All,
}
use external_signature_progr.Allocator.{Layout, Allocation, heap_length, alloc}
use external_signature_progr.Allocator.Alloc.{IsLayout, IsHeap, IsWord, start, alloc_lem}
use mathlib.Core.Path.{subst}

pub record Block : Type 0 where
  pub address : ℕ
  pub layout : Layout

-- The blocks that calls for these layouts return, in order, from the word that stands at the
-- heap's start. A null pointer is no block.
unfoldable pub blocks : ℕ → ℕ → List Layout → List Block
blocks heap_start word [] = []
blocks heap_start word (layout ∷ rest) =
    let a = alloc heap_start layout word in
    let others = blocks heap_start a.position rest in
    elim a.pointer [ none ↦ others | some p ↦ record { address = p; layout = layout } ∷ others ]

-- A block is aligned and lies in the heap behind the word at its start.
pub record IsPlaced (heap_start : ℕ) (b : Block) : Type 0 where
  pub aligned : b.address % b.layout.align ≡ 0
  pub above : heap_start + 8 ≤ b.address
  pub below : b.address + b.layout.size ≤ heap_start + heap_length

-- One block ends before the other starts.
abbrev pub IsBefore : Block → Block → Type 0
IsBefore a b = a.address + a.layout.size ≤ b.address

abbrev pub Pairwise : (Block → Block → Type 0) → List Block → Type 0
Pairwise R [] = Unit
Pairwise R (b ∷ bs) = All (R b) bs × Pairwise R bs

module _ (heap_start : ℕ) (heap : IsHeap heap_start) where
  IsFrom : ℕ → Block → Type 0
  IsFrom from b = (from ≤ b.address) × IsPlaced heap_start b

  IsFrom-weaken : (m n : ℕ) (bs : List Block) → m ≤ n → All (IsFrom n) bs → All (IsFrom m) bs
  unfolding IsFrom
  IsFrom-weaken m n [] h all = tt
  IsFrom-weaken m n (b ∷ bs) h (one, all) = ((omega arith, one.1), IsFrom-weaken m n bs h all)

  from-IsBefore :
      (b : Block) (bs : List Block)
      → All (IsFrom (b.address + b.layout.size)) bs
      → All (IsBefore b) bs
  unfolding IsFrom
  from-IsBefore b [] all = tt
  from-IsBefore b (c ∷ cs) (one, all) = (one.0, from-IsBefore b cs all)

  blocks_null :
      (layout : Layout) (rest : List Layout) (word next : ℕ)
      → alloc heap_start layout word ≡ record { pointer = none; position = next }
      → blocks heap_start word (layout ∷ rest) ≡ blocks heap_start next rest
  unfolding blocks
  blocks_null layout rest word next e =
      ap
        (λ (a : Allocation). elim a.pointer as (λ _. List Block) [
          | none ↦ blocks heap_start a.position rest
          | some p ↦ record { address = p; layout = layout } ∷ blocks heap_start a.position rest
        ])
        e

  pub blocks-some :
      (layout : Layout) (rest : List Layout) (word next p : ℕ)
      → alloc heap_start layout word ≡ record { pointer = some p; position = next }
      → blocks heap_start word (layout ∷ rest)
        ≡ record { address = p; layout = layout } ∷ blocks heap_start next rest
  unfolding blocks
  blocks-some layout rest word next p e =
      ap
        (λ (a : Allocation). elim a.pointer as (λ _. List Block) [
          | none ↦ blocks heap_start a.position rest
          | some p ↦ record { address = p; layout = layout } ∷ blocks heap_start a.position rest
        ])
        e

  -- The blocks of a series start at the word or later, and none overlaps a later one.
  IsSeries : ℕ → List Block → Type 0
  IsSeries from bs = All (IsFrom from) bs × Pairwise IsBefore bs

  blocks_from :
      (word : ℕ) (layouts : List Layout)
      → IsWord heap_start word
      → All IsLayout layouts
      → IsSeries (start heap_start word) (blocks heap_start word layouts)
  unfolding blocks IsFrom IsSeries
  blocks_from word [] valid fine = (tt, tt)
  blocks_from word (layout ∷ rest) valid (fits, fine) =
      let (p, at, outcome) = alloc_lem heap_start layout word heap fits valid in
      elim outcome [
        | inl (inside, e) ↦
            let end = p + layout.size in
            let past : heap_start + 8 ≤ end =
              above_bottom word end valid (omega (arith, at.above)) in
            let valid' : IsWord heap_start end = inr (past, inside) in
            let same : start heap_start end ≡ end = ground (arith, past) in
            let (all, apart) = blocks_from end rest valid' fine in
            let later : All (IsFrom end) (blocks heap_start end rest) =
              subst (λ n. All (IsFrom n) (blocks heap_start end rest)) same all in
            let here : IsPlaced heap_start (record { address = p; layout = layout }) = record {
              aligned = at.multiple;
              above = above_bottom word p valid at.above;
              below = inside;
            } in
            subst (IsSeries (start heap_start word)) (sym (blocks-some layout rest word end p e)) (
              (
                (at.above, here),
                IsFrom-weaken (start heap_start word) end _ (omega (arith, at.above)) later,
              ),
              (from-IsBefore (record { address = p; layout = layout }) _ later, apart),
            )
        | inr (out, e) ↦
            subst (IsSeries (start heap_start word)) (sym (blocks_null layout rest word word e))
              (blocks_from word rest valid fine)
      ]
    where
      above_bottom : (w p : ℕ) → IsWord heap_start w → start heap_start w ≤ p → heap_start + 8 ≤ p
      above_bottom w p v h = ground (arith, v)

  IsPlaced-all : (from : ℕ) (bs : List Block) → All (IsFrom from) bs → All (IsPlaced heap_start) bs
  unfolding IsFrom
  IsPlaced-all from [] h = tt
  IsPlaced-all from (b ∷ bs) (one, h) = (one.1, IsPlaced-all from bs h)

  -- The blocks that a series of calls returns are aligned, lie in the heap behind its first word,
  -- and do not overlap.
  pub blocks-IsPlaced :
      (layouts : List Layout)
      → All IsLayout layouts
      → All (IsPlaced heap_start) (blocks heap_start 0 layouts)
        × Pairwise IsBefore (blocks heap_start 0 layouts)
  unfolding IsSeries
  blocks-IsPlaced layouts fine =
      let (all, apart) = blocks_from 0 layouts (inl refl) fine in
      (
        IsPlaced-all (heap_start + 8) (blocks heap_start 0 layouts)
            (subst (λ n. All (IsFrom n) (blocks heap_start 0 layouts)) first all),
        apart,
      )
    where
      first : start heap_start 0 ≡ heap_start + 8
      first = refl
