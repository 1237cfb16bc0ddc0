-- ===== src/Instructions/Invoke/Collect.antt =====
-- The pass over an instruction's account indices with the bitmap of the indices seen
-- (src/instructions/execute_instructions.rs, src/instructions/execute_instructions_sessioned.rs).
use external_signature_progr.Base.{
  ℕ, zero, suc, ltb, ◌==◌, ◌||◌, ◌&&◌, Bool, true, false, if◌then◌else◌, ◌≡◌, refl, ◌∙◌, arith,
  List, [], ◌∷◌, ◌++◌, get_elem?, set, replicate, Option, none, some, inl, inr, Bool-cases,
  Option-cases, append_assoc, append-nil,
}
use external_signature_progr.Errors.{Result, ok, panic}
use external_signature_progr.Runtime.{AccountMeta}
use external_signature_progr.Instructions.Invoke.{collect}

-- The elements at the indices, if all are in range.
unfoldable pub lookups {ℓ} : {A : Type ℓ} → List A → List ℕ → Option (List A)
lookups xs [] = some []
lookups xs (i ∷ rest) = elim (get_elem? xs i) [
  | none ↦ none
  | some x ↦ elim (lookups xs rest) [ none ↦ none | some others ↦ some (x ∷ others) ]
]

abbrev pub contains : List ℕ → ℕ → Bool
contains [] i = false
contains (x ∷ xs) i = x == i || contains xs i

-- The indices without their repetitions, and without those of `seen`.
unfoldable pub first_occurrences : List ℕ → List ℕ → List ℕ
first_occurrences seen [] = []
first_occurrences seen (i ∷ rest) =
    let others = first_occurrences (i ∷ seen) rest in if contains seen i then others else i ∷ others

abbrev pub all_below : ℕ → List ℕ → Bool
all_below n [] = true
all_below n (i ∷ rest) = ltb i n && all_below n rest

abbrev IsBitmap : List Bool → List ℕ → Type 0
IsBitmap bits seen =
    (j : ℕ) → get_elem? bits j ≡ (if ltb j 64 then some (contains seen j) else none)

get_elem?-set_same :
    (xs : List Bool) (i : ℕ) (u v : Bool)
    → get_elem? xs i ≡ some u
    → get_elem? (set xs i v) i ≡ some v
get_elem?-set_same [] i u v h = cc
get_elem?-set_same (x ∷ xs) zero u v h = refl
get_elem?-set_same (x ∷ xs) (suc i) u v h = get_elem?-set_same xs i u v h

get_elem?-set_other :
    (xs : List Bool) (i j : ℕ) (v : Bool)
    → (i == j) ≡ false
    → get_elem? (set xs i v) j ≡ get_elem? xs j
get_elem?-set_other [] i j v h = refl
get_elem?-set_other (x ∷ xs) zero zero v h = absurd (ground arith)
get_elem?-set_other (x ∷ xs) zero (suc j) v h = refl
get_elem?-set_other (x ∷ xs) (suc i) zero v h = refl
get_elem?-set_other (x ∷ xs) (suc i) (suc j) v h = get_elem?-set_other xs i j v (ground (arith))

get_elem?-replicate :
    (n j : ℕ) (v : Bool) → get_elem? (replicate n v) j ≡ (if ltb j n then some v else none)
get_elem?-replicate zero j v = ground arith
get_elem?-replicate (suc n) zero v = ground arith
get_elem?-replicate (suc n) (suc j) v = get_elem?-replicate n j v ∙ ground arith

-- Marking an index below 64 adds it to the indices seen.
IsBitmap-set :
    (bits : List Bool) (seen : List ℕ) (i : ℕ)
    → ltb i 64 ≡ true
    → IsBitmap bits seen
    → IsBitmap (set bits i true) (i ∷ seen)
IsBitmap-set bits seen i h marked j = elim (Bool-cases (i == j)) [
  | inl same ↦
      let e : i ≡ j = ground arith in
      ground (arith, get_elem?-set_same bits i (contains seen i) true, marked i)
  | inr other ↦ ground (arith, get_elem?-set_other bits i j true other, marked j)
]

-- What `collect` returns, from the lists gathered so far.
abbrev gathered :
    List AccountMeta
    → List ℕ
    → List ℕ
    → List AccountMeta
    → List ℕ
    → Result (List AccountMeta × List ℕ)
gathered metas indices seen account_metas account_info_indices = elim (lookups metas indices) [
  | none ↦ panic
  | some found ↦
      if all_below 64 indices
      then ok (account_metas ++ found, account_info_indices ++ first_occurrences seen indices)
      else panic
]

collect-gathered :
    (metas : List AccountMeta) (indices : List ℕ) (bits : List Bool) (seen : List ℕ)
    (account_metas : List AccountMeta) (account_info_indices : List ℕ)
    → IsBitmap bits seen
    → collect metas indices bits account_metas account_info_indices
      ≡ gathered metas indices seen account_metas account_info_indices
unfolding collect lookups first_occurrences
collect-gathered metas [] bits seen ms is marked = rw (append-nil ms, append-nil is)
collect-gathered metas (i ∷ rest) bits seen ms is marked = elim (Option-cases (get_elem? metas i)) [
  | inl out ↦ ground (arith, out)
  | inr (m, here) ↦ elim (Bool-cases (ltb i 64)) [
    | inr far ↦ ground (arith, marked i)
    | inl near ↦
        let bit : get_elem? bits i ≡ some (contains seen i) = ground (arith, marked i) in
        let later : (js : List ℕ)
            → collect metas rest (set bits i true) (ms ++ (m ∷ [])) js
              ≡ gathered metas rest (i ∷ seen) (ms ++ (m ∷ [])) js =
          λ js.
            collect-gathered metas rest (set bits i true) (i ∷ seen) (ms ++ (m ∷ [])) js
              (IsBitmap-set bits seen i near marked) in
        elim (Option-cases (lookups metas rest)) [
          | inl missing ↦ ground (arith, here, bit, missing, later is, later (is ++ (i ∷ [])))
          | inr (others, found) ↦ ground (
            arith,
            here,
            bit,
            found,
            later is,
            later (is ++ (i ∷ [])),
            append_assoc ms (m ∷ []) others,
            append_assoc is (i ∷ []) (first_occurrences (i ∷ seen) rest),
          )
        ]
  ]
]

IsBitmap-replicate : IsBitmap (replicate 64 false) []
IsBitmap-replicate j = get_elem?-replicate 64 j false

-- From the bitmap with nothing seen, `collect` returns the metas at the indices and the indices
-- without their repetitions, in the order of their first occurrences; it panics if an index is not
-- below 64 or has no meta, and never fails otherwise.
pub collect_lem :
    (metas : List AccountMeta) (indices : List ℕ)
    → collect metas indices (replicate 64 false) [] []
      ≡ elim (lookups metas indices) as (λ _. Result (List AccountMeta × List ℕ)) [
        | none ↦ panic
        | some found ↦
            if all_below 64 indices then ok (found, first_occurrences [] indices) else panic
      ]
collect_lem metas indices =
    collect-gathered metas indices (replicate 64 false) [] [] [] IsBitmap-replicate

pub collect-eq-ok :
    (metas : List AccountMeta) (indices : List ℕ) (found : List AccountMeta × List ℕ)
    → collect metas indices (replicate 64 false) [] [] ≡ ok found
    → (lookups metas indices ≡ some found.0)
      × (all_below 64 indices ≡ true)
      × (found.1 ≡ first_occurrences [] indices)
collect-eq-ok metas indices found e = ground (arith, collect_lem metas indices)
