-- ===== src/Sdk/Compile/Normalized.antt =====
-- Which instructions the SDK compiles, and that the program reads them
-- (sdks/rust-sdk/src/instructions/execute.rs).
use external_signature_progr.Base.{
  ℕ, ◌<◌, ◌^◌, ltb, lt→ltb, ◌≡◌, ◌↔◌, refl, sym, List, [], ◌∷◌, length, IsByte, All, Bool-cases,
  ltb→lt, inl, inr, Pubkey,
}
use external_signature_progr.Borsh.{Borsh, fields}
use external_signature_progr.Borsh.Laws.{
  RoundTrips, IsBorsh, int-RoundTrips, fields-RoundTrips, derive-RoundTrips, IsCodec,
  fields-IsCodec, derive-IsCodec,
}
use external_signature_progr.Runtime.{Instruction}
use external_signature_progr.Sdk.Builders.Codecs.{small_bytes-RoundTrips}
use external_signature_progr.Sdk.Compile.{
  CompiledExecutionPayload, account_metas, normalize, compile_instructions_for_execution,
}
use external_signature_progr.Sdk.Types.{
  SdkError, SdkResult, done, failed, >>=-eq-done, or_fail, Crates,
}
use external_signature_progr.Utils.Instructions.{CompiledInstruction, compiled_instruction_codec}
use external_signature_progr.Utils.SmallVec.{try_from, small_vec}
use external_signature_progr.Utils.SmallVec.RoundTrip.{small_vec-IsCodec}

-- An instruction's lists fit their short vectors.
abbrev pub IsShort : CompiledInstruction → Type 0
IsShort i = (length i.accounts_indices < 256) × (length i.input < 65536)

-- The values that the source's types have.
pub record HasBytes (i : CompiledInstruction) : Type 0 where
  pub index : i.program_id_index < 256
  pub indices : All IsByte i.accounts_indices
  pub input : All IsByte i.input

short→normalize : (xs : List CompiledInstruction) → All IsShort xs → normalize xs ≡ done xs
unfolding normalize try_from
short→normalize [] h = refl
short→normalize (x ∷ xs) ((few, small), h) =
    rw (lt→ltb _ 256 few, lt→ltb _ 65536 small, short→normalize xs h) refl

try_from-eq-done :
    {A : Type 0} (width : ℕ) (e : SdkError) (xs ys : List A)
    → or_fail e (try_from width xs) ≡ done ys
    → (length xs < 256 ^ width) × (xs ≡ ys)
unfolding try_from
try_from-eq-done width e xs ys h = elim (Bool-cases (ltb (length xs) (256 ^ width))) [
  | inl fits ↦
      (ltb→lt _ _ fits, (let k : SdkResult.done xs ≡ done ys = rw (sym h, fits) refl in cc))
  | inr long ↦ (let k : failed e ≡ done ys = rw (sym h, long) refl in cc)
]

normalize→short :
    (xs ys : List CompiledInstruction) → normalize xs ≡ done ys → All IsShort xs × (xs ≡ ys)
unfolding normalize
normalize→short [] ys h = (tt, cc)
normalize→short (x ∷ xs) ys h =
    let (indices, e1, h1) = >>=-eq-done _ _ h in
    let (input, e2, h2) = >>=-eq-done _ _ h1 in
    let (others, e3, h3) = >>=-eq-done (normalize xs) _ h2 in
    let (few, same1) = try_from-eq-done 1 _ x.accounts_indices indices e1 in
    let (small, same2) = try_from-eq-done 2 _ x.input input e2 in
    let (rest, same3) = normalize→short xs others e3 in
    let parts : done (
          record {
            program_id_index = x.program_id_index;
            accounts_indices = x.accounts_indices;
            input = x.input;
          }
          ∷ xs)
        ≡ done ys =
      rw (same1, same2, same3) h3 in
    let whole : done (x ∷ xs) ≡ done ys = parts in (((few, small), rest), cc)

module _ (crates : Crates) (instructions : List Instruction) (payer : Pubkey) where
  pub compile-eq-done :
      (compiled : CompiledExecutionPayload)
      → compile_instructions_for_execution crates instructions payer ≡ done compiled
      → let message = crates.new_message instructions payer in
        (length message.instructions < 256)
        × All IsShort message.instructions
        × (compiled
            ≡ record { account_metas = account_metas message; instructions = message.instructions })
  unfolding compile_instructions_for_execution
  compile-eq-done compiled h =
      let message = crates.new_message instructions payer in
      let (normalized, e1, h1) = >>=-eq-done (normalize message.instructions) _ h in
      let (kept, e2, h2) = >>=-eq-done _ _ h1 in
      let (short, same) = normalize→short message.instructions normalized e1 in
      let (few, same') = try_from-eq-done 1 _ normalized kept e2 in
      let whole : done
            (record { account_metas = account_metas message; instructions = message.instructions })
          ≡ done compiled =
        rw (same, same') h2 in
      (rw same few, short, cc)

  short→compile :
      let message = crates.new_message instructions payer in
      length message.instructions < 256
      → All IsShort message.instructions
      → compile_instructions_for_execution crates instructions payer
        ≡ done
            (record { account_metas = account_metas message; instructions = message.instructions })
  unfolding compile_instructions_for_execution try_from
  short→compile few short =
      let message = crates.new_message instructions payer in
      rw (short→normalize message.instructions short, lt→ltb (length message.instructions) 256 few)
        refl

  -- Compiling hands on the message's instructions as they are, with the metas of its accounts,
  -- exactly when they are fewer than 256, each with fewer than 256 accounts and fewer than 65536
  -- bytes of data.
  pub compile_instructions_for_execution_iff :
      let message = crates.new_message instructions payer in
      (compile_instructions_for_execution crates instructions payer
        ≡ done
            (record { account_metas = account_metas message; instructions = message.instructions }))
      ↔ ((length message.instructions < 256) × All IsShort message.instructions)
  compile_instructions_for_execution_iff = (
    λ h. let (few, short, same) = compile-eq-done _ h in (few, short),
    λ (few, short). short→compile few short,
  )

module _ (b : Borsh) (h : IsBorsh b) where
  compiled_instruction-RoundTrips :
      (i : CompiledInstruction)
      → HasBytes i
      → IsShort i
      → RoundTrips (compiled_instruction_codec b) i
  unfolding compiled_instruction_codec
  compiled_instruction-RoundTrips i bytes (few, small) =
      let indices = small_vec (b.int 1) b 1 in
      let input = small_vec (b.int 1) b 2 in
      derive-RoundTrips _ _ (fields (b.int 1) (fields indices input))
        (i.program_id_index, (i.accounts_indices, i.input)) refl
        (fields-RoundTrips (b.int 1) (fields indices input) i.program_id_index
          (i.accounts_indices, i.input) (int-RoundTrips b h 1 i.program_id_index bytes.index)
          (fields-RoundTrips indices input i.accounts_indices i.input
            (small_bytes-RoundTrips b h 1 i.accounts_indices few bytes.indices)
            (small_bytes-RoundTrips b h 2 i.input small bytes.input)))

  pub compiled_instructions-RoundTrips :
      (xs : List CompiledInstruction)
      → All HasBytes xs
      → All IsShort xs
      → All (RoundTrips (compiled_instruction_codec b)) xs
  compiled_instructions-RoundTrips [] bytes short = tt
  compiled_instructions-RoundTrips (x ∷ xs) (bx, bytes) (sx, short) =
      (compiled_instruction-RoundTrips x bx sx, compiled_instructions-RoundTrips xs bytes short)

  pub compiled_instruction-IsCodec : IsCodec (compiled_instruction_codec b)
  unfolding compiled_instruction_codec
  compiled_instruction-IsCodec =
      let byte = h.int-IsCodec 1 in
      derive-IsCodec _ _ _ (λ p. refl)
        (fields-IsCodec (b.int 1) _ byte (
          fields-IsCodec (small_vec (b.int 1) b 1) (small_vec (b.int 1) b 2)
            (small_vec-IsCodec (b.int 1) byte b h 1) (small_vec-IsCodec (b.int 1) byte b h 2)))
