-- ===== src/Instructions/Invoke/Trace.antt =====
-- The calls that a list of compiled instructions makes
-- (src/instructions/execute_instructions.rs, src/instructions/execute_instructions_sessioned.rs).
use external_signature_progr.Base.{
  ℕ, ◌≡◌, ◌≢◌, ◌↔◌, refl, sym, ◌∙◌, ap, arith, true, false, not, List, [], ◌∷◌, ◌++◌, get_elem?,
  replicate, bytes_eq, bytes_eq_iff, Bytes, some,
}
use external_signature_progr.Errors.{Result, ok, err, panic, assert, index, unwrap}
use external_signature_progr.Errors.Laws.{ok-injective, assert-eq-ok, unwrap-eq-ok}
use external_signature_progr.Instructions.Invoke.{
  collect, filter_infos, invoke_instruction, invoke_instructions,
}
use external_signature_progr.Instructions.Invoke.Collect.{
  lookups, first_occurrences, all_below, collect_lem, collect-eq-ok,
}
use external_signature_progr.Runtime.{Runtime, AccountInfo, AccountMeta, Accounts, Invocation}
use external_signature_progr.Utils.Instructions.{CompiledInstruction}
use external_signature_progr.World.{World, slice_invoke_signed}
use mathlib.Core.Path.{subst}
use external_signature_progr.World.Laws.{bind-eq-ok, bind-ok, bind-lift-eq-ok, bind-lift-ok}

module _ (rt : Runtime) (metas : List AccountMeta) (infos : List AccountInfo)
    (seeds : List Bytes) where
  -- The call that a compiled instruction stands for: of a program of the list that is not this
  -- one, with the metas and the distinct accounts at the instruction's indices.
  pub record IsCallOf (i : CompiledInstruction) (c : Invocation) : Type 0 where
    pub program : AccountInfo
    pub named : get_elem? infos i.program_id_index ≡ some program
    pub foreign : program.key ≢ rt.id
    pub account_metas : List AccountMeta
    pub granted : lookups metas i.accounts_indices ≡ some account_metas
    pub narrow : all_below 64 i.accounts_indices ≡ true
    pub account_infos : List AccountInfo
    pub passed : lookups infos (first_occurrences [] i.accounts_indices) ≡ some account_infos
    pub call : c ≡ record {
      instruction = record { program_id = program.key; input = i.input; accounts = account_metas };
      account_infos = account_infos;
      signer_seeds = seeds;
    }

  -- The steps of a list of instructions: one call each, in order, each from the accounts that the
  -- one before left.
  pub data Runs : List CompiledInstruction → World → World → Type 0 where
    done : (w : World) → Runs [] w w
    call :
        (i : CompiledInstruction) (rest : List CompiledInstruction) (c : Invocation)
        (accounts : Accounts) (w w' : World)
        → IsCallOf i c
        → rt.invoke c w.accounts ≡ ok accounts
        → Runs rest (record { accounts = accounts; invoked = w.invoked ++ (c ∷ []) }) w'
        → Runs (i ∷ rest) w w'

  filter_infos-lookups : (is : List ℕ) → filter_infos infos is ≡ unwrap (lookups infos is)
  unfolding filter_infos lookups
  filter_infos-lookups [] = refl
  filter_infos-lookups (i ∷ rest) = ground (arith, filter_infos-lookups rest)

  slice_invoke_signed-eq-ok :
      (c : Invocation) (w w' : World)
      → slice_invoke_signed rt c w ≡ ok (tt, w')
      → (accounts : Accounts) × (rt.invoke c w.accounts ≡ ok accounts)
        × (w' ≡ record { accounts = accounts; invoked = w.invoked ++ (c ∷ []) })
  unfolding slice_invoke_signed
  slice_invoke_signed-eq-ok c w w' h = go (rt.invoke c w.accounts) refl h
    where
      go :
          (r : Result Accounts)
          → rt.invoke c w.accounts ≡ r
          → elim r as (λ _. Result (Unit {0} × World)) [
            | ok accounts ↦ ok (tt, record { accounts = accounts; invoked = w.invoked ++ (c ∷ []) })
            | err e ↦ err e
            | panic ↦ panic
          ]
            ≡ ok (tt, w')
          → (accounts : Accounts) × (rt.invoke c w.accounts ≡ ok accounts)
            × (w' ≡ record { accounts = accounts; invoked = w.invoked ++ (c ∷ []) })
      go (ok accounts) e k = (accounts, e, sym (ap (λ q. q.1) (ok-injective _ _ k)))
      go (err x) e k = cc
      go panic e k = cc

  invoke_instruction-eq-ok :
      (i : CompiledInstruction) (w w' : World)
      → invoke_instruction rt metas infos seeds i w ≡ ok (tt, w')
      → (c : Invocation) × (accounts : Accounts) × IsCallOf i c
        × (rt.invoke c w.accounts ≡ ok accounts)
        × (w' ≡ record { accounts = accounts; invoked = w.invoked ++ (c ∷ []) })
  unfolding invoke_instruction
  invoke_instruction-eq-ok i w w' e =
      let (found, e1, k1) =
        bind-lift-eq-ok (collect metas i.accounts_indices (replicate 64 false) [] []) _ w e in
      let (passed, e2, k2) = bind-lift-eq-ok (filter_infos infos found.1) _ w k1 in
      let (program, e3, k3) = bind-lift-eq-ok (index infos i.program_id_index) _ w k2 in
      let (_, e4, k4) = bind-lift-eq-ok (assert (not (bytes_eq program.key rt.id))) _ w k3 in
      let (granted, narrow, once) = collect-eq-ok metas i.accounts_indices found e1 in
      let (accounts, invoked, same) = slice_invoke_signed-eq-ok _ w w' k4 in
      (
        record {
          instruction = record { program_id = program.key; input = i.input; accounts = found.0 };
          account_infos = passed;
          signer_seeds = seeds;
        },
        accounts,
        record {
          program = program;
          named = unwrap-eq-ok _ e3;
          foreign = λ h. ground (arith, assert-eq-ok _ e4, bytes_eq_iff program.key rt.id);
          account_metas = found.0;
          granted = granted;
          narrow = narrow;
          account_infos = passed;
          passed =
              ap (lookups infos) (sym once)
              ∙ unwrap-eq-ok _ (sym (filter_infos-lookups found.1) ∙ e2);
          call = refl;
        },
        invoked,
        same,
      )

  invoke_instruction-ok :
      (i : CompiledInstruction) (c : Invocation) (accounts : Accounts) (w : World)
      → IsCallOf i c
      → rt.invoke c w.accounts ≡ ok accounts
      → invoke_instruction rt metas infos seeds i w
        ≡ ok (tt, record { accounts = accounts; invoked = w.invoked ++ (c ∷ []) })
  unfolding invoke_instruction slice_invoke_signed
  invoke_instruction-ok i c accounts w x h =
      let other : bytes_eq x.program.key rt.id ≡ false =
        ground (arith, x.foreign, bytes_eq_iff x.program.key rt.id) in
      let collected : collect metas i.accounts_indices (replicate 64 false) [] []
          ≡ ok (x.account_metas, first_occurrences [] i.accounts_indices) =
        ground (arith, collect_lem metas i.accounts_indices, x.granted, x.narrow) in
      let filtered : filter_infos infos (first_occurrences [] i.accounts_indices)
          ≡ ok x.account_infos =
        filter_infos-lookups (first_occurrences [] i.accounts_indices) ∙ ap unwrap x.passed in
      bind-lift-ok (collect metas i.accounts_indices (replicate 64 false) [] []) _ w collected
      ∙ bind-lift-ok (filter_infos infos (first_occurrences [] i.accounts_indices)) _ w filtered
      ∙ bind-lift-ok (index infos i.program_id_index) _ w (ap unwrap x.named)
      ∙ bind-lift-ok (assert (not (bytes_eq x.program.key rt.id))) _ w
          (ap (λ q. assert (not q)) other)
      ∙ ap (λ q. slice_invoke_signed rt q w) (sym x.call)
      ∙ rw (slice_invoke_signed, h) refl

  invoke_instructions-Runs :
      (is : List CompiledInstruction) (w w' : World)
      → invoke_instructions rt metas infos seeds is w ≡ ok (tt, w')
      → Runs is w w'
  unfolding invoke_instructions
  invoke_instructions-Runs [] w w' e =
      subst (λ q. Runs [] w q) (ap (λ q. q.1) (ok-injective _ _ e)) (done w)
  invoke_instructions-Runs (i ∷ rest) w w' e =
      let (_, v, e1, k1) =
        bind-eq-ok (invoke_instruction rt metas infos seeds i)
          (λ _. invoke_instructions rt metas infos seeds rest) w e in
      let (c, accounts, called, invoked, same) = invoke_instruction-eq-ok i w v e1 in
      call i rest c accounts w w' called invoked
        (subst (λ q. Runs rest q w') same (invoke_instructions-Runs rest v w' k1))

  Runs-invoke_instructions :
      (is : List CompiledInstruction) (w w' : World)
      → Runs is w w'
      → invoke_instructions rt metas infos seeds is w ≡ ok (tt, w')
  unfolding invoke_instructions
  Runs-invoke_instructions _ _ _ (done w) = refl
  Runs-invoke_instructions _ _ _ (call i rest c accounts w w' called invoked runs) =
      bind-ok (invoke_instruction rt metas infos seeds i) _ w
        (invoke_instruction-ok i c accounts w called invoked)
      ∙ Runs-invoke_instructions rest _ w' runs

  -- The loop succeeds exactly with the runs that make one call for each instruction, in order,
  -- each of a program that is not this one, with the metas and the distinct accounts at the
  -- instruction's indices and the seeds given, and each from the accounts that the one before
  -- left.
  pub invoke_instructions_exact :
      (is : List CompiledInstruction) (w w' : World)
      → (invoke_instructions rt metas infos seeds is w ≡ ok (tt, w')) ↔ Runs is w w'
  invoke_instructions_exact is w w' =
      (invoke_instructions-Runs is w w', Runs-invoke_instructions is w w')
