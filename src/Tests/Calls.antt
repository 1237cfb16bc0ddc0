-- ===== src/Tests/Calls.antt =====
-- The scenario's instruction, whose indices repeat one.
use external_signature_progr.Base.{
  ℕ, ap, get_or, Bytes, ◌≡◌, ◌⊎◌, refl, arith, List, [], ◌∷◌, replicate, false, true, none, some,
  get_elem?,
}
use external_signature_progr.Errors.{ok}
use external_signature_progr.Instructions.Invoke.{collect, invoke_instructions}
use external_signature_progr.Instructions.Invoke.Collect.{lookups, first_occurrences, collect_lem}
use external_signature_progr.Instructions.Invoke.Trace.{Runs, done, call, invoke_instructions_exact}
use external_signature_progr.Runtime.{AccountInfo, AccountMeta, Invocation}
use external_signature_progr.State.{ExecutionAccount, external_account}
use external_signature_progr.Tests.Scenario.{
  runtime, world, key_of, info, execution_infos, instruction, account_key,
}
use external_signature_progr.Utils.Instructions.{create_instruction_execution_account_metas}
use external_signature_progr.Utils.Instructions.Metas.{
  IsMetaOf, create_instruction_execution_account_metas-IsMetaOf,
}
use external_signature_progr.World.{World}

abbrev meta : ℕ → AccountMeta
meta n = record { pubkey = key_of n; is_writable = false; is_signer = false }

abbrev metas : List AccountMeta
metas = meta 12 ∷ meta 6 ∷ meta 5 ∷ meta 20 ∷ []

collect_lem_example :
    collect metas (1 ∷ 2 ∷ 1 ∷ []) (replicate 64 false) [] []
    ≡ ok (meta 6 ∷ meta 5 ∷ meta 6 ∷ [], 1 ∷ 2 ∷ [])
unfolding lookups first_occurrences
collect_lem_example = collect_lem metas (1 ∷ 2 ∷ 1 ∷ [])

abbrev invocation : Invocation
invocation = record {
  instruction = record {
    program_id = key_of 20;
    input = 42 ∷ [];
    accounts = meta 6 ∷ meta 5 ∷ meta 6 ∷ [];
  };
  account_infos = info (key_of 6) false true ∷ info account_key false true ∷ [];
  signer_seeds = [];
}

abbrev called : World
called = record world { invoked = invocation ∷ [] }

runs : Runs runtime metas execution_infos [] (instruction ∷ []) world called
unfolding lookups first_occurrences
runs =
    call instruction [] invocation world.accounts world called
      (record {
        program = info (key_of 20) false false;
        named = refl;
        foreign = λ e. omega (arith, ap (λ (k : Bytes). get_or k 0 0) e);
        account_metas = meta 6 ∷ meta 5 ∷ meta 6 ∷ [];
        granted = refl;
        narrow = refl;
        account_infos = info (key_of 6) false true ∷ info account_key false true ∷ [];
        passed = refl;
        call = refl;
      })
      refl (done called)

invoke_instructions_exact_example :
    invoke_instructions runtime metas execution_infos [] (instruction ∷ []) world ≡ ok (tt, called)
invoke_instructions_exact_example =
    (invoke_instructions_exact runtime metas execution_infos [] (instruction ∷ []) world called).1
      runs

abbrev signer : ExecutionAccount
signer = record { key = account_key; bump = 255; seeds = ([], []) }

create_instruction_execution_account_metas-IsMetaOf_example :
    ((get_elem? execution_infos 2 ≡ none)
      × (get_elem?
            (create_instruction_execution_account_metas execution_infos signer external_account)
            2
          ≡ none))
    ⊎ ((a : AccountInfo) × (m : AccountMeta) × (get_elem? execution_infos 2 ≡ some a)
        × (get_elem?
              (create_instruction_execution_account_metas execution_infos signer external_account)
              2
            ≡ some m)
        × IsMetaOf signer external_account a m)
create_instruction_execution_account_metas-IsMetaOf_example =
    create_instruction_execution_account_metas-IsMetaOf execution_infos signer external_account 2
