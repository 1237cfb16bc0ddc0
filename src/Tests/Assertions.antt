-- ===== src/Tests/Assertions.antt =====
-- A refresh and an execution of the scenario's account, one after the other.
use external_signature_progr.Base.{ℕ, zero, suc, ◌<◌, ◌≡◌, ◌⊎◌, refl, all_bytes}
use external_signature_progr.Borsh.Reference.{reference, reference-IsBorsh}
use external_signature_progr.Instructions.Execute.Authorized.{
  IsAuthorized, process_execute_instructions-IsAuthorized,
}
use external_signature_progr.Instructions.Refresh.Authorized
use external_signature_progr.Instructions.Refresh.Authorized.{
  process_refresh_session_key-IsAuthorized,
}
use external_signature_progr.Ledger.Assertions.{executed, refreshed, approvals_count_up}
use external_signature_progr.Ledger.History.{now}
use external_signature_progr.Ledger.Rules.{IsRuntime}
use external_signature_progr.Runtime.{Runtime}
use external_signature_progr.Tests.Handlers.{execute_infos, refresh_run, next_execute_run}
use external_signature_progr.Tests.Ledgers.{runtime_with-IsRuntime, stored-IsEnrolled}
use external_signature_progr.Tests.Scenario.{
  runtime_with, world, stored, program_id, account_key, external_info, account_infos, refresh_input,
  execute_input,
}

-- The first transaction has the counter 5, the others 6.
abbrev runtime_at : ℕ → Runtime
runtime_at zero = runtime_with 5
runtime_at (suc n) = runtime_with 6

runtime_at-IsRuntime : (n : ℕ) → IsRuntime (runtime_at n)
unfolding all_bytes
runtime_at-IsRuntime zero = runtime_with-IsRuntime 5 refl
runtime_at-IsRuntime (suc n) = runtime_with-IsRuntime 6 refl

same_id : (n : ℕ) → (runtime_at n).id ≡ program_id
same_id zero = refl
same_id (suc n) = refl

refresh :
    Authorized.IsAuthorized
      (runtime_with 5)
      reference
      account_infos
      refresh_input
      world
      refresh_run.0
refresh =
    process_refresh_session_key-IsAuthorized (runtime_with 5) reference account_infos refresh_input
      world refresh_run.0 refresh_run.1

execution :
    IsAuthorized
      (runtime_with 6)
      reference
      execute_infos
      execute_input
      refresh_run.0
      next_execute_run.0
execution =
    process_execute_instructions-IsAuthorized (runtime_with 6) reference execute_infos execute_input
      refresh_run.0 next_execute_run.0 next_execute_run.1

approvals_count_up_example :
    (refresh.verified.assertion.counter < execution.verified.assertion.counter)
    ⊎ (execution.verified.assertion.counter ≡ 0)
approvals_count_up_example =
    approvals_count_up runtime_at reference program_id runtime_at-IsRuntime same_id
      reference-IsBorsh 0 1 account_key world refresh_run.0 refresh_run.0 next_execute_run.0
      refresh.verified.assertion.counter execution.verified.assertion.counter stored
      stored-IsEnrolled (refreshed external_info _ refresh_input world refresh_run.0 refl refresh)
      (now refresh_run.0.accounts)
      (executed external_info _ execute_input refresh_run.0 next_execute_run.0 refl execution)
