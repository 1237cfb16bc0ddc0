-- ===== src/Utils/Instructions/Metas.antt =====
-- The privileges in the metas that instructions run with (src/utils/instructions.rs).
use external_signature_progr.Base.{
  ℕ, zero, suc, true, false, ◌≡◌, ◌≢◌, refl, arith, List, [], ◌∷◌, get_elem?, none, some, inl, inr,
  ◌⊎◌, bytes_eq_iff,
}
use external_signature_progr.Runtime.{AccountInfo, AccountMeta}
use external_signature_progr.State.{ExecutionAccount, SignerExecutionScheme, external_account}
use external_signature_progr.Utils.Instructions.{
  account_meta, create_instruction_execution_account_metas,
}

-- What a meta may say of the account that it stands for: its key; writable only if the account
-- was passed in so, and never for the external account that signs itself; signer exactly if the
-- account signed or is the execution account.
pub record IsMetaOf (e : ExecutionAccount) (scheme : SignerExecutionScheme) (a : AccountInfo)
    (m : AccountMeta) : Type 0 where
  pub same_key : m.pubkey ≡ a.key
  pub no_new_writable : m.is_writable ≡ true → a.is_writable ≡ true
  pub others_unchanged :
      a.key ≢ e.key → (m.is_writable ≡ a.is_writable) × (m.is_signer ≡ a.is_signer)
  pub signs : a.key ≡ e.key → m.is_signer ≡ true
  pub external_readonly : scheme ≡ external_account → a.key ≡ e.key → m.is_writable ≡ false

account_meta-IsMetaOf :
    (e : ExecutionAccount) (scheme : SignerExecutionScheme) (a : AccountInfo)
    → IsMetaOf e scheme a (account_meta e scheme a)
unfolding account_meta
account_meta-IsMetaOf e scheme a = record {
  same_key = ground (arith, bytes_eq_iff a.key e.key);
  no_new_writable = λ h. ground (arith, bytes_eq_iff a.key e.key);
  others_unchanged = λ h. ground (arith, bytes_eq_iff a.key e.key);
  signs = λ h. ground (arith, bytes_eq_iff a.key e.key);
  external_readonly = λ h k. ground (arith, bytes_eq_iff a.key e.key);
}

-- Every account has one meta, at its own index, and an index past the accounts has none. A meta
-- has the account's key, is writable only if the account was passed in so and never for the
-- external account that signs itself, and signs exactly if the account signed or is the execution
-- account.
pub create_instruction_execution_account_metas-IsMetaOf :
    (accounts : List AccountInfo) (e : ExecutionAccount) (scheme : SignerExecutionScheme) (i : ℕ)
    → ((get_elem? accounts i ≡ none)
        × (get_elem? (create_instruction_execution_account_metas accounts e scheme) i ≡ none))
      ⊎ ((a : AccountInfo) × (m : AccountMeta) × (get_elem? accounts i ≡ some a)
          × (get_elem? (create_instruction_execution_account_metas accounts e scheme) i ≡ some m)
          × IsMetaOf e scheme a m)
unfolding create_instruction_execution_account_metas
create_instruction_execution_account_metas-IsMetaOf [] e scheme i = inl (refl, refl)
create_instruction_execution_account_metas-IsMetaOf (a ∷ rest) e scheme zero =
    inr (a, account_meta e scheme a, refl, refl, account_meta-IsMetaOf e scheme a)
create_instruction_execution_account_metas-IsMetaOf (a ∷ rest) e scheme (suc i) =
    create_instruction_execution_account_metas-IsMetaOf rest e scheme i
