-- ===== src/Ledger/Rules.antt =====
-- What the Solana runtime promises about accounts, as the program relies on it.
use external_signature_progr.Base.{
  ℕ, ◌≡◌, ◌≢◌, ap, ◌∙◌, Bytes, Pubkey, All, IsByte, List, length, replicate,
}
use external_signature_progr.Errors.{ok}
use external_signature_progr.Runtime.{
  Runtime, AccountInfo, AccountState, Accounts, Invocation, Instructions, IntrospectedInstruction,
}
use external_signature_progr.Utils.Sha256.{hash}

-- An account keeps its owner and its data; its lamports may change.
pub record IsUntouched (s s' : AccountState) : Type 0 where
  pub owner : s'.owner ≡ s.owner
  pub bytes : s'.bytes ≡ s.bytes

pub IsUntouched-trans :
    (s s' s'' : AccountState) → IsUntouched s s' → IsUntouched s' s'' → IsUntouched s s''
IsUntouched-trans s s' s'' u v = record { owner = v.owner ∙ u.owner; bytes = v.bytes ∙ u.bytes }

pub IsUntouched-same : (s s' : AccountState) → s' ≡ s → IsUntouched s s'
IsUntouched-same s s' e = record {
  owner = ap (λ (t : AccountState). t.owner) e;
  bytes = ap (λ (t : AccountState). t.bytes) e;
}

abbrev pub IsZero : ℕ → Type 0
IsZero b = b ≡ 0

-- What programs other than `id` may do to an account: only an account's owner changes its data or
-- gives it away, and it gives it away with zeroed data.
pub record IsForeign (id : Pubkey) (s s' : AccountState) : Type 0 where
  pub kept : s.owner ≡ id → IsUntouched s s'
  pub handed : s.owner ≢ id → s'.owner ≡ id → All IsZero s'.bytes

-- The documented rules: a call of another program does what other programs may; a transfer moves
-- lamports; the system program allocates zeros and assigns the account it is asked to, and no
-- other.
pub record IsRuntime (rt : Runtime) : Type 0 where
  pub isolates :
      (call : Invocation) (a a' : Accounts)
      → call.instruction.program_id ≢ rt.id
      → rt.invoke call a ≡ ok a'
      → (k : Pubkey) → IsForeign rt.id (a k) (a' k)
  pub transfers :
      (from to : Pubkey) (lamports : ℕ) (a a' : Accounts)
      → rt.transfer from to lamports a ≡ ok a'
      → (k : Pubkey) → IsUntouched (a k) (a' k)
  pub allocates :
      (key : Pubkey) (space : ℕ) (seeds : List Bytes) (a a' : Accounts)
      → rt.allocate key space seeds a ≡ ok a'
      → ((a' key).owner ≡ (a key).owner)
        × ((a' key).bytes ≡ replicate space 0)
        × ((k : Pubkey) → key ≢ k → IsUntouched (a k) (a' k))
  pub assigns :
      (key owner : Pubkey) (seeds : List Bytes) (a a' : Accounts)
      → rt.assign key owner seeds a ≡ ok a'
      → ((a' key).owner ≡ owner)
        × ((a' key).bytes ≡ (a key).bytes)
        × ((k : Pubkey) → key ≢ k → IsUntouched (a k) (a' k))
  -- The instructions sysvar, and what stands behind it in memory, are bytes; a hash is 32 of them.
  pub sysvar_bytes :
      (info : AccountInfo) (instructions : Instructions) (i : ℕ) (ix : IntrospectedInstruction)
      → rt.instructions info ≡ ok instructions
      → instructions i ≡ ok ix
      → All IsByte ix.bytes × ((n : ℕ) → IsByte (ix.beyond n))
  pub hash_length : (bs : Bytes) → length (hash rt bs) ≡ 32
