-- ===== src/Sdk/Builders/Accounts.antt =====
-- The accounts that the runtime passes to the program for the accounts that an instruction names
-- (sdks/rust-sdk/src/instructions), in a transaction that gives none of them more rights.
use external_signature_progr.Base.{Bool, true, false, Pubkey, List, [], ◌∷◌, map}
use external_signature_progr.Runtime.{Runtime, AccountInfo, AccountMeta}
use external_signature_progr.Sdk.Types.{Crates}
use external_signature_progr.Utils.SlotHashes.{slot_hashes_id}

abbrev pub account : Pubkey → Bool → Bool → AccountInfo
account key is_signer is_writable = record {
  key = key;
  is_signer = is_signer;
  is_writable = is_writable;
}

abbrev pub passed : List AccountMeta → List AccountInfo
passed = map (λ m. account m.pubkey m.is_signer m.is_writable)

-- The writable external account, the two sysvars and the nonce signer, who pays, in front of others.
abbrev pub signed_accounts : Crates → Pubkey → Pubkey → List AccountInfo → List AccountInfo
signed_accounts crates passkey_account nonce_signer others =
    account passkey_account false true
    ∷ account crates.instructions_sysvar_id false false
    ∷ account slot_hashes_id false false
    ∷ account nonce_signer true true
    ∷ others

-- The account to make, the rent payer, the two sysvars and the system program.
abbrev pub created_accounts : Runtime → Crates → Pubkey → Pubkey → List AccountInfo
created_accounts rt crates new payer =
    account new false true
    ∷ account payer true true
    ∷ account crates.instructions_sysvar_id false false
    ∷ account slot_hashes_id false false
    ∷ account rt.system_id false false
    ∷ []
