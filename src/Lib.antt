-- ===== src/Lib.antt =====
-- External Signature Program: a Solana program whose accounts are controlled by WebAuthn passkeys
-- (P-256 keys) and by short-lived session keys.
--
-- The program has four instructions. A transaction names accounts and carries bytes; the first byte
-- chooses the handler (src/entrypoint.rs, Entrypoint). A handler parses its arguments with borsh,
-- loads a context from the account list, verifies that somebody authorized what it is about to do,
-- and then writes to the account's data or calls other programs.
--
--  - Instructions.Execute (src/instructions/execute_instructions.rs): runs compiled instructions that
--    a passkey signed. Instructions.Payload has the bytes that are signed, for all the handlers, and
--    Instructions.Invoke the loop of calls, which the sessioned handler repeats.
--  - Instructions.ExecuteSessioned (src/instructions/execute_instructions_sessioned.rs): runs them
--    for the session key.
--  - Instructions.Initialize (src/instructions/initialize_external_account.rs): creates an account.
--  - Instructions.Refresh (src/instructions/refresh_session_key.rs): sets a new session key.
--  - State (src/state/externally_signed_account): schemes, session keys, execution accounts;
--    State.Account is the wrapper in account.rs, which keeps a pointer to the account's data and the
--    length that they had when it was loaded.
--  - State.P256Webauthn (src/state/p256_webauthn): the account data, their layout in bytes (Layout),
--    and the implementation of the trait (Scheme).
--  - State.Traits (src/state/externally_signed_account/traits.rs): the traits as records of their
--    operations, and the implementations that the program has. There is one of each, so the type
--    parameter of the wrapper and of the handlers is this scheme throughout.
--  - Utils.Nonce, Utils.SlotHashes (src/utils/nonce.rs, slothashes.rs): a nonce is a recent slot's
--    hash, named by its height modulo 1000.
--  - Utils.Precompiles (src/utils/precompiles.rs): what the secp256r1 precompile has verified.
--  - Utils.Signatures (src/utils/signatures): authenticator data and the clientDataJSON.
--  - Utils.SmallVec (src/utils/small_vec.rs): vectors behind one- and two-byte lengths.
--  - Utils.Instructions, Sha256, Checks, InitializeAccount: the files of src/utils with those names.
--  - Allocator (src/allocator.rs): the bump allocator, by the addresses that it hands out and the word
--    that it keeps at the heap's start; Allocator.DefaultHeap is about the heap of 32 KiB that the
--    runtime maps.
--  - Errors (src/errors.rs): error numbers, and results that succeed, fail or panic.
--
--  - Sdk (sdks/rust-sdk/src): the client. Builders has the four instructions (instructions/*.rs),
--    Compile the instructions that an execution carries (instructions/execute.rs), Pda the
--    addresses (pda.rs), Precompile the signature's instruction (instructions/precompile.rs). The
--    modules below them hold the SDK against the program: what Builders and Precompile write is
--    what the handlers and the parser read. Builders.Enrolled, Builders.Executed,
--    Builders.Refreshed and Builders.Live follow the four instructions from the SDK to the end of
--    their runs. They run on the accounts that the instruction names with the flags that it gives
--    them (Builders.Accounts), as in a transaction that gives no account more rights.
--    `legacy::Message::new`, openssl's numbers and the constants of the precompile crate are
--    parameters (Crates, Openssl, Secp256r1Program), with their documented behaviour in IsOpenssl
--    and IsSecp256r1Program. Sdk.Example is examples/basic_usage.rs.
--
--  - Ledger: the accounts of the program over many transactions, each of which runs one instruction
--    of the program. Ledger.Rules states what the Solana runtime documents: programs that are
--    called change neither the data nor the owner of the accounts of this one, an instruction
--    starts from bytes, and a created account is zeroed and owned by the program named. The modules
--    from Ledger.Enrolled to Ledger.Initialized follow one instruction, and Ledger.History,
--    Ledger.Assertions, Ledger.Evolution and Ledger.Origin any number of them.
--
-- Base, Borsh, Runtime and World carry the rest. Runtime is a record of what the program takes from
-- the Solana runtime, pinocchio and the base64 crate: program ids, SHA-256, the clock, derived
-- addresses, the transaction's instructions, the alignment of addresses, and calls of other programs
-- as functions on all accounts. Borsh is the borsh crate in the same way, with derived codecs built
-- from the crate's; Borsh.Laws states the documented format, and Borsh.Reference is an instance of
-- it. World is the state of a run: a function from keys to account states, and the calls made.
-- A failed or panicking instruction has no resulting state, since the runtime undoes its writes.
--
-- Numbers are natural numbers. Where the code adds or casts on machine integers the model writes the
-- wrap-around (% 2 ^ 64, % 256) or the checked operation; the release profile of the build wraps.
-- Bytes are numbers that the codecs keep below 256. Loops are recursion on lists, on the length read
-- from a vector's front or on the index the search starts at, so no fuel is needed. Reads through
-- raw pointers see what an explicit function says stands behind the data.
--
-- Not modelled: logging, the borrow counters of pinocchio, the code generation (codama, idl.json), the
-- TypeScript SDK, the example application and the tests.
pub mod Base
pub mod Errors
pub mod Runtime
pub mod Borsh
pub mod Allocator
pub mod World
pub mod State
pub mod Utils
pub mod Instructions
pub mod Ledger
pub mod Entrypoint
pub mod Sdk
pub mod Tests
