-- ===== src/Lib.antt =====
-- ZetaChain's programs on Solana, as state-passing models, with the theorems that make them correct.
--
-- The programs. `programs/gateway` holds SOL and tokens for ZetaChain. Users deposit (with or without
-- a call) or call; the TSS, a threshold signer known by an Ethereum address, signs messages that
-- withdraw, execute a call on a destination program or whitelist a mint, each under the next nonce; an
-- authority pauses deposits and sets the TSS, the authority and the nonce. `programs/universal_nft`
-- mints NFTs, locks them while they are on another chain, and mints or unlocks on messages that the
-- gateway passes to its `on_call`; one nonce, which only grows, guards all of these. The programs under
-- `programs/examples` are called by the gateway, one with SOL and one with tokens. An instruction loads
-- the accounts of a context, runs a handler, and writes back the accounts that it loaded.
--
-- The files, and what they model:
--   Prelude         Boolean tests, lists and byte strings over the native numbers
--   Solana/Result   the `Result` of an instruction, over its error codes, and its early returns
--   Solana/Account  accounts, instructions, token accounts, and `World`, the ledger
--   Solana/Runtime  the code that the programs call, as a record of functions
--   Solana/Laws     what is relied on of that code, as the record `RuntimeLaws` of hypotheses
--   Solana/Moves    lamport moves under those laws
-- Below `programs/gateway/src`:
--   Gateway/Errors, Gateway/State, Gateway/Contexts   errors.rs, state.rs and the records of contexts.rs
--   Gateway/Accounts   the constraints of contexts.rs: `try_x` is the check of the context `X`
--   Gateway/Utils      utils/: one function per file, and the constants
--   Gateway/Admin, Gateway/Deposit, Gateway/Withdraw, Gateway/Execute   instructions/: one function
--                      per handler, under its name (`increment_nonce` is `handle_increment_nonce`)
--   Gateway/Program    lib.rs: one function per entry point, over the whole state
--   Gateway/Requests   the instructions as data, `process` that dispatches them, and `run` over a list
--   Gateway/Tests      a runtime that keeps the laws, and runs of the model on it
-- `programs/universal_nft/src/lib.rs`:
--   UniversalNft/State, UniversalNft/Contexts   the accounts, messages, errors and contexts
--   UniversalNft/Accounts   the constraints: `try_x` is the check of the context `X`, `init_x` and
--                           `ensure_x` are `init` and `init_if_needed`
--   UniversalNft/Handlers   `initialize`, `mint_nft`, `transfer_to_zetachain`,
--                           `handle_cross_chain_call` and `unlock_nft`, under these names
--   UniversalNft/OnCall     `on_call`: `on_transfer` and `on_unlock` are the two branches of its match
--   UniversalNft/Program    the instructions as data, `process` and `run`; below it, one file per group
--                           of properties
--   UniversalNft/Runtime    what this program calls on top of the gateway, with its laws
--   UniversalNft/Ledger     token balances under those laws
--   UniversalNft/Tests      a runtime that keeps the laws, and the travels of two NFTs on it
-- `programs/examples`:
--   Connected       connected/src/lib.rs: `on_call` and `on_revert`; in Connected/Accounts the contexts, in
--                   Connected/Program the instructions, `trigger_deposit` among them, beside the gateway,
--                   and in Connected/Text the tests of the standard library on the message
--   ConnectedSpl    connectedSPL/src/lib.rs: the contexts, and `initialize`, `on_call` and `on_revert`
--
-- The state. `State` of Gateway/Contexts holds the account `Pda`, absent before `initialize`, the
-- whitelist entries that exist, by address, and the ledger; `Chain` of UniversalNft/State holds the
-- program's account, the info accounts by address, and the ledger. A handler takes the accounts that
-- its context loaded and returns them; what holds a string is stored only where it fits the space of its
-- account. An instruction that fails leaves the state as it was, and instructions run one after the other,
-- as on the chain.
--
-- Numbers. A `u64` is a number below 2 ^ 64; `+` and `-` on it are checked, since `Cargo.toml` sets
-- `overflow-checks`, `checked_add` fails above it, and `as u32` wraps. All loops are structural, so no
-- fuel is needed.
--
-- Parameters. Keccak, secp256k1 recovery, address derivation, lamport moves, the system, token,
-- associated-token and metadata programs, the Borsh codec of the NFT messages and cross-program
-- invocation are the fields of `Runtime` and `NftRuntime`. `RuntimeLaws` says of them that lamport
-- moves are checked against the balance, that a successful transfer moves what it says, and that a
-- callee changes only the accounts that it was given as writable; `NftLaws` adds that minting gives
-- what it says, that creating mints, metadata and other accounts moves no token, and that an associated
-- account has one owner and one mint. The bump that an account stores is the canonical one of its
-- address. A `String` is its bytes, and a public key is its 32 bytes.
--
-- Not modelled. Logging; rent exemption beyond what `create_account` may refuse; which of two violated
-- account constraints is reported; the test entry `upgraded`; the Go bindings in `go-idl`, the
-- TypeScript tests, scripts and migrations. What a program does that `trigger_deposit` is given in place of
-- the gateway's is a parameter.
pub mod Prelude
pub mod Solana
pub mod Gateway
pub mod Connected
pub mod ConnectedSpl
pub mod UniversalNft
