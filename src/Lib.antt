-- ===== src/Lib.antt =====
-- Verification of the ZeroDAO node: the pallets of its social currency and reputation system, a
-- Substrate runtime in Rust.
--
-- The program. Accounts hold social currency in one pool account (pallets/tokens). Accounts trust
-- one another (pallets/trust), and rounds recompute the seeds and the reputations of all accounts
-- (pallets/reputation, pallets/seeds, pallets/refresh-seeds, pallets/refresh-reputation). A claimed
-- value can be disputed in a challenge game with stakes (pallets/challenges). The pallets see one
-- another through the traits of pallets/support; primitives holds the shared types.
--
-- The files. A pallet is a module of its name, with children named for what they hold or prove.
-- - Base: numbers, machine words, lists, storage maps, and lenses on a part of a storage. `StorageMap` and `DoubleMap` are association
--   lists; `get_or` with the default value is `ValueQuery`.
-- - Dispatch: the error enums, `DispatchError` and `Result` with `?` (`>>=`) and `ensure!`.
-- - External: what is used of code outside the repository, as records of operations with the
--   documented behaviour: Perbill, the underlying currency, ordered sets. Fixtures and Sorting have
--   concrete functions for them, by which the examples run.
-- - Support: the traits of pallets/support/src as records over a storage (Framed and Backed: what a
--   client asks of the games; Placed: a trait that is filled on a part of a storage).
-- - Primitives: primitives/src/lib.rs (Fee: the sweeper's fee; Metadata: the record of a game).
-- - Tokens: pallets/tokens/src/lib.rs (Calls: the dispatchable functions; Flow, Solvency and Laws:
--   what the operations move).
-- - Challenges: pallets/challenges/src/lib.rs (Methods: the trait's operations; Accounting, Payout,
--   Launch, Stages, Progressing, Timeout: what they do; Played: the games of another pallet, with the
--   callbacks on the whole storage).
-- - Reputation: pallets/reputation/src/lib.rs (Rounds: the states reached; Visible: the reputations
--   seen during an update).
-- - Seeds: pallets/seeds/src/lib.rs (Laws).
-- - Trust: pallets/trust/src/lib.rs (Frozen: the trust relation during an update; Paths: the paths
--   that pass reputation on).
-- - RefreshReputation: pallets/refresh-reputation/src/lib.rs (Uploads: the checks of uploaded paths;
--   Calls: the dispatchable functions; Payrolls, Billing and Sweeping: the funds; Scores: the
--   scores; Funds, Backing and Runs: what is owed beside what is staked).
-- - RefreshSeeds: pallets/refresh-seeds/src/lib.rs, functions.rs and types.rs (ScoreList and
--   ScoreLaws: the sorted scores; Orders and Hashes: the hash tree; PathData and Evidence: uploaded and missed paths;
--   Replies, Calls and Harvest: the dispatchable functions; Frame, Accounts, Answers, Restarts and
--   Disputes: what the disputing calls keep; Shares: what a finished game leaves;
--   Selection and Seating: who becomes a seed; Levels and
--   PathChecks: what uploads satisfy; Funds, Backing and Rounds: the claims on the staked funds;
--   Games and Composed: the pallet over that of the challenges). The encoding of accounts and sha1 are fields of its `Config`.
-- - Runtime: runtime/src/lib.rs, the pallets over one storage with the constants of the runtime
--   (Backing and Traces: the claims on the staked funds under all the calls; Progress: blocks and the
--   harvest of a pathfinder). The pallets of refresh take the whole storage for the world around them.
--
-- How the code is modelled. An operation takes the storage and returns `err`, or `ok` with the new
-- storage: under `#[transactional]` a call that fails changes nothing. Account and application
-- identifiers are numbers, which the code only compares. Balances are numbers below 2 ^ 128, and
-- checked, saturating and wrapping arithmetic is written out with its modulus (Base/Words). The
-- origin of a dispatchable function is the outcome of `ensure_signed` or `ensure_root`. A callback
-- takes the world of the caller and returns it with its result. Loops are recursions on lists.
-- Only the binary search takes fuel, one round more than the list is long; each round halves the
-- range. A Rust panic is an `err` too. A block number is a natural number; where 32 bits matter, that
-- it fits them is a hypothesis.
--
-- Not modelled: the rest of the runtime (its APIs, the executive, the pallets of Substrate); weights and benchmarks, genesis and node glue, the encoding of storage keys.
pub mod Base
pub mod Dispatch
pub mod External
pub mod Primitives
pub mod Support
pub mod Fixtures
pub mod Sorting
pub mod Tokens
pub mod Challenges
pub mod Reputation
pub mod Seeds
pub mod Trust
pub mod RefreshReputation
pub mod RefreshSeeds
pub mod Runtime
