-- ===== src/Lib.antt =====
-- Solana Vault V2: the on-chain program programs/async_vault_v2 with its fee library
-- libs/vault_common.
--
-- A vault takes deposits of an asset and gives shares. Users open requests to deposit or redeem; the
-- assets of a pending deposit, and of an approved redemption, lie in an escrow account. The curator or
-- a fulfiller approves or rejects requests at the net asset value (NAV) that is published for a share,
-- in the order of the FIFO queues where a vault has them; the owner cancels or claims them. A vault may
-- split its shares into a senior and a junior tranche, between which a waterfall divides gains and
-- losses whenever a NAV is published. Configuration changes go through a timelock.
--
-- The files (source paths below programs/async_vault_v2/src unless another root is given):
--   Base, Error: results with bind, Rust's checked arithmetic, signed integers; error.rs and
--     libs/vault_common/src/error.rs.
--   Fee: FeeType of libs/vault_common/src/fee.rs, split_protocol_fee of utils.rs and
--     extensions/fee/processor.rs.
--   Pricing: calculate_shares and calculate_assets of utils.rs, the valuations of
--     instructions/update_nav.rs and instructions/approve_request.rs.
--   State: the accounts and guards of state/async_vault_v2.rs and state/request.rs.
--   Limits: the rolling limits of state/async_vault_v2.rs.
--   Runtime: accounts as a handler sees them (utils.rs), the token program as a record of operations
--     and laws, and two tables that meet the laws.
--   Tranche, Queue: the share mint of a request with its NAV and limits, the lanes of a tranche vault
--     (utils.rs, state/async_vault_v2.rs), and the queues of extensions/fifo_queues.
--   Extensions: the guards of the other vault extensions (extensions/*/processor.rs).
--   Requests: the handlers on a request, from instructions/create_deposit_request.rs to claim.rs, and
--     those of the queue extensions. Requests/Backing is the invariant of the escrow account,
--     Requests/Payout what an approval pays, Requests/Lifecycle in which state a request can be used.
--   Nav: instructions/update_nav.rs, the performance fee and the tranche waterfall.
--   Governance: instructions/update_vault.rs, the timelock, the pause and the hand-over.
--   Positions: PositionLedger of state/async_vault_v2.rs.
--   Venues: the registry of venues, a vault's approvals, and its positions
--     (instructions/*_venue*.rs), and withdrawals to an approved recipient
--     (instructions/withdraw_assets.rs). Venues/Backing is the invariant of all positions together,
--     with the calls of Setup/Assets on the secondary assets.
--   Setup: instructions/create_vault.rs, initialize_vault.rs, initialize_tranches.rs,
--     add_vault_asset.rs, remove_vault_asset.rs, *_protocol_fee_config.rs and set_operator.rs.
--   Instant: instructions/instant_deposit.rs and instant_redeem.rs, with the limits of a user
--     (state/async_vault_v2.rs) and extensions/instant_settlement.
--   Bytes, Tlv: byte slices; the extension storage of a vault and of a request (extensions/tlv.rs,
--     vault_extensions.rs, request_extensions.rs) and the bytes of each stored type.
--   Updates: the instructions that add an extension (extensions/*/instructions/initialize_*.rs),
--     change it at once (update_*.rs) or after the timelock (instructions/*_extension_update.rs and
--     *_fee_update.rs), on the bytes of the vault's account.
--   Strategy: the leaves, nodes and proofs of utils/merkle.rs, the managed call of
--     instructions/manage_vault_with_merkle_verification.rs, and the life of a policy
--     (instructions/*_strategy_policy*.rs).
--   Tests: concrete runs.
--
-- How the parts meet. Requests, Instant and Nav read and write one vault record (State) and price by
-- Pricing and Fee; Requests and Instant move tokens by Runtime/Token. What these handlers read from
-- the extension storage is the record of Extensions; Tlv and Updates are about the bytes behind it.
-- Strategy and Venues both let a manager spend the vault's manager window of Limits.
--
-- Modelling. A u8 to u128 is a native natural number, each checked operation takes the largest value of
-- its type, and the wrapping counters are written with `% 2 ^ 64`. An i64 is a signed integer with a
-- test of its range. A key is a number. A handler is a function from the accounts it reads to a result
-- with the accounts it leaves; a failed call changes nothing, as its transaction reverts. The loops
-- over the bytes of a region are recursive on fuel, which the model sets to the number of bytes: each
-- turn consumes four bytes or more. Tlv/Runs has the runs of the same loops as relations without fuel,
-- in the offsets of the source. All other recursion is on lists and counts. The
-- bound 2^64 on queue numbers is a hypothesis where it is used.
--
-- Parameters. The token program, derived addresses and the clock are not in the repository. The token
-- program is a record whose laws say that a transfer moves exactly its amount (the program refuses
-- mints with a transfer fee), and that minting and burning change one balance and the supply. Who may
-- mint is a record of its own (Setup/Mints). The hash of the strategy tree (SHA-256) is any function
-- from bytes to 32 bytes, and the venue's program any function on the token accounts. The start of an
-- extension region is a number. An untyped account is given by the views that its bytes have at the
-- offsets the program reads.
--
-- Not modelled: the borsh bytes of the accounts before their extension region, which the handlers take
-- decoded; the creation and closing of accounts and their rent, save for the accounts' first
-- contents; the checks that Anchor makes on addresses, signers and token accounts from their types
-- and seeds; events; the entry points of lib.rs, which only call the handlers; and everything outside
-- programs and libs: clients, the web application and the integration tests, which call the program.
pub mod Base
pub mod Error
pub mod Extensions
pub mod Fee
pub mod Governance
pub mod Limits
pub mod Nav
pub mod Positions
pub mod Pricing
pub mod Queue
pub mod Requests
pub mod Runtime
pub mod State
pub mod Tests
pub mod Tranche
pub mod Bytes
pub mod Tlv
pub mod Instant
pub mod Setup
pub mod Strategy
pub mod Venues
pub mod Updates
