-- ===== src/Lib.antt =====
-- Verification of the Synergistic JUNO contracts: models of the token with vesting schedules, of the
-- curves that it is built on, of the controllers, the group, the distribution, the proposals with
-- their voting, the gauge and a vault, and what is proved of them.
--
-- The parts and the files that model them. Rust names are given as written there.
--
-- Base holds what the others share: Boolean tests on native numbers (Base/Tests), lists (Base/Lists),
-- results with errors and the rules that follow a `do` block step by step (Base/Results), checked
-- machine arithmetic (Base/Checked), storage maps (Base/Dict), reads of a map page by page
-- (Base/Pages) and strings with their order (Base/Text).
--
-- Curve is packages/syne-curve-utils/src/curve.rs: a curve is constant, saturating linear or piecewise
-- linear. Curve/Value has `value`, `size` and `range`, Curve/Validate the checks, Curve/Combine
-- `combine` and `combine_const`. Curve/Reference is an independent description of the value as a
-- recursion over the segments; Curve/Interpolate, Monotone, Bounded, Validation and Sum prove.
--
-- Vesting is contracts/cw20-vesting: the state is the record `State`, one field for each storage item
-- of src/state.rs. Vesting/Coins has `deduct_coins`, which every debit but a delegation goes through;
-- Allowances is src/allowances.rs; Transfers, Delegation, AllowList and Marketing hold the handlers of
-- src/contract.rs, and Execute their dispatch over the messages of packages/synedao/src/cw20_vesting.rs.
-- Creation has the message of `instantiate`, Creation/Accounts has `instantiate`, `create_accounts`
-- and `migrate`, Queries the reads. The other modules
-- prove: Ledger, Supply, Enforced, Schedules, Effects, Spendable, Vesters and Initial.
--
-- Controllers is packages/controllers: Admin, Hooks and Claims, which contracts embed. Group is
-- contracts/cw4-group, which uses Admin and Hooks. Distribution is contracts/distribution, whose
-- payouts are cw20 transfers.
--
-- Governance is contracts/syneswap_proposal and the voting that it uses: the counting of votes
-- (Voting), the thresholds (Thresholds), the status of proposals (Proposals) and the contract itself,
-- whose state is the record `State` of Governance/Contract, one field for each storage item, and whose
-- messages are in Governance/Contract/Handlers, functions named as in src/contract.rs. Ballots says
-- what a counted ballot is, Lifecycle what every message does to the status of a proposal, Runs and
-- Executed follow sequences of messages, and Locks follows the amounts that proposals lock.
--
-- Gauge is contracts/synergistic_wynd_gauge: Gauge/Counting has the tally of src/state.rs and its
-- sorted index (`update_tallies`, `remove_tally`), Selection `is_pending`, `is_expired` and
-- `selected_set`, Epochs `update_epoch` and `execute`, Options `instantiate`, `attach_gauge`,
-- `add_option` and `remove_option`, Administration `update_gauge` and `stop_gauge`, Placing the
-- difference of two votes of a voter, Votes `place_votes` and `member_changed`, Execute the dispatch
-- over the messages and Queries the reads. Index and Counted prove that the index lists the tally and
-- the total its sum, Consistent that every message keeps this, Winners compares `selected_set` with a
-- description that has no index, Progress and Runs follow epochs over sequences of messages, Moves and
-- Placed follow one placement of votes, and Executed one execution.
--
-- Vault is contracts/bloop-vault: Vault/Amounts has the bookkeeping (`update_total_rewards`,
-- `update_rewards`, `add_stake`, `remove_stake` and the two fees), Handlers the messages, each of which
-- is completed at once or noted until the rewards of the staking contract arrive. Owed and Solvent say
-- what the vault owes, Payments how the bookkeeping moves it, Messages and Idle that every message
-- stays within it, Kept and Frozen what is not written, and Runs follow sequences of messages. The
-- sequences of `Reaches` follow an action that waits by its rewards, because the converter answers in
-- the same transaction, and those of `Run` have any order; decimal numbers are a parameter whose documented laws are the record `FixedPoint`.
--
-- How code corresponds to definitions. A handler takes the block, the sender and the state and returns
-- the new state and the messages that it sends, or the error: the chain rolls back what a failed
-- transaction has written, so an error carries no state. Storage `update`, `save` and `remove` are
-- written out on the record. A function of the source keeps its name; a method carries its type's
-- name where two would clash (`saturating_validate`, `piecewise_validate`). A loop is a recursion over
-- its list, so no fuel is needed and every definition is total.
--
-- Bounds. The release profile sets overflow-checks, and `Uint128` panics by itself, so an operation
-- that leaves its width aborts: `none` for the curves and the votes, an error `aborted` for handlers.
-- Where a theorem says that a value is returned, its hypotheses name the products that have to fit.
--
-- Parameters. The validation of addresses, the text of an address and the expirations of cw_utils are
-- the record `Chain`; decimal numbers are the record `Decimals`. Validated addresses are only
-- compared, so they are numbers, and so are the names of a gauge's options, whose order is a
-- parameter. What other contracts answer to a query is a record of functions too (`Querier` for the
-- gauge, `Chain` for the proposals, `Outside` for the vault). The order in which a hash map is iterated
-- is a parameter of the gauge's `place_votes`. In a sequence of messages (`Run`, `Quiet`, `Reaches`)
-- each message has its own answers and its own order, so voting powers, epochs and rewards may change
-- from one message to the next. Where a creation is studied, validation is taken never to give one
-- address for two texts, as it returns the text that it was given.
--
-- Not modelled: response attributes, the version records of cw2, JSON and storage encodings, reads of
-- snapshots at past heights, the gauge's lists of votes and options, the queries of proposals, and the
-- contracts that are not named above. contracts/cw20-base and contracts/cw3-fixed-multisig are copies
-- of CosmWasm's own contracts.
pub mod Base
pub mod Curve
pub mod Vesting
pub mod Controllers
pub mod Group
pub mod Distribution
pub mod Governance
pub mod Gauge
pub mod Vault
