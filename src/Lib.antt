-- ===== src/Lib.antt =====
-- Verification of the Cometa backend (Python): the parts of the service that move money or order
-- the projection of Algorand blocks.
--
-- Base holds what every part shares: Boolean tests on numbers, lists, Python's integers (Base.Int),
-- texts as lists of code points (Base.Text), decimal numerals of a fixed width (Base.Digits), Python
-- values as `isinstance` sees them (Base.Value), calls that change state and may raise (Base.Exec),
-- a database that several workers share (Base.Shared), and the rules of what a worker relies on and
-- guarantees there (Base.Rely).
--
-- Uint64 is flex/domain/algorand.py, the check of an Algorand uint64 that the other parts call.
--
-- Transfer is the outbound asset transfers. Transfer.Model has the value objects of
-- flex/application/asset_transfers.py and the intent of flex/db/model/transfers.py;
-- Transfer.Repository is flex/db/asset_transfer_intents.py, one function for each method, and each
-- MongoDB call is one atomic write, before which other workers may write (the field `others` of a
-- World); Transfer.Service is the class AssetTransferService over an arbitrary gateway, the record
-- Gateway, whose answers are arguments. Every broadcast is logged in the World. Times that no code
-- reads are left out.
--
-- Sync is flex/db/sync_coordinator.py: the document `main` with the lease and the checkpoint, and
-- schedules of calls of any number of workers.
--
-- LpCursor is flex/domain/lp_projection.py: cursors of events and snapshots of a liquidity pool as
-- texts, and the balance that a transfer moves.
--
-- EventId is a part of flex/domain/transactions.py: IDs of events and their aliases.
--
-- LpStore is flex/db/lp_projection.py, over the models of flex/db/model/liquidity_pools.py: a Db holds
-- the states and the events of the two collections, each database call is one atomic step, and before
-- each of them another worker may write or the worker may end (the field `others` of a World). LpStore.Snapshot has
-- replace_snapshot, and LpStore.Event the construction of an LpTransaction. The documents are those of
-- the code's own models, so their fields parse.
--
-- LpBatch is a part of flex/data/lp_states.py: the check of a block's events before any write, and their
-- projection in order.
--
-- Allocation is flex/domain/allocation.py, the largest-remainder division of a budget.
--
-- Backoff is with_exponential_backoff of core/util.py, over the outcomes of the attempts.
--
-- Breaker is core/circuit_breaker.py: each method of a breaker runs under its lock, so tasks
-- interleave by whole methods, and a schedule is a list of method calls. Times are whole ticks.
--
-- Lottery is api/nft_lottery.py. A Db holds what its workers share: the draws in natural order, their
-- indexes, the entitlements by their ID, and the requests that were handed to the transfer service
-- (the log that stands for the service's effects). Each database call is one atomic step, before which
-- another worker may act (the field `others` of a Base.Shared.World). Lottery.Index is
-- ensure_lottery_indexes, Lottery.Backfill is _backfill_draw_id, Lottery.Entitlement the seed and the
-- status of an entitlement, Lottery.Staking the way from its claim to the draw, and Lottery.Payout is
-- send_all_prizes with send_nft of api/wallet.py. Lottery.Swap is lottery_for_swap, Lottery.Choice
-- has the choice of a staker's lottery and the draw of an NFT, and Lottery.Staker is
-- lottery_for_staking. Lottery.Protocol is the specification: the steps by
-- which an entitlement may move. The clock, fresh IDs, the drawn prize, the SHA-256 digest, the order
-- of draws by time and the answers of the transfer service are arguments. Times are whole seconds.
--
-- Not modelled: the look-ups before a staking draw and of an NFT's picture, the decoding of contract state, the loop over rounds, prices, the
-- airdrop tool and pool registration; the HTTP routes, the Telegram bot, price providers and pool registries, which mainly
-- call other services; logging; MongoDB and the Algorand SDK themselves.
--
-- The loop of LpStore's project takes one unit of fuel a round; more units than writes of other
-- workers are enough, since only such a write makes a round begin again. The
-- migration of a draw runs at most four rounds, as in the code. The claim of an entitlement takes one
-- fresh ID a round, from a list; a round follows only on a repair of the entitlement. The draw of an NFT
-- has a round for each NFT of the lottery. Every other loop
-- runs over data.
pub mod Base
pub mod Uint64
pub mod Transfer
pub mod Sync
pub mod LpCursor
pub mod Backoff
pub mod EventId
pub mod LpStore
pub mod LpBatch
pub mod Allocation
pub mod Breaker
pub mod Lottery
