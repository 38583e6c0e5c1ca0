-- ===== src/Lottery.antt =====
-- api/nft_lottery.py: the NFT lottery over a database that several workers share.
--
-- Model holds the documents and the collections, Index the index on draw IDs, Backfill the migration
-- of a draw, Protocol the steps of an entitlement, Entitlement and Staking the way to a staking draw,
-- Payout the payout of the prizes, Swap the swap lottery, Serve any number of calls, and Choice the
-- choice of a lottery and of an NFT.
pub mod Model
pub mod Protocol
pub mod Later
pub mod Keeps
pub mod Writes
pub mod Index
pub mod Backfill
pub mod Entitlement
pub mod Staking
pub mod Payout
pub mod Agree
pub mod Swap
pub mod Choice
pub mod Staker
pub mod Serve
mod Tests
