-- ===== src/Transfer.antt =====
-- flex/application/asset_transfers.py, flex/db/asset_transfer_intents.py and
-- flex/db/model/transfers.py: idempotent outbound asset transfers.
--
-- Model holds the requests, the persisted intents and the errors; Repository the MongoDB repository,
-- one atomic write at a time; Service the application service over a gateway. The proofs stand in
-- Safety, Receipts and Conflicts.
pub mod Model
pub mod Request
pub mod Repository
pub mod Service
pub mod Keeps
pub mod Run
