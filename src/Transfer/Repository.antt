-- ===== src/Transfer/Repository.antt =====
-- flex/db/asset_transfer_intents.py: the repository of transfer intents.
--
-- The collection has a unique index on `id`, so it is a function from IDs to documents. Between two
-- calls other workers may write: `others` lists what they do, one entry before each call. A race of
-- two upserts, which MongoDB reports as a duplicate key, ends with the document of the first, as
-- does an upsert that comes second.
pub mod Writes
pub mod Silent
use cometa_backend.Base.{
  ℕ, ◌+◌, Bool, false, ◌&&◌, not, Option, none, some, List, [], ◌∷◌, take, ◌==◌, if◌then◌else◌,
}
use cometa_backend.Base.Exec.{Result, ok, err, Exec, ◌>>=◌}
use cometa_backend.Base.Text.{Text, text_eq}
use cometa_backend.Base.Value.{Value}
use cometa_backend.Uint64.{require_algorand_uint64}
use cometa_backend.Transfer.Model.{
  submitted, confirmed, is_confirmed, TransferError, persistence, AssetTransferIntent,
  PreparedAssetTransfer,
}

abbrev pub Store : Type 0
Store = Text → Option AssetTransferIntent

-- A broadcast that left the process.
pub record Broadcast : Type 0 where
  pub operation_id : Text
  pub transfer : PreparedAssetTransfer

pub record World : Type 0 where
  pub store : Store
  pub others : List (Store → Store)
  pub sent : List Broadcast

abbrev pub Action : Type 0 → Type 0
Action A = Exec World TransferError A

-- The other workers act.
abbrev pub acted : List (Store → Store) → World → World
acted [] w = w
acted (f ∷ fs) w = record w { store = f w.store; others = fs }

abbrev pub interfere : World → World
interfere w = acted w.others w

-- One call of the database.
abbrev pub call : {A : Type 0} → (Store → Result TransferError A × Store) → Action A
call f w = let w' = interfere w in let (r, s) = f w'.store in (r, record w' { store = s })

abbrev pub put : Text → AssetTransferIntent → Store → Store
put id i s = λ k. if text_eq id k then some i else s k

pub find_intent : Text → Store → Result TransferError (Option AssetTransferIntent) × Store
find_intent id s = (ok (s id), s)

pub upsert : AssetTransferIntent → Store → Result TransferError AssetTransferIntent × Store
upsert i s = elim (s i.id) [ some j ↦ (ok j, s) | none ↦ (ok i, put i.id i s) ]

-- the filter of every update: the transaction is the one named, and is not confirmed
abbrev pub non_terminal : Text → AssetTransferIntent → Bool
non_terminal txid i = text_eq i.txid txid && not (is_confirmed i.status)

-- `find_one_and_update`, the document after
pub find_and_update :
    Text
    → Text
    → (AssetTransferIntent → AssetTransferIntent)
    → Store
    → Result TransferError (Option AssetTransferIntent) × Store
find_and_update id txid update s = elim (s id) [
  | none ↦ (ok none, s)
  | some i ↦
      if non_terminal txid i then (ok (some (update i)), put id (update i) s) else (ok none, s)
]

-- `get`
unfoldable pub get : Text → Action (Option AssetTransferIntent)
unfolding find_intent
get id = call (find_intent id)

-- `reserve`
unfoldable pub reserve : AssetTransferIntent → Action AssetTransferIntent
unfolding upsert
reserve i = call (upsert i)

-- the end of `_update_non_terminal`: another worker's confirmation of the same transaction stands
already_confirmed : Text → Option AssetTransferIntent → Result TransferError AssetTransferIntent
already_confirmed txid none = err persistence
already_confirmed txid (some i) =
    if text_eq i.txid txid && is_confirmed i.status then ok i else err persistence

settle_update : Text → Text → Option AssetTransferIntent → Action AssetTransferIntent
unfolding already_confirmed
settle_update id txid (some i) w = (ok i, w)
settle_update id txid none w = call (λ s. (already_confirmed txid (s id), s)) w

unfoldable pub update_non_terminal :
    Text → Text → (AssetTransferIntent → AssetTransferIntent) → Action AssetTransferIntent
unfolding find_and_update settle_update
update_non_terminal id txid update = do
  found ← call (find_and_update id txid update)
  settle_update id txid found

abbrev pub with_attempt : AssetTransferIntent → AssetTransferIntent
with_attempt i = record i { attempt_count = i.attempt_count + 1 }

abbrev pub with_submission : AssetTransferIntent → AssetTransferIntent
with_submission i = record i { status = submitted; last_error = none }

abbrev pub with_confirmation : ℕ → AssetTransferIntent → AssetTransferIntent
with_confirmation r i = record i { status = confirmed; confirmed_round = some r; last_error = none }

abbrev pub with_error : Text → AssetTransferIntent → AssetTransferIntent
with_error e i = record i { last_error = some (take 500 e) }

unfoldable pub record_attempt : Text → Text → Action AssetTransferIntent
unfolding update_non_terminal
record_attempt id txid = update_non_terminal id txid with_attempt

unfoldable pub mark_submitted : Text → Text → Action AssetTransferIntent
unfolding update_non_terminal
mark_submitted id txid = update_non_terminal id txid with_submission

unfoldable pub record_error : Text → Text → Text → Action AssetTransferIntent
unfolding update_non_terminal
record_error id txid error = update_non_terminal id txid (with_error error)

has_round : ℕ → Option ℕ → Bool
has_round r none = false
has_round r (some c) = c == r

-- the end of `mark_confirmed`: the same confirmation of another worker stands
pub same_confirmation :
    Text → ℕ → Option AssetTransferIntent → Result TransferError AssetTransferIntent
unfolding has_round
same_confirmation txid r none = err persistence
same_confirmation txid r (some i) =
    if text_eq i.txid txid && (is_confirmed i.status && has_round r i.confirmed_round)
    then ok i
    else err persistence

pub settle_confirmation : Text → Text → ℕ → Option AssetTransferIntent → Action AssetTransferIntent
unfolding same_confirmation
settle_confirmation id txid r (some i) w = (ok i, w)
settle_confirmation id txid r none w = call (λ s. (same_confirmation txid r (s id), s)) w

pub confirm_round : Text → Text → Option ℕ → Action AssetTransferIntent
unfolding find_and_update settle_confirmation
confirm_round id txid none w = (err persistence, w)
confirm_round id txid (some r) w =
    (do
      found ← call (find_and_update id txid (with_confirmation r))
      settle_confirmation id txid r found)
      w

unfoldable pub mark_confirmed : Text → Text → Value → Action AssetTransferIntent
unfolding confirm_round
mark_confirmed id txid round = confirm_round id txid (require_algorand_uint64 round false)
