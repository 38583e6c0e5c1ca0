-- ===== src/Transfer/Service.antt =====
-- flex/application/asset_transfers.py: the class `AssetTransferService`.
--
-- The gateway is the protocol `AssetTransferGateway`: its answers to one call of the service are a
-- record of functions, which may raise. Every broadcast is logged before it is answered, so one
-- whose answer is lost counts too.
pub mod Receipts
pub mod Safety
pub mod Replay
pub mod Reconcile
mod Tests
use cometa_backend.Base.{
  ℕ, Bool, true, false, ◌&&◌, not, Option, none, some, ◌∷◌, ◌++◌, leb, ltb, ◌==◌, if◌then◌else◌,
}
use cometa_backend.Base.Exec.{Result, ok, err, ◌>>=◌, ◌>>◌, pure, raise, lift, raise_if, or_raise}
use cometa_backend.Base.Text.{Text, text, text_eq}
use cometa_backend.Base.Value.{Value}
use cometa_backend.Uint64.{max_algorand_uint}
use cometa_backend.Transfer.Model.{
  TransferStatus, confirmed, is_confirmed, TransferError, conflict, pending, expired, missing_round,
  different_txid, unknown_transfer, disappeared, changed_transaction, invalid_window, type_name,
  AssetTransferIntent, AssetTransferRequest, PreparedAssetTransfer, AssetTransferReceipt,
  valid_window, new_intent,
}
use cometa_backend.Transfer.Repository.{
  Action, get, reserve, record_attempt, mark_submitted, mark_confirmed, record_error,
}

pub record Gateway : Type 0 where
  pub prepare : AssetTransferRequest → Result TransferError PreparedAssetTransfer
  pub broadcast : PreparedAssetTransfer → AssetTransferRequest → Result TransferError Text
  pub wait_for_confirmation : Text → Result TransferError Value
  pub lookup_confirmed_round : Text → Result TransferError (Option Value)
  pub current_round : Result TransferError ℕ

note_eq : Option Text → Option Text → Bool
note_eq none none = true
note_eq (some a) (some b) = text_eq a b
note_eq _ _ = false

-- `persisted == requested`
unfoldable pub same_transfer : AssetTransferIntent → AssetTransferRequest → Bool
unfolding note_eq
same_transfer i r =
    text_eq i.receiver r.receiver
    && (i.asset_id == r.asset_id && (i.amount_micros == r.amount_micros && note_eq i.note r.note))

abbrev pub assert_same_transfer : AssetTransferIntent → AssetTransferRequest → Action (Unit {0})
assert_same_transfer i r = raise_if (not (same_transfer i r)) (conflict r.operation_id)

-- `AssetTransferReceipt(...)`, whose `__post_init__` checks the round
pub receipt_at : AssetTransferIntent → Bool → Option ℕ → Result TransferError AssetTransferReceipt
receipt_at i already none = err missing_round
receipt_at i already (some r) =
    if leb r max_algorand_uint
    then ok (record {
      operation_id = i.id;
      txid = i.txid;
      confirmed_round = r;
      already_confirmed = already;
    })
    else err invalid_window

pub confirmed_receipt : AssetTransferIntent → Bool → Action AssetTransferReceipt
unfolding receipt_at
confirmed_receipt i already = lift (receipt_at i already i.confirmed_round)

-- `validate`
pub validate : AssetTransferRequest → Action (Unit {0})
validate request = do
  found ← get request.operation_id
  elim found [ none ↦ pure tt | some i ↦ assert_same_transfer i request ]

-- The persisted intent, or a new one around a freshly signed transaction.
obtain : Gateway → AssetTransferRequest → Option AssetTransferIntent → Action AssetTransferIntent
obtain g request (some i) = pure i
obtain g request none = do
  p ← lift (g.prepare request)
  raise_if (not (valid_window p.first_valid_round p.last_valid_round)) invalid_window
  reserve (new_intent request p)

-- After a write: a confirmation by another worker gives the receipt, otherwise go on.
abbrev pub unless_confirmed :
    AssetTransferIntent → Action AssetTransferReceipt → Action AssetTransferReceipt
unless_confirmed i rest = if is_confirmed i.status then confirmed_receipt i true else rest

abbrev pub lookup_failed : Text → Text
lookup_failed name = text "expired transaction lookup unavailable after " ++ name

abbrev pub expired_message : Text
expired_message =
    text "signed transaction expired before confirmation; manual reconciliation required"

abbrev pub unresolved : Text → Text
unresolved name = text "confirmation unresolved after " ++ name

-- the branch of `execute` past the transaction's last valid round
pub after_expiry :
    AssetTransferIntent → Result TransferError (Option Value) → Action AssetTransferReceipt
after_expiry i (err e) = do
  j ← record_error i.id i.txid (lookup_failed (type_name e))
  unless_confirmed j (raise (expired j.id j.txid))
after_expiry i (ok (some round)) = do j ← mark_confirmed i.id i.txid round; confirmed_receipt j true
after_expiry i (ok none) = do
  j ← record_error i.id i.txid expired_message
  unless_confirmed j (raise (expired j.id j.txid))

abbrev pub stored_transfer : AssetTransferIntent → PreparedAssetTransfer
stored_transfer i = record {
  signed_transaction = i.signed_transaction;
  txid = i.txid;
  first_valid_round = i.first_valid_round;
  last_valid_round = i.last_valid_round;
}

-- `gateway.broadcast`, logged
send : Gateway → AssetTransferIntent → AssetTransferRequest → Action Text
send g i request w = (
  g.broadcast (stored_transfer i) request,
  record w { sent = record { operation_id = i.id; transfer = stored_transfer i } ∷ w.sent },
)

-- The body of `try` around the broadcast; the intent that it ends with is the one of
-- `mark_submitted`, unless it raises before that.
submit : Gateway → AssetTransferRequest → AssetTransferIntent → Action AssetTransferIntent
unfolding send
submit g request i = do
  raise_if (not (valid_window i.first_valid_round i.last_valid_round)) invalid_window
  txid ← send g i request
  raise_if (not (text_eq txid i.txid)) different_txid
  mark_submitted i.id i.txid

-- `wait_for_confirmation` and what follows. The first argument is the broadcast's error.
pub await_confirmation :
    Option TransferError
    → Result TransferError Value
    → AssetTransferIntent
    → Action AssetTransferReceipt
await_confirmation failure (ok round) i = do
  j ← mark_confirmed i.id i.txid round
  confirmed_receipt j false
await_confirmation failure (err e) i = do
  j ← record_error i.id i.txid (unresolved (type_name (elim failure [ none ↦ e | some f ↦ f ])))
  unless_confirmed j (raise (pending j.id j.txid))

-- A confirmed intent after `mark_submitted` returns its receipt from inside the `try`; if that
-- raises, the exception counts as the broadcast's.
after_submit :
    Gateway
    → AssetTransferIntent
    → Result TransferError AssetTransferIntent
    → Action AssetTransferReceipt
after_submit g i (err e) w = await_confirmation (some e) (g.wait_for_confirmation i.txid) i w
after_submit g i (ok j) w =
    if is_confirmed j.status
    then elim (confirmed_receipt j true w).0 [
      | ok receipt ↦ (ok receipt, w)
      | err e ↦ await_confirmation (some e) (g.wait_for_confirmation j.txid) j w
    ]
    else await_confirmation none (g.wait_for_confirmation j.txid) j w

broadcast_and_wait :
    Gateway → AssetTransferRequest → AssetTransferIntent → Action AssetTransferReceipt
broadcast_and_wait g request i w = let (r, w') = submit g request i w in after_submit g i r w'

attempt : Gateway → AssetTransferRequest → AssetTransferIntent → Action AssetTransferReceipt
attempt g request i = do
  j ← record_attempt i.id i.txid
  unless_confirmed j (broadcast_and_wait g request j)

-- `execute` past the expiry test's round
at_round : Gateway → AssetTransferRequest → AssetTransferIntent → ℕ → Action AssetTransferReceipt
at_round g request i now =
    if ltb i.last_valid_round now
    then after_expiry i (g.lookup_confirmed_round i.txid)
    else attempt g request i

-- `execute` behind the check of the request
resume : Gateway → AssetTransferRequest → AssetTransferIntent → Action AssetTransferReceipt
resume g request i =
    if is_confirmed i.status
    then confirmed_receipt i true
    else lift g.current_round >>= at_round g request i

-- `execute` from the intent on
proceed : Gateway → AssetTransferRequest → AssetTransferIntent → Action AssetTransferReceipt
proceed g request i = do assert_same_transfer i request; resume g request i

pub execute : Gateway → AssetTransferRequest → Action AssetTransferReceipt
execute g request = do
  found ← get request.operation_id
  i ← obtain g request found
  proceed g request i

pub data ReconciledStatus : Type 0 where
  status_of : TransferStatus → ReconciledStatus
  expired_unconfirmed : ReconciledStatus

pub record TransferReconciliation : Type 0 where
  pub operation_id : Text
  pub txid : Text
  pub status : ReconciledStatus
  pub confirmed_round : Option ℕ

-- the reconciliation of a confirmed intent, by its receipt
pub reconcile_confirmed : AssetTransferIntent → Action TransferReconciliation
reconcile_confirmed i = do
  receipt ← confirmed_receipt i true
  pure (record {
    operation_id = receipt.operation_id;
    txid = receipt.txid;
    status = status_of confirmed;
    confirmed_round = some receipt.confirmed_round;
  })

-- `_reload_reconciliation_intent`
pub reload_intent : AssetTransferIntent → Action AssetTransferIntent
reload_intent i = do
  found ← get i.id
  current ← or_raise found (disappeared i.id)
  raise_if (not (text_eq current.txid i.txid)) (changed_transaction i.id)
  pure current

pub reconcile_unconfirmed :
    Gateway → AssetTransferIntent → Option Value → Action TransferReconciliation
reconcile_unconfirmed g i (some round) = do
  c ← mark_confirmed i.id i.txid round
  pure (record {
    operation_id = c.id;
    txid = c.txid;
    status = status_of confirmed;
    confirmed_round = c.confirmed_round;
  })
reconcile_unconfirmed g i none = do
  now ← lift g.current_round
  j ← reload_intent i
  if is_confirmed j.status
      then reconcile_confirmed j
      else pure (record {
        operation_id = j.id;
        txid = j.txid;
        status = if ltb j.last_valid_round now then expired_unconfirmed else status_of j.status;
        confirmed_round = none;
      })

pub reconcile : Gateway → Text → Action TransferReconciliation
reconcile g operation_id = do
  found ← get operation_id
  i ← or_raise found (unknown_transfer operation_id)
  if is_confirmed i.status
      then reconcile_confirmed i
      else do round ← lift (g.lookup_confirmed_round i.txid); reconcile_unconfirmed g i round
