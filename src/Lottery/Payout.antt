-- ===== src/Lottery/Payout.antt =====
-- The payout of the prizes, `send_all_prizes`, over the transfer service of api/wallet.py. The
-- service's exceptions arrive by their message; the log and the times in the report are left out,
-- and so is the transaction in the report of a payout that failed after it was sent.
pub mod Prizes
pub mod Asked
pub mod Attempt
pub mod Safety
use cometa_backend.Base.{
  ℕ, ◌+◌, Bool, true, false, ◌&&◌, ◌||◌, not, Option, none, some, List, [], ◌∷◌, ◌++◌,
  if◌then◌else◌,
}
use cometa_backend.Base.Exec.{Result, ok, err, pure, raise, raise_if, lift, ◌>>=◌, ◌>>◌}
use cometa_backend.Base.Int.{pos}
use cometa_backend.Base.Shared.{call, cases, attempt}
use cometa_backend.Base.Text.{Text, text, text_eq}
use cometa_backend.Base.Value.{int}
use cometa_backend.Transfer.Model.{
  AssetTransferRequest, AssetTransferReceipt, RequestError, create_request,
}
use cometa_backend.Lottery.Model.{
  LotteryPayoutStatus, StakingEntitlementStatus, Field, absent, null, value, other, StatusText,
  known, LotteryError, transfer_failed, manual_reconciliation, foreign_operation, draw_changed,
  confirmation_changed, non_payable, Draw, Db, Lottery, payout_operation, find_all, find_document,
  update_document, read,
}
use cometa_backend.Lottery.Index.{ensure_lottery_indexes}
use cometa_backend.Lottery.Backfill.{
  LotteryDraw, status_eq, is_true, is_false, field_eq, backfill_draw_id,
}
use cometa_backend.Lottery.Entitlement.{is_outstanding, update_staking_entitlement_status}

-- The service of flex/application/transfer_runtime.py: a receipt, or the message of an exception.
abbrev pub TransferService : Type 0
TransferService = AssetTransferRequest → Result Text AssetTransferReceipt

-- One entry of the report.
pub record Info : Type 0 where
  pub wallet : Text
  pub prize : Option ℕ
  pub lottery : Option Text
  pub txid : Option Text
  pub already_claimed : Bool
  pub error : Option LotteryError

pub data Counted : Type 0 where
  as_sent as_error as_neither : Counted

pub record Report : Type 0 where
  pub info : Info
  pub counted : Counted

pub record Summary : Type 0 where
  pub sent_count : ℕ
  pub error_count : ℕ
  pub results : List Info

abbrev failed : Draw → LotteryError → Report
failed d e = record {
  info = record {
    wallet = d.wallet;
    prize = d.prize;
    lottery = d.lottery_name;
    txid = none;
    already_claimed = false;
    error = some e;
  };
  counted = as_error;
}

abbrev paid : Draw → Option Text → Bool → Counted → Report
paid d txid already counted = record {
  info = record {
    wallet = d.wallet;
    prize = d.prize;
    lottery = d.lottery_name;
    txid = txid;
    already_claimed = already;
    error = none;
  };
  counted = counted;
}

abbrev pub is_payable : StatusText → Bool
is_payable s =
    status_eq s (known LotteryPayoutStatus.pending)
    || (status_eq s (known LotteryPayoutStatus.prepared)
        || status_eq s (known LotteryPayoutStatus.unresolved))

abbrev pub is_payable_field : Field StatusText → Bool
is_payable_field (value s) = is_payable s
is_payable_field _ = false

-- `{"payout_operation_id": {"$in": [None, op]}}`, and the test of the code before it
abbrev pub is_free_for : Text → Field Text → Bool
is_free_for op absent = true
is_free_for op null = true
is_free_for op (value t) = text_eq t op
is_free_for op (other b n) = false

-- `{"payout_status": {"$ne": "reconciliation_required"}}`
abbrev pub needs_reconciliation : Field StatusText → Bool
needs_reconciliation s =
    field_eq status_eq s (value (known LotteryPayoutStatus.reconciliation_required))

abbrev pub is_reservable : Text → Draw → Bool
is_reservable op d =
    is_false d.claimed && (is_free_for op d.payout_operation_id && is_payable_field d.payout_status)

abbrev pub with_payout_reserved : Text → Draw → Draw
with_payout_reserved op d = record d {
  payout_operation_id = value op;
  payout_status = value (known LotteryPayoutStatus.prepared);
  send_error = none;
}

abbrev pub is_claimable : Text → Draw → Bool
is_claimable op d =
    is_false d.claimed
    && (field_eq text_eq d.payout_operation_id (value op)
        && not (needs_reconciliation d.payout_status))

abbrev pub with_payout_recorded : AssetTransferReceipt → Draw → Draw
with_payout_recorded r d = record d {
  claimed = value true;
  payout_operation_id = value r.operation_id;
  payout_txid = some r.txid;
  confirmed_round = some r.confirmed_round;
  payout_status = value (known LotteryPayoutStatus.confirmed);
  send_error = none;
}

abbrev pub with_failure : LotteryError → Draw → Draw
with_failure e d = record d {
  payout_status = value (known LotteryPayoutStatus.unresolved);
  send_error = some e;
}

abbrev pub with_send_error : LotteryError → Draw → Draw
with_send_error e d = record d { send_error = some e }

-- `value.get("claimed")` in a test
abbrev pub is_truthy : Field Bool → Bool
is_truthy (value b) = b
is_truthy (other b n) = b
is_truthy _ = false

-- the entitlement of a draw
pub mark_entitlement : Draw → StakingEntitlementStatus → Lottery (Unit {0})
unfolding update_staking_entitlement_status
mark_entitlement d s =
    update_staking_entitlement_status d.entitlement_id d.entitlement_generation d.id s

-- `api.wallet.send_nft`: one unit, under the operation ID made of the key; the request that is
-- handed to the service is kept in `requests`
pub request_sent :
    TransferService → AssetTransferRequest → Db → Result LotteryError AssetTransferReceipt × Db
request_sent service r db =
    let db' = record db { requests = r ∷ db.requests } in
    elim (service r) [ ok receipt ↦ (ok receipt, db') | err e ↦ (err (transfer_failed e), db') ]

pub send_request :
    TransferService → Result RequestError AssetTransferRequest → Lottery AssetTransferReceipt
unfolding request_sent
send_request service (err e) = raise (transfer_failed (text "InvalidAssetTransferError"))
send_request service (ok r) = call (request_sent service r)

unfoldable pub send_nft : TransferService → Text → ℕ → Text → Lottery AssetTransferReceipt
unfolding send_request create_request
send_nft service address nft_id idempotency_key =
    send_request service (
      create_request (text "nft:" ++ idempotency_key) address (int (pos nft_id)) (int (pos 1)) none)

-- a payout that found the document changed
taken_over : LotteryDraw → Option Draw → Lottery Report
unfolding mark_entitlement
taken_over draw current = cases current (raise draw_changed) (λ d.
    if is_true d.claimed
    then mark_entitlement d StakingEntitlementStatus.confirmed
      >> pure (paid draw.document d.payout_txid true as_neither)
    else raise draw_changed)

pub not_reserved : LotteryDraw → Lottery Report
unfolding taken_over
not_reserved draw =
    call (read (λ db. find_document draw.document.document_id db.draws)) >>= taken_over draw

-- the payout is confirmed, and the claim was recorded by another worker
abbrev pub is_claimed_by : AssetTransferReceipt → Draw → Bool
is_claimed_by r d =
    is_truthy d.claimed && elim d.payout_txid [ none ↦ false | some t ↦ text_eq t r.txid ]

claimed_elsewhere : LotteryDraw → AssetTransferReceipt → Option Draw → Lottery Report
unfolding mark_entitlement
claimed_elsewhere draw r current = cases current (raise confirmation_changed) (λ d.
    if is_claimed_by r d
    then mark_entitlement d StakingEntitlementStatus.confirmed
      >> pure (paid draw.document (some r.txid) true as_neither)
    else raise confirmation_changed)

not_recorded : LotteryDraw → AssetTransferReceipt → Lottery Report
unfolding claimed_elsewhere
not_recorded draw r =
    call (read (λ db. find_document draw.document.document_id db.draws))
    >>= claimed_elsewhere draw r

pub record_claim : LotteryDraw → AssetTransferReceipt → Lottery Report
unfolding mark_entitlement not_recorded
record_claim draw r =
    call (
      update_document draw.document.document_id (is_claimable r.operation_id)
        (with_payout_recorded r))
    >>= (λ claimed. cases claimed (not_recorded draw r) (λ d.
        mark_entitlement d StakingEntitlementStatus.confirmed
        >> pure (paid draw.document (some r.txid) false as_sent)))

module _ (service : TransferService) where
  send_prize : LotteryDraw → ℕ → Lottery Report
  unfolding send_nft record_claim
  send_prize draw prize =
      send_nft service draw.document.wallet prize (text "lottery:" ++ draw.id) >>= record_claim draw

  -- the body of the `try` of the loop
  pub pay_reserved : LotteryDraw → ℕ → Lottery Report
  unfolding send_prize not_reserved
  pay_reserved draw prize =
      let op = payout_operation draw.id in
      (do
        raise_if (not (is_free_for op draw.document.payout_operation_id)) foreign_operation
        prepared ←
            call (
              update_document draw.document.document_id (is_reservable op)
                (with_payout_reserved op))
        cases prepared (not_reserved draw) (λ d. send_prize draw prize))

-- the `except` of the loop: the payout may or may not have been made
unresolved_payout : LotteryDraw → LotteryError → Lottery (Option Report)
unfolding mark_entitlement
unresolved_payout draw e = do
  mark_entitlement draw.document StakingEntitlementStatus.unresolved
  call (
      update_document draw.document.document_id (is_claimable (payout_operation draw.id))
        (with_failure e))
  pure (some (failed draw.document e))

pub settled_payout : LotteryDraw → Result LotteryError Report → Lottery (Option Report)
unfolding unresolved_payout
settled_payout draw (ok report) = pure (some report)
settled_payout draw (err e) = unresolved_payout draw e

non_payable_error : StatusText → LotteryError
non_payable_error s =
    if status_eq s (known LotteryPayoutStatus.reconciliation_required)
    then manual_reconciliation
    else non_payable s

refuse_payout : LotteryDraw → Lottery (Option Report)
unfolding non_payable_error
refuse_payout draw = do
  let e = non_payable_error draw.payout_status
  call (
      update_document draw.document.document_id
        (λ d. is_false d.claimed && field_eq status_eq (value draw.payout_status) d.payout_status)
        (with_send_error e))
  pure (some (failed draw.document e))

malformed : Draw → LotteryError → Lottery (Option Report)
malformed d e = do
  call (update_document d.document_id (λ d. is_false d.claimed) (with_send_error e))
  pure (some (failed d e))

abbrev add_report : Option Report → Summary → Summary
add_report none s = s
add_report (some r) s = elim r.counted [
  | as_sent ↦ record s { sent_count = s.sent_count + 1; results = r.info ∷ s.results }
  | as_error ↦ record s { error_count = s.error_count + 1; results = r.info ∷ s.results }
  | as_neither ↦ record s { results = r.info ∷ s.results }
]

module _ (digest : Text → Text) (service : TransferService) where
  pay_prize : LotteryDraw → ℕ → Lottery (Option Report)
  unfolding pay_reserved settled_payout refuse_payout
  pay_prize draw prize =
      if is_payable draw.payout_status
      then attempt (pay_reserved service draw prize) >>= settled_payout draw
      else refuse_payout draw

  pay_draw : LotteryDraw → Lottery (Option Report)
  unfolding pay_prize
  pay_draw draw =
      if draw.claimed then pure none else cases draw.document.prize (pure none) (pay_prize draw)

  pay_migrated : Draw → Result LotteryError LotteryDraw → Lottery (Option Report)
  unfolding malformed pay_draw
  pay_migrated d (ok draw) = pay_draw draw
  pay_migrated d (err e) = malformed d e

  -- one round of the loop
  pay_document : Draw → Lottery (Option Report)
  unfolding pay_migrated backfill_draw_id
  pay_document d = attempt (backfill_draw_id digest d) >>= pay_migrated d

  pay_documents : List Draw → Lottery Summary
  unfolding pay_document
  pay_documents [] = pure (record { sent_count = 0; error_count = 0; results = [] })
  pay_documents (d ∷ ds) =
      pay_document d >>= (λ r. pay_documents ds >>= (λ s. pure (add_report r s)))

  unfoldable pub send_all_prizes : Lottery Summary
  unfolding pay_documents find_all ensure_lottery_indexes
  send_all_prizes = do
    ensure_lottery_indexes
    documents ← call (read (λ db. find_all is_outstanding db.draws db.draws))
    pay_documents documents
