-- ===== src/Transfer/Service/Tests.antt =====
-- Runs of the transfer service at concrete inputs.
use cometa_backend.Base.{◌≡◌, refl, false, none, some, [], ◌∷◌, arith, All}
use cometa_backend.Base.Exec.{ok, err}
use cometa_backend.Base.Int.{pos}
use cometa_backend.Base.Text.{text, text_eq}
use cometa_backend.Base.Value.{int}
use cometa_backend.Uint64.{require_algorand_uint64}
use cometa_backend.Transfer.Model.{
  gateway_error, conflict, prepared, AssetTransferIntent, AssetTransferRequest,
  PreparedAssetTransfer, create_request, byte_length, bad_amount,
}
use cometa_backend.Transfer.Repository.{
  Store, World, get, reserve, record_attempt, mark_submitted, mark_confirmed, record_error,
}
use cometa_backend.Transfer.Run.{Run, Inv}
use cometa_backend.Transfer.Service.{
  Gateway, execute, obtain, proceed, resume, at_round, attempt, broadcast_and_wait, submit, send,
  after_submit, await_confirmation, confirmed_receipt, receipt_at, same_transfer, reconcile,
}
use cometa_backend.Transfer.Service.Receipts.{ReceiptFor}
use cometa_backend.Transfer.Service.Safety.{execute-Run}
use cometa_backend.Transfer.Service.Reconcile.{Names, reconcile-Run}
use cometa_backend.Transfer.Service.Replay.{
  worker, worker-Behaves, serve, serve-Agree, Agree, SameTransfer, execute-conflict,
}

abbrev payout : AssetTransferRequest
payout = record {
  operation_id = text "nft:1";
  receiver = text "R";
  asset_id = 7;
  amount_micros = 1;
  note = none;
}

abbrev signed : PreparedAssetTransfer
signed = record {
  signed_transaction = text "SIG";
  txid = text "TX";
  first_valid_round = 10;
  last_valid_round = 20;
}

-- The node loses the answer to the broadcast, and confirms in round 12.
abbrev lossy : Gateway
lossy = record {
  prepare = λ r. ok signed;
  broadcast = λ p r. err (gateway_error (text "TimeoutError"));
  wait_for_confirmation = λ txid. ok (int (pos 12));
  lookup_confirmed_round = λ txid. ok none;
  current_round = ok 11;
}

abbrev empty_store : Store
empty_store k = none

abbrev start : World
start = record { store = empty_store; others = []; sent = [] }

start-Inv : Inv start
start-Inv = record { keyed = λ k j e. cc; others = tt; backed = tt }

-- The lost answer does not matter: the persisted transaction is confirmed.
lossy_confirms :
    (execute lossy payout start).0
    ≡ ok (record {
      operation_id = text "nft:1";
      txid = text "TX";
      confirmed_round = 12;
      already_confirmed = false;
    })
unfolding execute obtain proceed resume at_round attempt broadcast_and_wait submit send after_submit
    await_confirmation confirmed_receipt receipt_at same_transfer get reserve record_attempt
    mark_submitted mark_confirmed record_error require_algorand_uint64 text_eq
lossy_confirms = refl

execute-Run_example : Run (ReceiptFor (text "nft:1")) start (execute lossy payout start)
execute-Run_example = execute-Run lossy payout start start-Inv

-- The world after the payment.
abbrev paid : World
paid = (execute lossy payout start).1

reconcile-Run_example :
    Run (Names (text "nft:1")) paid (reconcile lossy (text "nft:1") paid)
    × ((reconcile lossy (text "nft:1") paid).1.sent ≡ paid.sent)
reconcile-Run_example =
    reconcile-Run lossy (text "nft:1") paid (execute-Run lossy payout start start-Inv).inv

-- Another worker that pays the same prize races the call.
abbrev raced : World
raced = record start { others = worker lossy payout ∷ [] }

raced-Inv : Inv raced
raced-Inv = record { keyed = λ k j e. cc; others = (worker-Behaves lossy payout, tt); backed = tt }

serve-Agree_example :
    All
      (λ b. All (Agree b) (serve ((lossy, payout) ∷ (lossy, payout) ∷ []) raced).sent)
      (serve ((lossy, payout) ∷ (lossy, payout) ∷ []) raced).sent
serve-Agree_example = serve-Agree ((lossy, payout) ∷ (lossy, payout) ∷ []) raced raced-Inv

abbrev intent : AssetTransferIntent
intent = record {
  id = text "nft:1";
  receiver = text "R";
  asset_id = 7;
  amount_micros = 2;
  note = none;
  signed_transaction = text "SIG";
  txid = text "TX";
  first_valid_round = 10;
  last_valid_round = 20;
  status = prepared;
  attempt_count = 0;
  confirmed_round = none;
  last_error = none;
}

abbrev taken : World
taken = record start { store = λ k. some intent }

other_amount : ¬ SameTransfer intent payout
other_amount h = omega (arith, h.amount_micros)

execute-conflict_example : execute lossy payout taken ≡ (err (conflict (text "nft:1")), taken)
execute-conflict_example = execute-conflict lossy payout taken intent refl other_amount

zero_amount :
    create_request (text "nft:1") (text "R") (int (pos 7)) (int (pos 0)) none ≡ err bad_amount
unfolding create_request byte_length require_algorand_uint64
zero_amount = refl
