-- ===== src/Lottery/Tests.antt =====
-- The lottery on a small database: a draw of before the migration, a paid one, and a prize to pay.
use cometa_backend.Base.Rely.{Behaves, Run}
use cometa_backend.Base.Text.{text_eq, Text, text}
use cometa_backend.Base.{ℕ, All, ◌≡◌, refl, none, some, [], ◌∷◌, List, Option, true, false}
use cometa_backend.Base.Exec.{ok, err}
use cometa_backend.Base.Shared.{World}
use cometa_backend.Lottery.Staker.{Stake}
use cometa_backend.Lottery.Swap.{SwapInfo, SwapLottery, SwapDraw}
use cometa_backend.Lottery.Serve.{
  swapped, serve-requests-Agree, worker-Extends, serve-LaterOption, Call, staking, payouts, serve,
  worker,
}
use cometa_backend.Lottery.Index.{ensure_lottery_indexes}
use cometa_backend.Lottery.Index.Guard.{ensure_lottery_indexes-Run}
use cometa_backend.Lottery.Index.Steps.{IsProtected}
use cometa_backend.Lottery.Staking.{get_or_create_staking_draw}
use cometa_backend.Lottery.Staking.Record.{get_or_create_staking_draw-Run, IsGivenOption}
use cometa_backend.Lottery.Payout.Safety.{send_all_prizes-Run}
use cometa_backend.Lottery.Agree.{Agree}
use cometa_backend.Lottery.Model.{
  update_document, LotteryPayoutStatus, absent, null, value, known, all_strings, Draw, Db,
  is_protected, is_lottery_draw_id_index, duplicate_lottery_draw_ids,
}
use cometa_backend.Lottery.Backfill.{migrate}
use cometa_backend.Transfer.Model.{byte_length}
use cometa_backend.Uint64.{require_algorand_uint64}
use cometa_backend.Lottery.Later.{LaterOption}
use cometa_backend.Lottery.Entitlement.{staking_entitlement_id}
use cometa_backend.Lottery.Keeps.{Extends-refl, shared, Extends, IsValid}
use cometa_backend.Lottery.Payout.{TransferService, send_all_prizes}

abbrev digest : Text → Text
digest t = t

abbrev newest : List Draw → Option Text
newest [] = none
newest (d ∷ ds) = some d.document_id

-- A service that confirms every transfer in round 7.
abbrev confirming : TransferService
confirming r = ok (record {
  operation_id = r.operation_id;
  txid = text "tx";
  confirmed_round = 7;
  already_confirmed = false;
})

-- A service that cannot be reached.
abbrev silent : TransferService
silent r = err (text "timeout")

abbrev old_draw : Draw
old_draw = record {
  document_id = text "a1";
  id = absent;
  wallet = text "ALICE";
  prize = some 11;
  timestamp = some 1000;
  lottery_name = some (text "gold");
  claimed = absent;
  send_error = none;
  payout_operation_id = absent;
  payout_txid = none;
  confirmed_round = none;
  payout_status = absent;
  entitlement_id = none;
  entitlement_generation = none;
}

abbrev new_draw : Draw
new_draw = record old_draw {
  document_id = text "a2";
  id = value (text "d2");
  wallet = text "BOB";
  prize = some 12;
  claimed = value false;
  payout_operation_id = null;
  payout_status = value (known LotteryPayoutStatus.pending);
}

abbrev sample : Db
sample = record {
  draws = old_draw ∷ new_draw ∷ [];
  indexes = record {
    id_nonempty_unique = none;
    id_unique = some (record { on_id = true; unique = true; filter = all_strings });
  };
  entitlements = λ k. none;
  requests = [];
}

abbrev start : World Db
start = record { db = sample; others = (λ d. d) ∷ worker digest newest (payouts silent) ∷ [] }

abbrev alone : World Db
alone = record { db = sample; others = [] }

sample-IsValid : IsValid sample
unfolding is_protected is_lottery_draw_id_index duplicate_lottery_draw_ids
sample-IsValid = record { distinct = λ h. refl; backed = tt }

abbrev buy : SwapInfo
buy = record {
  wallet = text "DAVE";
  asset1_id = 1;
  asset1_amount = 50;
  asset2_id = 2;
  asset2_amount = 70;
}

abbrev silver : SwapLottery
silver = record {
  name = text "silver";
  asset_id = 2;
  pool_id = none;
  min_amount = 60;
  max_amount = none;
  only_for_buy = true;
}

abbrev one_draw : ℕ → SwapDraw
one_draw n = record { prize = some 14; id = text "s1"; timestamp = 2000; document_id = text "a4" }

abbrev stake : Stake
stake = record {
  address = text "CAROL";
  amount = some 500;
  lotteries =
      record { name = text "gold"; min_amount = 100; probability = 1; available_nfts = 13 ∷ [] }
      ∷ [];
  now = 100000;
  ids = text "i1" ∷ text "i2" ∷ [];
  document_id = text "a3";
  loses = false;
  random = λ n. 0;
  holds = λ n a. true;
}

abbrev calls : List Call
calls =
    staking stake ∷ swapped buy one_draw (silver ∷ []) ∷ payouts silent ∷ payouts confirming ∷ []

-- The other worker of `start` keeps to the rules.
start-Behaves : Behaves shared start
start-Behaves = ((λ d. Extends-refl d), (worker-Extends digest newest (payouts silent), tt))

-- A run that is alone pays the new draw and leaves the old one for reconciliation.
pays_one : elim (send_all_prizes digest confirming alone).0 [ ok s ↦ s.sent_count | err e ↦ 99 ] ≡ 1
unfolding send_all_prizes text_eq update_document migrate byte_length require_algorand_uint64
pays_one = refl

send_all_prizes-Run_example :
    Run shared
      (λ x db. is_protected db.indexes ≡ true)
      start
      (send_all_prizes digest confirming start)
send_all_prizes-Run_example = send_all_prizes-Run digest confirming start start-Behaves

serve-requests-Agree_example :
    All
      (λ r. All (Agree r) (serve digest newest calls start).db.requests)
      (serve digest newest calls start).db.requests
serve-requests-Agree_example =
    serve-requests-Agree digest newest calls start start-Behaves sample-IsValid

abbrev carol : Text
carol = staking_entitlement_id digest (text "gold") (text "CAROL")

abbrev served_once : World Db
served_once = serve digest newest (staking stake ∷ []) alone

serve-LaterOption_example : LaterOption (served_once.db.entitlements carol) (
    (serve digest newest calls (record { db = served_once.db; others = [] })).db.entitlements carol)
serve-LaterOption_example =
    serve-LaterOption digest newest calls carol (record { db = served_once.db; others = [] }) tt

worker-Extends_example : Extends sample (worker digest newest (payouts confirming) sample)
worker-Extends_example = worker-Extends digest newest (payouts confirming) sample

get_or_create_staking_draw-Run_example :
    Run shared (IsGivenOption carol (text "gold") (text "CAROL")) start (
      get_or_create_staking_draw digest newest
        (text "gold")
        (text "CAROL")
        100000
        (text "i1" ∷ [])
        (some 13)
        (text "a3")
        start)
get_or_create_staking_draw-Run_example =
    get_or_create_staking_draw-Run digest newest (text "gold") (text "CAROL") 100000
      (text "i1" ∷ []) (some 13) (text "a3") start start-Behaves

ensure_lottery_indexes-Run_example :
    Run shared (λ x. IsProtected) start (ensure_lottery_indexes start)
ensure_lottery_indexes-Run_example = ensure_lottery_indexes-Run start start-Behaves
