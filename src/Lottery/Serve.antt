-- ===== src/Lottery/Serve.antt =====
-- Calls of the lottery after one another and beside one another: staking draws, swaps and payout
-- runs, of any number of workers.
use cometa_backend.Base.Text.{Text}
use cometa_backend.Base.{All, Option, ℕ, [], ◌∷◌, List}
use cometa_backend.Base.Shared.{World}
use cometa_backend.Base.Rely.{Behaves}
use cometa_backend.Lottery.Staker.{Stake, lottery_for_staking}
use cometa_backend.Lottery.Staker.Stakes.{lottery_for_staking-Run}
use cometa_backend.Lottery.Swap.{SwapInfo, SwapDraw, SwapLottery, lottery_for_swap}
use cometa_backend.Lottery.Swap.Draws.{lottery_for_swap-Run}
use cometa_backend.Lottery.Agree.{Agree, IsValid-Agree}
use cometa_backend.Lottery.Payout.Safety.{send_all_prizes-Run}
use cometa_backend.Lottery.Later.{Reach-LaterOption, LaterOption}
use cometa_backend.Lottery.Keeps.{Extends-trans, Extends-refl, IsValid, Extends, shared}
use cometa_backend.Lottery.Payout.{send_all_prizes, TransferService}
use cometa_backend.Lottery.Model.{Db, Draw}

-- A staking draw, a swap with what its draws take from outside, or a run of `send_all_prizes` over
-- what the transfer service answers meanwhile.
pub data Call : Type 0 where
  staking : Stake → Call
  swapped : SwapInfo → (ℕ → SwapDraw) → List SwapLottery → Call
  payouts : TransferService → Call

module _ (digest : Text → Text) (newest : List Draw → Option Text) where
  pub served : Call → World Db → World Db
  served (staking stake) w = (lottery_for_staking digest newest stake w).1
  served (swapped swap draws lotteries) w = (lottery_for_swap swap draws lotteries w).1
  served (payouts service) w = (send_all_prizes digest service w).1

  -- an exception of one call does not stop the next
  pub serve : List Call → World Db → World Db
  unfolding served
  serve [] w = w
  serve (c ∷ cs) w = serve cs (served c w)

  served-Extends :
      (c : Call) (w : World Db)
      → Behaves shared w
      → Behaves shared (served c w) × Extends w.db (served c w).db
  unfolding served
  served-Extends (staking stake) w b =
      let r = lottery_for_staking-Run digest newest stake w b in (r.others, r.reaches)
  served-Extends (swapped swap draws lotteries) w b =
      let r = lottery_for_swap-Run swap draws lotteries w b in (r.others, r.reaches)
  served-Extends (payouts service) w b =
      let r = send_all_prizes-Run digest service w b in (r.others, r.reaches)

  serve-Extends : (cs : List Call) (w : World Db) → Behaves shared w → Extends w.db (serve cs w).db
  unfolding serve
  serve-Extends [] w b = Extends-refl w.db
  serve-Extends (c ∷ cs) w b =
      let (later, x) = served-Extends c w b in
      Extends-trans w.db (served c w).db (serve cs (served c w)).db x
        (serve-Extends cs (served c w) later)

  -- However many staking draws, swaps and payout runs are called, and whatever other workers do
  -- meanwhile within the same rules: an entitlement stays that of its lottery and wallet, its generation never
  -- falls, every further generation moves its next eligible time by at least a day, and within one
  -- generation the draw keeps its ID and time, its prize once it is chosen, and its confirmation.
  pub serve-LaterOption :
      (cs : List Call) (key : Text) (w : World Db)
      → Behaves shared w
      → LaterOption (w.db.entitlements key) ((serve cs w).db.entitlements key)
  serve-LaterOption cs key w b = Reach-LaterOption ((serve-Extends cs w b).entitlements key)

  -- What another worker does to the database by a whole call.
  abbrev pub worker : Call → Db → Db
  worker c db = (served c (record { db = db; others = [] })).db

  -- A whole staking draw, swap or payout run of another worker is among what a call tolerates: it keeps
  -- every draw on record with what was paid, moves entitlements by steps of their protocol, never
  -- leaves the draws without a unique index once they have one, and keeps the database valid.
  pub worker-Extends : (c : Call) (db : Db) → Extends db (worker c db)
  worker-Extends c db = (served-Extends c (record { db = db; others = [] }) tt).1

  -- However many staking draws, swaps and payout runs are called on a valid database, and whatever
  -- other workers do meanwhile within the same rules: all payouts ever requested under one operation ID
  -- are of the same amount of the same prize to the same wallet.
  pub serve-requests-Agree :
      (cs : List Call) (w : World Db)
      → Behaves shared w
      → IsValid w.db
      → All (λ r. All (Agree r) (serve cs w).db.requests) (serve cs w).db.requests
  serve-requests-Agree cs w b v = IsValid-Agree (serve cs w).db ((serve-Extends cs w b).valid v)
