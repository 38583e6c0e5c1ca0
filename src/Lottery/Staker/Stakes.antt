-- ===== src/Lottery/Staker/Stakes.antt =====
-- The lottery of a staker, beside other workers.
use cometa_backend.Base.{Option, none, List}
use cometa_backend.Base.Exec.{pure}
use cometa_backend.Base.Shared.{World, cases}
use cometa_backend.Base.Rely.{Behaves, Run, Run-pure, Run-bind, Run-cases}
use cometa_backend.Base.Text.{Text}
use cometa_backend.Lottery.Model.{Draw, Db}
use cometa_backend.Lottery.Keeps.{shared}
use cometa_backend.Lottery.Staking.{get_or_create_staking_draw}
use cometa_backend.Lottery.Staking.Record.{get_or_create_staking_draw-Run}
use cometa_backend.Lottery.Choice.{NftLottery, choose_lottery, draw_id}
use cometa_backend.Lottery.Staker.{Stake, prize_of, drawn_prize, play, lottery_for_staking}

module _ (digest : Text → Text) (newest : List Draw → Option Text) where
  play-Run :
      (s : Stake) (l : NftLottery) (w : World Db)
      → Behaves shared w
      → Run shared (λ p db. Unit) w (play digest newest s l w)
  unfolding play
  play-Run s l w b =
      let prize = prize_of (draw_id s.loses s.random s.holds l.available_nfts) in
      Run-bind shared w
        (get_or_create_staking_draw digest newest l.name s.address s.now s.ids prize s.document_id)
        (λ d. pure (drawn_prize d))
        (get_or_create_staking_draw-Run digest newest l.name s.address s.now s.ids prize
          s.document_id w b)
        (λ d u c r q. Run-pure shared u (drawn_prize d) c tt)

  pub lottery_for_staking-Run :
      (s : Stake) (w : World Db)
      → Behaves shared w
      → Run shared (λ p db. Unit) w (lottery_for_staking digest newest s w)
  unfolding lottery_for_staking
  lottery_for_staking-Run s w b =
      Run-cases shared (λ o db. Unit) w s.amount (pure none)
        (λ amount.
          cases (choose_lottery amount none s.lotteries) (pure none) (play digest newest s))
        tt (λ n. Run-pure shared w none b tt)
        (λ amount p.
          Run-cases shared (λ o db. Unit) w (choose_lottery amount none s.lotteries) (pure none)
            (play digest newest s) tt (λ n. Run-pure shared w none b tt) (λ l q. play-Run s l w b))
