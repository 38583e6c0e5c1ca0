-- ===== src/Lottery/Swap/Draws.antt =====
-- The draws of a swap, beside other workers.
use cometa_backend.Base.{ℕ, ◌+◌, Bool, not, ◌&&◌, Option, none, some, List, [], ◌∷◌}
use cometa_backend.Base.Exec.{pure, ◌>>=◌, ◌>>◌}
use cometa_backend.Base.Shared.{World, call}
use cometa_backend.Base.Rely.{Behaves, Run, Run-pure, Run-bind, Run-then, Run-call, Run-if}
use cometa_backend.Base.Text.{Text}
use cometa_backend.Lottery.Model.{LotteryError, Draw, Db, insert_document}
use cometa_backend.Lottery.Keeps.{shared}
use cometa_backend.Lottery.Writes.{IsHeld, insert_document_lem}
use cometa_backend.Lottery.Index.{ensure_lottery_indexes}
use cometa_backend.Lottery.Index.Guard.{ensure_lottery_indexes-Run}
use cometa_backend.Lottery.Swap.{
  SwapInfo, SwapLottery, SwapDraw, is_eligible, swap_document, create_draw, draw_prize, try_draw,
  swap_from, lottery_for_swap,
}

create_draw-Run :
    (d : Draw) (w : World Db) → Behaves shared w → Run shared (λ x db. Unit) w (create_draw d w)
unfolding create_draw
create_draw-Run d w b =
    let done = pure {S = World Db} {E = LotteryError} (tt {0}) in
    Run-then shared w ensure_lottery_indexes (call (insert_document d) >> done)
      (ensure_lottery_indexes-Run w b)
      (λ u c r.
        Run-then shared u (call (insert_document d)) done
          (Run-call shared {Q = IsHeld} u (insert_document d) c (λ db x. insert_document_lem d db))
          (λ v c' r'. Run-pure shared v tt c' tt))

try_draw-Run :
    (chance : Bool) (l : SwapLottery) (wallet : Text) (x : SwapDraw) (o : Option ℕ) (w : World Db)
    → Behaves shared w
    → Run shared (λ p db. Unit) w (try_draw chance l wallet x o w)
unfolding try_draw draw_prize
try_draw-Run chance l wallet x (some prize) w b = Run-pure shared w (some prize) b tt
try_draw-Run chance l wallet x none w b =
    Run-if shared w chance (draw_prize l wallet x) (pure none)
      (λ taken.
        Run-then shared w (create_draw (swap_document l wallet x)) (pure x.prize)
          (create_draw-Run (swap_document l wallet x) w b)
          (λ u c r. Run-pure shared u x.prize c tt))
      (λ passed. Run-pure shared w none b tt)

module _ (swap : SwapInfo) (draws : ℕ → SwapDraw) where
  swap_from-Run :
      (n : ℕ) (prize : Option ℕ) (ls : List SwapLottery) (w : World Db)
      → Behaves shared w
      → Run shared (λ p db. Unit) w (swap_from swap draws n prize ls w)
  unfolding swap_from
  swap_from-Run n prize [] w b = Run-pure shared w prize b tt
  swap_from-Run n prize (l ∷ ls) w b =
      let buy = is_eligible l swap.asset2_id swap.asset2_amount in
      let sell = not l.only_for_buy && is_eligible l swap.asset1_id swap.asset1_amount in
      Run-bind shared w (try_draw buy l swap.wallet (draws n) prize)
        (λ p.
          try_draw sell l swap.wallet (draws (n + 1)) p
          >>= (λ q. swap_from swap draws (n + 2) q ls))
        (try_draw-Run buy l swap.wallet (draws n) prize w b)
        (λ p u c r x.
          Run-bind shared u (try_draw sell l swap.wallet (draws (n + 1)) p)
            (λ q. swap_from swap draws (n + 2) q ls)
            (try_draw-Run sell l swap.wallet (draws (n + 1)) p u c)
            (λ q v c' r' y. swap_from-Run (n + 2) q ls v c'))

  pub lottery_for_swap-Run :
      (ls : List SwapLottery) (w : World Db)
      → Behaves shared w
      → Run shared (λ p db. Unit) w (lottery_for_swap swap draws ls w)
  unfolding lottery_for_swap
  lottery_for_swap-Run ls w b = swap_from-Run 0 none ls w b
