-- ===== src/Lottery/Staker.antt =====
-- `lottery_for_staking`: the lottery of a staker. The look-ups of the pool, of the user and of the
-- stake arrive as their outcome, and the look-up of the NFT's picture is left out.
pub mod Stakes
use cometa_backend.Base.{ℕ, Bool, Option, none, some, List}
use cometa_backend.Base.Exec.{pure, ◌>>=◌}
use cometa_backend.Base.Shared.{cases}
use cometa_backend.Base.Text.{Text}
use cometa_backend.Lottery.Model.{Draw, Lottery}
use cometa_backend.Lottery.Staking.{get_or_create_staking_draw}
use cometa_backend.Lottery.Choice.{NftLottery, Drawn, choose_lottery, draw_id}

-- A request with what it takes from outside: the stake, if the look-ups find one, the lotteries of
-- the pool, the clock, fresh IDs and the `_id` of a new document, and, for `draw_id`, what is random
-- and what the indexer answers.
pub record Stake : Type 0 where
  pub address : Text
  pub amount : Option ℕ
  pub lotteries : List NftLottery
  pub now : ℕ
  pub ids : List Text
  pub document_id : Text
  pub loses : Bool
  pub random : ℕ → ℕ
  pub holds : ℕ → ℕ → Bool

abbrev prize_of : Option Drawn → Option ℕ
prize_of none = none
prize_of (some out) = out.prize

abbrev drawn_prize : Option Draw → Option ℕ
drawn_prize none = none
drawn_prize (some d) = d.prize

module _ (digest : Text → Text) (newest : List Draw → Option Text) where
  -- the draw of the lottery chosen
  play : Stake → NftLottery → Lottery (Option ℕ)
  unfolding get_or_create_staking_draw draw_id
  play s l =
      get_or_create_staking_draw digest newest l.name s.address s.now s.ids
        (prize_of (draw_id s.loses s.random s.holds l.available_nfts)) s.document_id
      >>= (λ d. pure (drawn_prize d))

  unfoldable pub lottery_for_staking : Stake → Lottery (Option ℕ)
  unfolding play choose_lottery
  lottery_for_staking s =
      cases s.amount (pure none)
        (λ amount. cases (choose_lottery amount none s.lotteries) (pure none) (play s))
