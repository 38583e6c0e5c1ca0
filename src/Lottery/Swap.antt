-- ===== src/Lottery/Swap.antt =====
-- The swap lottery, `lottery_for_swap`. Amounts are doubles from 0 on, kept as the multiples of 2^-1074
-- that they are. What a draw takes from outside, the outcome of `draw_id` included, is a SwapDraw, one
-- for each draw that is made; the look-up of the NFT's picture is left out.
pub mod Draws
use cometa_backend.Base.{
  ℕ, ◌+◌, ◌*◌, Bool, true, false, ◌&&◌, ◌||◌, not, Option, none, some, List, [], ◌∷◌, leb, ◌==◌,
  if◌then◌else◌,
}
use cometa_backend.Base.Exec.{pure, ◌>>=◌, ◌>>◌}
use cometa_backend.Base.Shared.{call}
use cometa_backend.Base.Text.{Text}
use cometa_backend.Lottery.Model.{
  LotteryPayoutStatus, null, value, known, Draw, Lottery, insert_document,
}
use cometa_backend.Lottery.Index.{ensure_lottery_indexes}

pub record SwapInfo : Type 0 where
  pub wallet : Text
  pub asset1_id : ℕ
  pub asset1_amount : ℕ
  pub asset2_id : ℕ
  pub asset2_amount : ℕ

-- The fields of an NftLottery that a swap asks for.
pub record SwapLottery : Type 0 where
  pub name : Text
  pub asset_id : ℕ
  pub pool_id : Option ℕ
  pub min_amount : ℕ
  pub max_amount : Option ℕ
  pub only_for_buy : Bool

-- The outcome of `draw_id`, a fresh draw ID, the clock, and the `_id` of the document.
pub record SwapDraw : Type 0 where
  pub prize : Option ℕ
  pub id : Text
  pub timestamp : ℕ
  pub document_id : Text

abbrev pub is_eligible : SwapLottery → ℕ → ℕ → Bool
is_eligible l entity_id amount =
    (entity_id == l.asset_id || elim l.pool_id [ none ↦ false | some p ↦ entity_id == p ])
    && (leb l.min_amount amount && elim l.max_amount [ none ↦ true | some m ↦ leb amount m ])

abbrev pub swap_document : SwapLottery → Text → SwapDraw → Draw
swap_document l wallet x = record {
  document_id = x.document_id;
  id = value x.id;
  wallet = wallet;
  prize = x.prize;
  timestamp = some x.timestamp;
  lottery_name = some l.name;
  claimed = value false;
  send_error = none;
  payout_operation_id = null;
  payout_txid = none;
  confirmed_round = none;
  payout_status = value (known LotteryPayoutStatus.pending);
  entitlement_id = none;
  entitlement_generation = none;
}

-- `_create_draw`
create_draw : Draw → Lottery (Unit {0})
unfolding ensure_lottery_indexes insert_document
create_draw d = do ensure_lottery_indexes; call (insert_document d); pure tt

-- `draw_prize`
draw_prize : SwapLottery → Text → SwapDraw → Lottery (Option ℕ)
unfolding create_draw
draw_prize l wallet x = create_draw (swap_document l wallet x) >> pure x.prize

-- one of the two chances that a lottery gives a swap
try_draw : Bool → SwapLottery → Text → SwapDraw → Option ℕ → Lottery (Option ℕ)
unfolding draw_prize
try_draw chance l wallet x (some prize) = pure (some prize)
try_draw chance l wallet x none = if chance then draw_prize l wallet x else pure none

module _ (swap : SwapInfo) (draws : ℕ → SwapDraw) where
  -- the loop, from the draw of number `n` on
  swap_from : ℕ → Option ℕ → List SwapLottery → Lottery (Option ℕ)
  unfolding try_draw
  swap_from n prize [] = pure prize
  swap_from n prize (l ∷ ls) =
      try_draw (is_eligible l swap.asset2_id swap.asset2_amount) l swap.wallet (draws n) prize
      >>= (λ p.
          try_draw (not l.only_for_buy && is_eligible l swap.asset1_id swap.asset1_amount) l
            swap.wallet (draws (n + 1)) p
          >>= (λ q. swap_from (n + 2) q ls))

  unfoldable pub lottery_for_swap : List SwapLottery → Lottery (Option ℕ)
  unfolding swap_from
  lottery_for_swap lotteries = swap_from 0 none lotteries
