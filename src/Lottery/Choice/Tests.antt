-- ===== src/Lottery/Choice/Tests.antt =====
-- The choice of a lottery and the draw of an NFT on small inputs.
use cometa_backend.Base.{ℕ, ◌≡◌, refl, Bool, false, none, some, [], ◌∷◌, ◌==◌}
use cometa_backend.Base.Text.{text}
use cometa_backend.Lottery.Choice.{NftLottery, choose_lottery, draw_id}
use cometa_backend.Lottery.Choice.Best.{IsChoice, choose_lottery-IsChoice}
use cometa_backend.Lottery.Choice.Inventory.{EndsDrawn, draw_id-EndsDrawn}

abbrev bronze : NftLottery
bronze = record { name = text "bronze"; min_amount = 10; probability = 5; available_nfts = 11 ∷ [] }

abbrev gold : NftLottery
gold = record {
  name = text "gold";
  min_amount = 100;
  probability = 9;
  available_nfts = 21 ∷ 22 ∷ [];
}

abbrev empty : NftLottery
empty = record { name = text "empty"; min_amount = 0; probability = 99; available_nfts = [] }

takes_gold : choose_lottery 100 none (bronze ∷ empty ∷ gold ∷ gold ∷ []) ≡ some gold
unfolding choose_lottery
takes_gold = refl

choose_lottery-IsChoice_example :
    IsChoice 100
      (bronze ∷ empty ∷ gold ∷ gold ∷ [])
      (choose_lottery 100 none (bronze ∷ empty ∷ gold ∷ gold ∷ []))
choose_lottery-IsChoice_example = choose_lottery-IsChoice 100 (bronze ∷ empty ∷ gold ∷ gold ∷ [])

-- The wallet holds NFT 22 alone.
abbrev holds_last : ℕ → ℕ → Bool
holds_last n a = a == 22

draw_id-EndsDrawn_example :
    EndsDrawn false
      (λ n. 0)
      holds_last
      (21 ∷ 22 ∷ [])
      (draw_id false (λ n. 0) holds_last (21 ∷ 22 ∷ []))
draw_id-EndsDrawn_example = draw_id-EndsDrawn false (λ n. 0) holds_last (21 ∷ 22 ∷ [])
