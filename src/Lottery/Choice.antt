-- ===== src/Lottery/Choice.antt =====
-- The lottery that a staker plays, in `lottery_for_staking`, and the NFT that `draw_id` draws.
--
-- A probability is a double from 0 on, kept as the multiple of 2^-1074 that it is. `random.random`
-- arrives as the outcome of its test, and `random.choice` as arbitrary numbers, each taken modulo the
-- number of NFTs. The indexer's answer on an NFT may differ from round to round.
pub mod Best
pub mod Inventory
mod Tests
use cometa_backend.Base.{
  ℕ, zero, suc, ◌%◌, Bool, true, false, ◌&&◌, not, Option, none, some, List, [], ◌∷◌, length, leb,
  ltb, ◌==◌, if◌then◌else◌,
}
use cometa_backend.Base.Text.{Text}

-- The fields of a lottery that these parts read.
pub record NftLottery : Type 0 where
  pub name : Text
  pub min_amount : ℕ
  pub probability : ℕ
  pub available_nfts : List ℕ

abbrev pub has_nfts : NftLottery → Bool
has_nfts l = elim l.available_nfts [ [] ↦ false | x ∷ xs ↦ true ]

abbrev pub beats : NftLottery → Option NftLottery → Bool
beats c none = true
beats c (some l) = ltb l.probability c.probability

-- the better one of the lottery chosen so far and the next candidate
unfoldable pub better : ℕ → Option NftLottery → NftLottery → Option NftLottery
better stake best c =
    if has_nfts c && (leb c.min_amount stake && beats c best) then some c else best

-- the loop over the candidates
unfoldable pub choose_lottery : ℕ → Option NftLottery → List NftLottery → Option NftLottery
unfolding better
choose_lottery stake best [] = best
choose_lottery stake best (c ∷ cs) = choose_lottery stake (better stake best c) cs

-- the lotteries that the loop removes from the collection
unfoldable pub exhausted : List NftLottery → List NftLottery
exhausted [] = []
exhausted (c ∷ cs) = let rest = exhausted cs in if has_nfts c then rest else c ∷ rest

-- `xs[i]`, of a list that is not empty
abbrev pub nth : ℕ → ℕ → List ℕ → ℕ
nth i x [] = x
nth zero x (y ∷ ys) = x
nth (suc i) x (y ∷ ys) = nth i y ys

-- `xs.remove(a)`
abbrev pub remove : ℕ → List ℕ → List ℕ
remove a [] = []
remove a (x ∷ xs) = let rest = remove a xs in if x == a then xs else x ∷ rest

-- The outcome of a draw, with the NFTs that the lottery has left.
pub record Drawn : Type 0 where
  pub prize : Option ℕ
  pub available_nfts : List ℕ

-- the loop of `draw_id`, where `none` says that the rounds given were too few
draw_round : ℕ → (ℕ → ℕ) → (ℕ → ℕ → Bool) → List ℕ → Option Drawn
draw_round n random holds [] = some (record { prize = none; available_nfts = [] })
draw_round zero random holds (x ∷ xs) = none
draw_round (suc n) random holds (x ∷ xs) =
    let a = nth (random n % suc (length xs)) x xs in
    let rest = draw_round n random holds (remove a (x ∷ xs)) in
    if holds n a then some (record { prize = some a; available_nfts = x ∷ xs }) else rest

-- `draw_id`, with a round for each NFT
unfoldable pub draw_id : Bool → (ℕ → ℕ) → (ℕ → ℕ → Bool) → List ℕ → Option Drawn
unfolding draw_round
draw_id loses random holds available =
    if loses
    then some (record { prize = none; available_nfts = available })
    else draw_round (length available) random holds available
