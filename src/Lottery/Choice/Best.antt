-- ===== src/Lottery/Choice/Best.antt =====
-- The choice of a lottery against its description.
use mathlib.Core.Path.{subst}
use cometa_backend.Base.{
  ℕ, ◌≤◌, ◌<◌, ◌≡◌, refl, sym, ap, ◌⊎◌, inl, inr, true, false, ◌&&◌, Option, none, some, List, [],
  ◌∷◌, ◌++◌, arith, leb, All, Bool-cases,
}
use cometa_backend.Lottery.Choice.{NftLottery, has_nfts, beats, better, choose_lottery}

-- A lottery that the stake is enough for, with an NFT left.
abbrev pub IsOpen : ℕ → NftLottery → Type 0
IsOpen stake l = (has_nfts l ≡ true) × (l.min_amount ≤ stake)

abbrev pub IsBelow : ℕ → NftLottery → NftLottery → Type 0
IsBelow stake l c = IsOpen stake c → c.probability < l.probability

abbrev pub IsAtMost : ℕ → NftLottery → NftLottery → Type 0
IsAtMost stake l c = IsOpen stake c → c.probability ≤ l.probability

-- The first one among the open candidates of the greatest probability.
pub record IsBest (stake : ℕ) (cs : List NftLottery) (l : NftLottery) : Type 0 where
  pub before : List NftLottery
  pub after : List NftLottery
  pub split : cs ≡ before ++ l ∷ after
  pub is_open : IsOpen stake l
  pub above : All (IsBelow stake l) before
  pub at_least : All (IsAtMost stake l) after

abbrev pub IsChoice : ℕ → List NftLottery → Option NftLottery → Type 0
IsChoice stake cs none = All (λ c. ¬ IsOpen stake c) cs
IsChoice stake cs (some l) = IsBest stake cs l

-- What the loop finds behind `l`: nothing better, or the best of the rest.
After : ℕ → NftLottery → List NftLottery → Option NftLottery → Type 0
After stake l cs none = ⊥
After stake l cs (some m) =
    ((m ≡ l) × All (IsAtMost stake l) cs) ⊎ (IsBest stake cs m × (l.probability < m.probability))

loses_lem :
    (stake : ℕ) (c l : NftLottery)
    → (has_nfts c && (leb c.min_amount stake && beats c (some l))) ≡ false
    → IsAtMost stake l c
loses_lem stake c l h (nfts, enough) = ground (arith, h, nfts, enough)

wins_lem :
    (stake : ℕ) (c l : NftLottery)
    → (has_nfts c && (leb c.min_amount stake && beats c (some l))) ≡ true
    → IsOpen stake c × (l.probability < c.probability)
wins_lem stake c l h = (ground (arith, h), ground (arith, h))

IsBest-here :
    (stake : ℕ) (c : NftLottery) (cs : List NftLottery)
    → IsOpen stake c
    → All (IsAtMost stake c) cs
    → IsBest stake (c ∷ cs) c
IsBest-here stake c cs o h = record {
  before = [];
  after = cs;
  split = refl;
  is_open = o;
  above = tt;
  at_least = h;
}

IsBest-later :
    (stake : ℕ) (c m : NftLottery) (cs : List NftLottery)
    → IsBelow stake m c
    → IsBest stake cs m
    → IsBest stake (c ∷ cs) m
IsBest-later stake c m cs below b = record {
  before = c ∷ b.before;
  after = b.after;
  split = ap (λ xs. c ∷ xs) b.split;
  is_open = b.is_open;
  above = (below, b.above);
  at_least = b.at_least;
}

choose_lottery-After :
    (stake : ℕ) (l : NftLottery) (cs : List NftLottery)
    → After stake l cs (choose_lottery stake (some l) cs)
unfolding choose_lottery better After
choose_lottery-After stake l [] = inl (refl, tt)
choose_lottery-After stake l (c ∷ cs) =
    elim (Bool-cases (has_nfts c && (leb c.min_amount stake && beats c (some l)))) [
      | inl wins ↦
          let (o, above) = wins_lem stake c l wins in
          rw wins
            (after_win (choose_lottery stake (some c) cs) o above (choose_lottery-After stake c cs))
      | inr loses ↦ rw loses (
          after_loss (choose_lottery stake (some l) cs) (loses_lem stake c l loses)
            (choose_lottery-After stake l cs))
    ]
  where
    after_win :
        (o : Option NftLottery)
        → IsOpen stake c
        → l.probability < c.probability
        → After stake c cs o
        → After stake l (c ∷ cs) o
    after_win none open_c above h = elim h [ ]
    after_win (some m) open_c above (inl (same, h)) = inr (
      subst (λ (x : NftLottery). IsBest stake (c ∷ cs) x) (sym same)
          (IsBest-here stake c cs open_c h),
      rw same above,
    )
    after_win (some m) open_c above (inr (best, h)) =
        inr (IsBest-later stake c m cs (λ k. h) best, omega (arith, above, h))

    after_loss :
        (o : Option NftLottery) → IsAtMost stake l c → After stake l cs o → After stake l (c ∷ cs) o
    after_loss none most h = elim h [ ]
    after_loss (some m) most (inl (same, h)) = inl (same, (most, h))
    after_loss (some m) most (inr (best, h)) =
        inr (IsBest-later stake c m cs (λ k. omega (arith, most k, h)) best, h)

first-IsChoice :
    (stake : ℕ) (c : NftLottery) (cs : List NftLottery) (o : Option NftLottery)
    → IsOpen stake c
    → After stake c cs o
    → IsChoice stake (c ∷ cs) o
unfolding After
first-IsChoice stake c cs none open_c h = elim h [ ]
first-IsChoice stake c cs (some m) open_c (inl (same, h)) =
    subst (λ (x : NftLottery). IsBest stake (c ∷ cs) x) (sym same) (IsBest-here stake c cs open_c h)
first-IsChoice stake c cs (some m) open_c (inr (best, h)) = IsBest-later stake c m cs (λ k. h) best

IsChoice-later :
    (stake : ℕ) (c : NftLottery) (cs : List NftLottery) (o : Option NftLottery)
    → ¬ IsOpen stake c
    → IsChoice stake cs o
    → IsChoice stake (c ∷ cs) o
IsChoice-later stake c cs none closed h = (closed, h)
IsChoice-later stake c cs (some m) closed h = IsBest-later stake c m cs (λ k. absurd (closed k)) h

closed_lem :
    (stake : ℕ) (c : NftLottery)
    → (has_nfts c && (leb c.min_amount stake && beats c none)) ≡ false
    → ¬ IsOpen stake c
closed_lem stake c h (nfts, enough) = ground (arith, h, nfts, enough)

-- The loop chooses the first one of the greatest probability among the candidates with an NFT left
-- whose least amount the stake reaches, and none exactly if there is no such candidate.
pub choose_lottery-IsChoice :
    (stake : ℕ) (cs : List NftLottery) → IsChoice stake cs (choose_lottery stake none cs)
unfolding choose_lottery better
choose_lottery-IsChoice stake [] = tt
choose_lottery-IsChoice stake (c ∷ cs) =
    elim (Bool-cases (has_nfts c && (leb c.min_amount stake && beats c none))) [
      | inl first ↦ rw first (
          first-IsChoice stake c cs (choose_lottery stake (some c) cs)
            (ground (arith, first), ground (arith, first)) (choose_lottery-After stake c cs))
      | inr closed ↦ rw closed (
          IsChoice-later stake c cs (choose_lottery stake none cs)
            (λ o. closed_lem stake c closed o) (choose_lottery-IsChoice stake cs))
    ]
