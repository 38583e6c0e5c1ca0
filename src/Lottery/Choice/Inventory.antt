-- ===== src/Lottery/Choice/Inventory.antt =====
-- The draw of an NFT against the inventory.
use mathlib.Core.Path.{subst}
use cometa_backend.Base.{
  inl, inr, ap, Bool-cases, ◌∙◌, ◌%◌, sym, suc, zero, Option, false, ℕ, ◌≤◌, ◌<◌, ◌≡◌, refl, Bool,
  true, none, some, List, [], ◌∷◌, arith, length, ◌==◌, if◌then◌else◌,
}
use cometa_backend.Lottery.Choice.{draw_id, draw_round, nth, remove, Drawn}

some_inj : {a b : ℕ} → some a ≡ some b → a ≡ b
some_inj {a} {b} h = cc

not_both : {b : Bool} → b ≡ false → ¬ (b ≡ true)
not_both {b} h k = ground (arith, h, k)

-- How often an NFT is on a list.
unfoldable pub count : ℕ → List ℕ → ℕ
count a [] = 0
count a (x ∷ xs) = if x == a then suc (count a xs) else count a xs

count-nth : (i x : ℕ) (xs : List ℕ) → i < length (x ∷ xs) → 0 < count (nth i x xs) (x ∷ xs)
unfolding count
count-nth i x [] h = ground arith
count-nth zero x (y ∷ ys) h = ground arith
count-nth (suc i) x (y ∷ ys) h = ground (arith, count-nth i y ys (omega (arith, h)))

length-remove : (a : ℕ) (xs : List ℕ) → 0 < count a xs → suc (length (remove a xs)) ≡ length xs
unfolding count
length-remove a [] h = omega (arith, h)
length-remove a (x ∷ xs) h = ground (arith, length-remove a xs, h)

count-remove : (a b : ℕ) (xs : List ℕ) → count b (remove a xs) ≤ count b xs
unfolding count
count-remove a b [] = omega arith
count-remove a b (x ∷ xs) = ground (arith, count-remove a b xs)

count-remove_other : (a b : ℕ) (xs : List ℕ) → ¬ (a ≡ b) → count b (remove a xs) ≡ count b xs
unfolding count
count-remove_other a b [] other = refl
count-remove_other a b (x ∷ xs) other = ground (arith, count-remove_other a b xs other, other)

-- The prize `a` is what the random number of a round picks from the list that the draw leaves, and the
-- indexer's answer of that same round says that the wallet holds it. The round is numbered by the NFTs
-- that are on the list after `a`, fewer in every round.
abbrev pub PickedFrom : (ℕ → ℕ) → (ℕ → ℕ → Bool) → ℕ → List ℕ → Type 0
PickedFrom random holds a [] = ⊥
PickedFrom random holds a (x ∷ xs) =
    (a ≡ nth (random (length xs) % suc (length xs)) x xs) × (holds (length xs) a ≡ true)

-- What a draw may end with: a prize was on the list, and is picked from what is left of it and held in
-- the round that picks it; an NFT that was held in every round is still on the list as often as
-- before; a draw that is not lost at once ends without a prize only when nothing is left on the list.
pub record IsDrawn (loses : Bool) (random : ℕ → ℕ) (holds : ℕ → ℕ → Bool) (available : List ℕ)
    (out : Drawn) : Type 0 where
  pub won :
      (a : ℕ)
      → out.prize ≡ some a
      → (loses ≡ false) × (0 < count a available) × PickedFrom random holds a out.available_nfts
  pub kept : (a : ℕ) → ((n : ℕ) → holds n a ≡ true) → count a out.available_nfts ≡ count a available
  pub over : out.prize ≡ none → loses ≡ false → out.available_nfts ≡ []

abbrev pub EndsDrawn : Bool → (ℕ → ℕ) → (ℕ → ℕ → Bool) → List ℕ → Option Drawn → Type 0
EndsDrawn loses random holds available none = ⊥
EndsDrawn loses random holds available (some out) = IsDrawn loses random holds available out

-- An NFT that was not held goes, and the draw goes on.
IsDrawn-removed :
    (random : ℕ → ℕ) (holds : ℕ → ℕ → Bool) (n b : ℕ) (xs : List ℕ) (o : Option Drawn)
    → holds n b ≡ false
    → EndsDrawn false random holds (remove b xs) o
    → EndsDrawn false random holds xs o
IsDrawn-removed random holds n b xs none missing d = d
IsDrawn-removed random holds n b xs (some out) missing d = record {
  won = λ a h.
      let (live, listed, held) = d.won a h in
      (live, omega (arith, listed, count-remove b a xs), held);
  kept = λ a h.
      d.kept a h
      ∙ count-remove_other b a xs
          (λ e. absurd (not_both missing (subst (λ x. holds n x ≡ true) (sym e) (h n))));
  over = d.over;
}

draw_round-EndsDrawn :
    (n : ℕ) (random : ℕ → ℕ) (holds : ℕ → ℕ → Bool) (xs : List ℕ)
    → n ≡ length xs
    → EndsDrawn false random holds xs (draw_round n random holds xs)
unfolding draw_round
draw_round-EndsDrawn n random holds [] h = record {
  won = λ a e. cc;
  kept = λ a e. refl;
  over = λ e k. refl;
}
draw_round-EndsDrawn zero random holds (x ∷ xs) h = absurd (omega (arith, h))
draw_round-EndsDrawn (suc n) random holds (x ∷ xs) h =
    let i = random n % suc (length xs) in
    let a = nth i x xs in
    let listed : 0 < count a (x ∷ xs) = count-nth i x xs (omega arith) in
    let shorter : suc (length (remove a (x ∷ xs))) ≡ length (x ∷ xs) =
      length-remove a (x ∷ xs) listed in
    let last : n ≡ length xs = omega (arith, h) in
    elim (Bool-cases (holds n a)) [
      | inl held ↦ rw held (record {
        won = λ b e. (
          refl,
          subst (λ c. 0 < count c (x ∷ xs)) (some_inj e) listed,
          (
            sym (some_inj e) ∙ ap (λ m. nth (random m % suc (length xs)) x xs) last,
            subst (λ c. holds (length xs) c ≡ true) (some_inj e)
                (subst (λ m. holds m a ≡ true) last held),
          ),
        );
        kept = λ b e. refl;
        over = λ e k. cc;
      })
      | inr missing ↦ rw missing (
          IsDrawn-removed random holds n a (x ∷ xs) (draw_round n random holds (remove a (x ∷ xs)))
            missing
            (draw_round-EndsDrawn n random holds (remove a (x ∷ xs)) (omega (arith, shorter, h))))
    ]

-- Whatever is random and whatever the indexer answers, draw_id ends after at most one round for each
-- NFT: a prize was on the lottery's list, and is what the random number of the last round picks from
-- the list as it is left, held by the wallet by the indexer's answer of that same round; an NFT that is
-- held throughout is never removed from the list, and a draw that is not lost at once ends without a
-- prize only when the list is empty.
pub draw_id-EndsDrawn :
    (loses : Bool) (random : ℕ → ℕ) (holds : ℕ → ℕ → Bool) (available : List ℕ)
    → EndsDrawn loses random holds available (draw_id loses random holds available)
unfolding draw_id
draw_id-EndsDrawn true random holds available = record {
  won = λ a e. cc;
  kept = λ a e. refl;
  over = λ e k. cc;
}
draw_id-EndsDrawn false random holds available =
    draw_round-EndsDrawn (length available) random holds available refl
