-- ===== src/LpStore/Moved.antt =====
-- flex/db/lp_projection.py: what an applied transfer does to the balances of a pool, told by the
-- transfer.
use mathlib.Core.Path.{subst}
use cometa_backend.Base.{
  ℕ, ◌+◌, ◌-◌, ◌<◌, ◌≤◌, ◌≡◌, refl, sym, ◌≢◌, ◌⊎◌, inl, inr, true, some, arith,
}
use cometa_backend.Base.Text.{Text}
use cometa_backend.Base.Exec.{ok}
use cometa_backend.Base.Int.{ℤ, pos, negsuc, pos_part, neg_part, neg, neg_parts}
use cometa_backend.Base.Value.{int}
use cometa_backend.Uint64.{max_algorand_uint}
use cometa_backend.LpCursor.{
  LpBalanceDelta, lp_balance_delta, asset1_reserve, asset2_reserve, total_tokens,
  operational_algo_balance,
}
use cometa_backend.LpStore.{LpState, LpTransaction, balance, in_bounds, with_delta}

-- The balance goes from `before` to `after` by a gain and a loss, one of them zero, and does not leave
-- the uint64s by a gain.
abbrev pub Goes : ℕ → ℕ → ℕ → ℕ → Type 0
Goes gain loss before after =
    (after + loss ≡ before + gain) × (0 < gain → after ≤ max_algorand_uint)

-- The state `r` is `s` after the transfer: LP tokens that come into the pool are no longer held
-- outside, and every other asset of the pool moves with the transfer. All else but the event's cursor
-- and round stays.
pub data IsMoved (t : LpTransaction) (order : Text) (s r : LpState) : Type 0 where
  lp_tokens :
      (v : ℕ)
      → t.asa_id ≡ s.token_id
      → Goes
          (neg_part t.delta_amount_micros)
          (pos_part t.delta_amount_micros)
          s.total_tokens_micros
          v
      → r ≡ record s {
        total_tokens_micros = v;
        last_event_order = some order;
        last_updated_round = t.confirmed_round;
      }
      → IsMoved t order s r
  first_asset :
      (v : ℕ)
      → t.asa_id ≢ s.token_id
      → t.asa_id ≡ s.asset1_id
      → Goes
          (pos_part t.delta_amount_micros)
          (neg_part t.delta_amount_micros)
          s.asset1_reserve_micros
          v
      → r ≡ record s {
        asset1_reserve_micros = v;
        last_event_order = some order;
        last_updated_round = t.confirmed_round;
      }
      → IsMoved t order s r
  second_asset :
      (v : ℕ)
      → t.asa_id ≢ s.token_id
      → t.asa_id ≢ s.asset1_id
      → t.asa_id ≡ s.asset2_id
      → Goes
          (pos_part t.delta_amount_micros)
          (neg_part t.delta_amount_micros)
          s.asset2_reserve_micros
          v
      → r ≡ record s {
        asset2_reserve_micros = v;
        last_event_order = some order;
        last_updated_round = t.confirmed_round;
      }
      → IsMoved t order s r
  algo :
      (v : ℕ)
      → t.asa_id ≢ s.token_id
      → t.asa_id ≢ s.asset1_id
      → t.asa_id ≢ s.asset2_id
      → t.asa_id ≡ 0
      → Goes
          (pos_part t.delta_amount_micros)
          (neg_part t.delta_amount_micros)
          s.operational_algo_balance_micros
          v
      → r ≡ record s {
        operational_algo_balance_micros = v;
        last_event_order = some order;
        last_updated_round = t.confirmed_round;
      }
      → IsMoved t order s r

-- A change that is in bounds goes exactly by its amount.
in_bounds-Goes :
    (amount : ℤ) (b : ℕ)
    → in_bounds amount b ≡ true
    → Goes (pos_part amount) (neg_part amount) b (b + pos_part amount - neg_part amount)
in_bounds-Goes (pos n) b h = (ground (arith, h), λ k. ground (arith, h, k))
in_bounds-Goes (negsuc n) b h = (ground (arith, h), λ k. ground (arith, h, k))

in_bounds-Goes-neg :
    (d : ℤ) (b : ℕ)
    → in_bounds (neg d) b ≡ true
    → Goes (neg_part d) (pos_part d) b (b + pos_part (neg d) - neg_part (neg d))
in_bounds-Goes-neg d b h =
    let (p, q) = neg_parts d in
    let (e, m) = in_bounds-Goes (neg d) b h in
    (ground (arith, e, p, q), λ k. m (ground (arith, k, p)))

delta-cases :
    (token a1 a2 asset : ℕ) (d : ℤ) (x : LpBalanceDelta)
    → lp_balance_delta token a1 a2 asset (int d) ≡ ok x
    → ((asset ≡ token) × (x ≡ record { field = total_tokens; amount = neg d }))
      ⊎ ((asset ≢ token) × (asset ≡ a1) × (x ≡ record { field = asset1_reserve; amount = d }))
      ⊎ ((asset ≢ token)
          × (asset ≢ a1)
          × (asset ≡ a2)
          × (x ≡ record { field = asset2_reserve; amount = d }))
      ⊎ ((asset ≢ token)
          × (asset ≢ a1)
          × (asset ≢ a2)
          × (asset ≡ 0)
          × (x ≡ record { field = operational_algo_balance; amount = d }))
unfolding lp_balance_delta
delta-cases token a1 a2 asset d x h = ground (arith, h)

pub with_delta-IsMoved :
    (t : LpTransaction) (order : Text) (s : LpState) (x : LpBalanceDelta)
    → lp_balance_delta s.token_id s.asset1_id s.asset2_id t.asa_id (int t.delta_amount_micros)
      ≡ ok x
    → in_bounds x.amount (balance x.field s) ≡ true
    → IsMoved t order s (with_delta order t.confirmed_round x s)
with_delta-IsMoved t order s x h b =
    elim (delta-cases s.token_id s.asset1_id s.asset2_id t.asa_id t.delta_amount_micros x h) [
      | inl (p, e) ↦
          let g : in_bounds (neg t.delta_amount_micros) s.total_tokens_micros ≡ true =
            subst (λ (y : LpBalanceDelta). in_bounds y.amount (balance y.field s) ≡ true) e b in
          subst (λ (y : LpBalanceDelta). IsMoved t order s (with_delta order t.confirmed_round y s))
            (sym e) (lp_tokens _ p (in_bounds-Goes-neg t.delta_amount_micros _ g) refl)
      | inr (inl (p, q, e)) ↦
          let g : in_bounds t.delta_amount_micros s.asset1_reserve_micros ≡ true =
            subst (λ (y : LpBalanceDelta). in_bounds y.amount (balance y.field s) ≡ true) e b in
          subst (λ (y : LpBalanceDelta). IsMoved t order s (with_delta order t.confirmed_round y s))
            (sym e) (first_asset _ p q (in_bounds-Goes t.delta_amount_micros _ g) refl)
      | inr (inr (inl (p, q, u, e))) ↦
          let g : in_bounds t.delta_amount_micros s.asset2_reserve_micros ≡ true =
            subst (λ (y : LpBalanceDelta). in_bounds y.amount (balance y.field s) ≡ true) e b in
          subst (λ (y : LpBalanceDelta). IsMoved t order s (with_delta order t.confirmed_round y s))
            (sym e) (second_asset _ p q u (in_bounds-Goes t.delta_amount_micros _ g) refl)
      | inr (inr (inr (p, q, u, z, e))) ↦
          let g : in_bounds t.delta_amount_micros s.operational_algo_balance_micros ≡ true =
            subst (λ (y : LpBalanceDelta). in_bounds y.amount (balance y.field s) ≡ true) e b in
          subst (λ (y : LpBalanceDelta). IsMoved t order s (with_delta order t.confirmed_round y s))
            (sym e) (algo _ p q u z (in_bounds-Goes t.delta_amount_micros _ g) refl)
    ]
