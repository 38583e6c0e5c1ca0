-- ===== src/LpStore/Unique.antt =====
-- flex/db/lp_projection.py: states with unique token IDs and addresses, and an update of one of them.
use cometa_backend.Base.{
  ℕ, ◌≡◌, refl, ◌≢◌, Bool, true, false, none, some, List, [], ◌∷◌, arith, All,
}
use cometa_backend.Base.Text.{Text, text_eq_iff}
use cometa_backend.LpCursor.{
  LpBalanceField, asset1_reserve, asset2_reserve, total_tokens, operational_algo_balance,
  LpBalanceDelta,
}
use cometa_backend.LpStore.{LpState, find_state, update_state, with_delta, with_balance}

abbrev pub IsFresh : LpState → List LpState → Type 0
IsFresh s = All (λ x. (s.token_id ≢ x.token_id) × (s.address ≢ x.address))

-- The indexes of the collection.
abbrev pub IsUnique : List LpState → Type 0
IsUnique [] = Unit
IsUnique (s ∷ ss) = IsFresh s ss × IsUnique ss

pub find_state-address :
    (a : Text) (ss : List LpState) (s : LpState) → find_state a ss ≡ some s → s.address ≡ a
unfolding find_state
find_state-address a [] s h = cc
find_state-address a (x ∷ ss) s h =
    ground (arith, text_eq_iff x.address a, find_state-address a ss s)

find_state-fresh :
    (a : Text) (x s : LpState) (ss : List LpState)
    → IsFresh x ss
    → find_state a ss ≡ some s
    → x.token_id ≢ s.token_id
unfolding find_state
find_state-fresh a x s [] f h = cc
find_state-fresh a x s (y ∷ ss) f h = ground (arith, f, find_state-fresh a x s ss f.1)

-- An update that keeps the keys of a document.
abbrev pub IsKeyed : (LpState → LpState) → Type 0
IsKeyed f = (s : LpState) → ((f s).token_id ≡ s.token_id) × ((f s).address ≡ s.address)

with_balance-IsKeyed : (field : LpBalanceField) (v : ℕ) → IsKeyed (with_balance field v)
with_balance-IsKeyed asset1_reserve v s = (refl, refl)
with_balance-IsKeyed asset2_reserve v s = (refl, refl)
with_balance-IsKeyed total_tokens v s = (refl, refl)
with_balance-IsKeyed operational_algo_balance v s = (refl, refl)

pub with_delta-IsKeyed :
    (order : Text) (round : ℕ) (x : LpBalanceDelta) → IsKeyed (with_delta order round x)
with_delta-IsKeyed order round x s = with_balance-IsKeyed x.field _ s

-- The document that an update of its token changes.
pub update_state-some :
    (token : ℕ) (q : LpState → Bool) (f : LpState → LpState) (a : Text) (ss : List LpState)
    (s u : LpState)
    → IsUnique ss
    → IsKeyed f
    → find_state a ss ≡ some s
    → s.token_id ≡ token
    → (update_state token q f ss).0 ≡ some u
    → (q s ≡ true) × (u ≡ f s) × (find_state a (update_state token q f ss).1 ≡ some u)
unfolding update_state find_state
update_state-some token q f a [] s u n k h e g = cc
update_state-some token q f a (x ∷ ss) s u n k h e g =
    ground (arith, k x, find_state-fresh a x s ss n.0, update_state-some token q f a ss s u n.1 k)

-- No document of another address is changed.
pub update_state-other :
    (token : ℕ) (q : LpState → Bool) (f : LpState → LpState) (a b : Text) (ss : List LpState)
    (s : LpState)
    → IsUnique ss
    → IsKeyed f
    → find_state a ss ≡ some s
    → s.token_id ≡ token
    → b ≢ a
    → find_state b (update_state token q f ss).1 ≡ find_state b ss
unfolding update_state find_state
update_state-other token q f a b [] s n k h e g = cc
update_state-other token q f a b (x ∷ ss) s n k h e g = ground (
  arith,
  k x,
  find_state-fresh a x s ss n.0,
  text_eq_iff x.address b,
  text_eq_iff x.address a,
  update_state-other token q f a b ss s n.1 k,
)

-- An update that finds no document was refused by its filter.
pub update_state-refused :
    (token : ℕ) (q : LpState → Bool) (f : LpState → LpState) (a : Text) (ss : List LpState)
    (s : LpState)
    → IsUnique ss
    → find_state a ss ≡ some s
    → s.token_id ≡ token
    → (update_state token q f ss).0 ≡ none
    → q s ≡ false
unfolding update_state find_state
update_state-refused token q f a [] s n h e g = cc
update_state-refused token q f a (x ∷ ss) s n h e g =
    ground (arith, find_state-fresh a x s ss n.0, update_state-refused token q f a ss s n.1)
