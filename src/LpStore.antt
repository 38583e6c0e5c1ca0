-- ===== src/LpStore.antt =====
-- flex/db/lp_projection.py: the projection of pool events into the persisted LP states.
--
-- The states have unique token IDs and addresses, and the events unique IDs; each call of the
-- database is one atomic step, before which other workers may write or the worker may end (`others`,
-- one entry a call). An upsert that loses a race ends with the winner's document, as one that comes second. Wall-clock
-- fields and the legacy float fields of a state, which the repository does not read, are left out.
mod Model
pub mod Event
pub mod Unique
pub mod States
pub mod Quiet
pub mod Snapshot
pub mod Moved
pub mod Outcome
pub mod Halt
pub mod Replay
pub mod Fuel
mod Tests
pub use Model.*
use cometa_backend.Base.{
  ℕ, zero, suc, ◌+◌, ◌-◌, ◌≡◌, Bool, true, false, ◌&&◌, ◌||◌, not, Option, none, some, List, [],
  ◌∷◌, leb, ltb, ◌==◌, if◌then◌else◌,
}
use cometa_backend.Base.Exec.{
  Result, ok, err, Exec, ◌>>=◌, ◌>>◌, pure, raise, raise_if, or_raise, lift,
}
use cometa_backend.Base.Int.{ℤ, pos, negsuc, pos_part, neg_part}
use cometa_backend.Base.Text.{Text, text_eq, text_lt}
use cometa_backend.Base.Value.{Value, int}
use cometa_backend.Uint64.{max_algorand_uint}
use cometa_backend.EventId.{ShapeError, event_id_aliases}
use cometa_backend.LpCursor.{
  LpBalanceField, asset1_reserve, asset2_reserve, total_tokens, operational_algo_balance,
  LpProjectionError, LpBalanceDelta, lp_balance_delta, lp_round_end_order, snapshot_covers_event,
}

pub find_state : Text → List LpState → Option LpState
find_state address [] = none
find_state address (s ∷ ss) = if text_eq s.address address then some s else find_state address ss

-- `find_one_and_update` at the document of a token, under the rest of the filter
pub update_state :
    ℕ → (LpState → Bool) → (LpState → LpState) → List LpState → Option LpState × List LpState
update_state token matches update [] = (none, [])
update_state token matches update (s ∷ ss) =
    let (found, rest) = update_state token matches update ss in
    if s.token_id == token
    then (if matches s then (some (update s), update s ∷ ss) else (none, s ∷ ss))
    else (found, s ∷ rest)

-- `_get_state`
pub get_state : Text → Action LpState
get_state address = do
  found ← call (λ d. (ok (find_state address d.states), d))
  or_raise found state_not_found

pub find_event : Text → Action (Option LpTransaction)
find_event id = call (λ d. (ok (d.events id), d))

pub opt_text_eq : Option Text → Option Text → Bool
opt_text_eq none none = true
opt_text_eq (some a) (some b) = text_eq a b
opt_text_eq _ _ = false

pub int_eq : ℤ → ℤ → Bool
int_eq a b = (pos_part a == pos_part b) && (neg_part a == neg_part b)

-- the immutable data of an event, compared
pub same_event : LpTransaction → LpTransaction → Bool
unfolding opt_text_eq int_eq
same_event a b =
    text_eq a.pool_address b.pool_address
    && (text_eq a.user_address b.user_address
        && (a.asa_id == b.asa_id
            && (int_eq a.delta_amount_micros b.delta_amount_micros
                && (a.confirmed_round == b.confirmed_round
                    && (a.event_position == b.event_position
                        && opt_text_eq a.event_order b.event_order)))))

-- `_assert_event_document`
pub assert_event : LpTransaction → LpTransaction → Action (Unit {0})
assert_event persisted expected = raise_if (not (same_event persisted expected)) conflicting_event

abbrev pub put_event : LpTransaction → (Text → Option LpTransaction) → Text → Option LpTransaction
put_event t events = λ k. if text_eq t.id k then some t else events k

-- the upsert of `_record_event`, with the document after it
pub upsert_event : LpTransaction → Db → Result LpPersistenceError LpTransaction × Db
upsert_event t d = elim (d.events t.id) [
  | some e ↦ (ok e, d)
  | none ↦ (ok t, record d { events = put_event t d.events })
]

-- `_record_event`
pub record_event : LpTransaction → Action (Unit {0})
unfolding upsert_event assert_event
record_event t = do document ← call (upsert_event t); assert_event document t

-- the loop of `_legacy_alias`
pub legacy_alias : Text → List Text → Action (Option Text)
legacy_alias id [] w = (ok none, w)
legacy_alias id (alias ∷ aliases) w =
    let rest = legacy_alias id aliases in
    if text_eq alias id
    then rest w
    else (do found ← find_event alias; elim found [ some _ ↦ pure (some alias) | none ↦ rest ]) w

abbrev pub balance : LpBalanceField → LpState → ℕ
balance asset1_reserve s = s.asset1_reserve_micros
balance asset2_reserve s = s.asset2_reserve_micros
balance total_tokens s = s.total_tokens_micros
balance operational_algo_balance s = s.operational_algo_balance_micros

abbrev pub with_balance : LpBalanceField → ℕ → LpState → LpState
with_balance asset1_reserve v s = record s { asset1_reserve_micros = v }
with_balance asset2_reserve v s = record s { asset2_reserve_micros = v }
with_balance total_tokens v s = record s { total_tokens_micros = v }
with_balance operational_algo_balance v s = record s { operational_algo_balance_micros = v }

-- `bounds`: the balance after the change is a uint64
abbrev pub in_bounds : ℤ → ℕ → Bool
in_bounds amount b =
    leb (neg_part amount) b
    && (if ltb 0 (pos_part amount) then leb (b + pos_part amount) max_algorand_uint else true)

-- the update of `_apply_delta`
abbrev pub with_delta : Text → ℕ → LpBalanceDelta → LpState → LpState
with_delta order round delta s =
    let v = balance delta.field s + pos_part delta.amount - neg_part delta.amount in
    record (with_balance delta.field v s) {
      last_event_order = some order;
      last_updated_round = round;
    }

abbrev pub accepts_delta : Text → LpBalanceDelta → LpState → Bool
accepts_delta cursor delta s =
    elim s.last_event_order [ none ↦ false | some c ↦ text_eq c cursor ]
    && in_bounds delta.amount (balance delta.field s)

pub apply_delta_db : LpState → Text → Text → ℕ → LpBalanceDelta → Db → Option LpState × Db
apply_delta_db state cursor order round delta d =
    let (found, states) =
      update_state state.token_id (accepts_delta cursor delta) (with_delta order round delta)
        d.states in
    (found, record d { states = states })

-- `_apply_delta`, for a state whose cursor is there
pub apply_delta : LpState → Text → Text → ℕ → LpBalanceDelta → Action (Option LpState)
apply_delta state cursor order round delta =
    call (λ d. let (found, d') = apply_delta_db state cursor order round delta d in (ok found, d'))

abbrev pub outcome : LpProjectionResult → LpState → Option LpProjectionOutcome
outcome r s = some (record { state = s; result = r })

abbrev pub at_least : Option Text → Text → Bool
at_least none order = false
at_least (some c) order = not (text_lt c order)

-- the marker is there
pub recorded : LpTransaction → Text → LpState → Text → Action (Option LpProjectionOutcome)
recorded t order state cursor =
    if text_lt cursor order
    then (do
      again ← get_state t.pool_address
      raise_if (not (at_least again.last_event_order order)) marker_ahead
      pure (outcome already_applied again))
    else pure (outcome already_applied state)

-- what follows `_apply_delta`; `none` is the `continue` of the loop
pub after_delta : LpTransaction → Text → Option LpState → Action (Option LpProjectionOutcome)
after_delta t cursor (some updated) = do record_event t; pure (outcome applied updated)
after_delta t cursor none = do
  latest ← get_state t.pool_address
  raise_if (elim latest.last_event_order [ none ↦ false | some c ↦ text_eq c cursor ]) out_of_bounds
  pure none

pub from_delta : Result LpProjectionError LpBalanceDelta → Result LpPersistenceError LpBalanceDelta
from_delta (ok d) = ok d
from_delta (err e) = err (bad_projection e)

pub advance : LpTransaction → Text → LpState → Text → Action (Option LpProjectionOutcome)
unfolding from_delta
advance t order state cursor = do
  delta ← lift (
      from_delta (
        lp_balance_delta state.token_id state.asset1_id state.asset2_id t.asa_id
          (int t.delta_amount_micros)))
  updated ← apply_delta state cursor order t.confirmed_round delta
  after_delta t cursor updated

-- the marker is missing
pub unrecorded : LpTransaction → Text → LpState → Text → Action (Option LpProjectionOutcome)
unrecorded t order state cursor =
    if text_eq cursor order
    then (do record_event t; pure (outcome already_applied state))
    else if text_lt order cursor
    then (if snapshot_covers_event cursor t.confirmed_round
        then pure (outcome snapshot_covered state)
        else raise advanced_past)
    else advance t order state cursor

pub from_aliases : Result ShapeError (List Text) → Result LpPersistenceError (List Text)
from_aliases (ok a) = ok a
from_aliases (err e) = err (bad_event_id e)

pub check_canonical : LpTransaction → Option LpTransaction → Action (Unit {0})
unfolding assert_event
check_canonical t none = pure tt
check_canonical t (some e) = assert_event e t

abbrev pub check_legacy : Option Text → Action (Unit {0})
check_legacy none = pure tt
check_legacy (some alias) = raise (legacy_marker alias)

-- A round once the state, the order, the marker and the aliases are read: the last checks, then the
-- branches on the marker and the cursor.
pub classify :
    LpTransaction
    → Text
    → LpState
    → Option LpTransaction
    → Option Text
    → Action (Option LpProjectionOutcome)
classify t order state canonical legacy = do
  check_legacy legacy
  cursor ← or_raise state.last_event_order missing_cursor
  elim canonical [ some _ ↦ recorded t order state cursor | none ↦ unrecorded t order state cursor ]

pub with_marker :
    LpTransaction → Text → LpState → Option LpTransaction → Action (Option LpProjectionOutcome)
with_marker t order state canonical = do
  check_canonical t canonical
  aliases ← lift (from_aliases (event_id_aliases t.id))
  legacy ← legacy_alias t.id aliases
  classify t order state canonical legacy

-- A round after the read of the state.
pub project_at : LpTransaction → LpState → Action (Option LpProjectionOutcome)
project_at t state = do
  order ← or_raise t.event_order missing_order
  canonical ← find_event t.id
  with_marker t order state canonical

-- One round of the loop of `project`.
pub project_once : LpTransaction → Action (Option LpProjectionOutcome)
project_once t = do state ← get_state t.pool_address; project_at t state

-- `project`; each round of the loop takes one unit of fuel.
pub project : ℕ → LpTransaction → Action LpProjectionOutcome
project zero t = raise out_of_fuel
project (suc fuel) t = do
  done ← project_once t
  elim done [ some o ↦ pure o | none ↦ project fuel t ]
