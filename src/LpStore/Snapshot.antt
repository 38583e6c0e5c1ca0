-- ===== src/LpStore/Snapshot.antt =====
-- flex/db/lp_projection.py: `replace_snapshot`, the balances of a pool taken at the end of a round.
--
-- The fields of a state are natural numbers, so the check of a snapshot's fields is their upper bound.
pub mod Cover
mod Tests
use cometa_backend.Base.{
  ℕ, ◌≤◌, ◌≡◌, ◌≢◌, refl, ap, sym, ◌∙◌, ◌⊎◌, inl, inr, Bool, true, false, ◌&&◌, not, Bool-cases,
  Option, none, some, Option-cases, List, [], ◌∷◌, leb, ◌==◌, if◌then◌else◌, arith,
}
use cometa_backend.Base.Text.{Text, text_eq, text_lt, text_eq_iff, text_eq_refl, text_lt_irrefl}
use cometa_backend.Base.Exec.{
  Result, Result-cases, ok, err, ◌>>=◌, ◌>>◌, pure, raise_if, or_raise, lift,
}
use cometa_backend.Base.Int.{pos}
use cometa_backend.Base.Value.{Value, int}
use cometa_backend.Uint64.{max_algorand_uint, require_algorand_uint64}
use cometa_backend.LpCursor.{LpProjectionError, lp_round_end_order}
use cometa_backend.LpStore.{
  LpState, LpPersistenceError, invalid_snapshot, conflicting_snapshot, bad_projection, Db, World,
  Action, call, find_state, update_state, get_state, opt_text_eq,
}
use cometa_backend.LpStore.Unique.{IsUnique, IsKeyed, update_state-some}
use cometa_backend.LpStore.States.{quiet, update_state-none}

-- the uint64 checks on the fields of a snapshot
pub snapshot_fields_valid : LpState → Bool
snapshot_fields_valid s =
    leb s.id max_algorand_uint
    && (leb s.token_id max_algorand_uint
        && (leb s.asset1_id max_algorand_uint
            && (leb s.asset2_id max_algorand_uint
                && (leb s.asset1_reserve_micros max_algorand_uint
                    && (leb s.asset2_reserve_micros max_algorand_uint
                        && (leb s.total_tokens_micros max_algorand_uint
                            && leb s.operational_algo_balance_micros max_algorand_uint))))))

-- the filter on the cursor
abbrev pub snapshot_is_newer : Text → LpState → Bool
snapshot_is_newer order s = elim s.last_event_order [ none ↦ true | some c ↦ text_lt c order ]

-- the update
abbrev pub with_snapshot : LpState → ℕ → Text → LpState → LpState
with_snapshot snapshot round order s = record s {
  asset1_reserve_micros = snapshot.asset1_reserve_micros;
  asset2_reserve_micros = snapshot.asset2_reserve_micros;
  total_tokens_micros = snapshot.total_tokens_micros;
  operational_algo_balance_micros = snapshot.operational_algo_balance_micros;
  last_updated_round = round;
  last_event_order = some order;
}

-- `_balances`, compared
pub balances_eq : LpState → LpState → Bool
balances_eq a b =
    a.asset1_reserve_micros == b.asset1_reserve_micros
    && (a.asset2_reserve_micros == b.asset2_reserve_micros
        && (a.total_tokens_micros == b.total_tokens_micros
            && a.operational_algo_balance_micros == b.operational_algo_balance_micros))

pub snapshot_order_of : Value → Result LpPersistenceError (ℕ × Text)
snapshot_order_of observed_round = elim (require_algorand_uint64 observed_round false) [
  | none ↦ err invalid_snapshot
  | some r ↦ elim (lp_round_end_order (int (pos r))) [
    | err e ↦ err (bad_projection e)
    | ok order ↦ ok (r, order)
  ]
]

pub kept_snapshot : LpState → Text → Action LpState
kept_snapshot state order = do
  current ← get_state state.address
  raise_if (opt_text_eq current.last_event_order (some order) && not (balances_eq current state))
      conflicting_snapshot
  pure current

pub update_snapshot : LpState → ℕ → Text → Action (Option LpState)
update_snapshot state round order = call (λ d.
    let (found, states) =
      update_state state.token_id (snapshot_is_newer order) (with_snapshot state round order)
        d.states in
    (ok found, record d { states = states }))

pub replace_snapshot : LpState → Value → Action LpState
replace_snapshot state observed_round = do
  raise_if (not (snapshot_fields_valid state)) invalid_snapshot
  (round, order) ← lift (snapshot_order_of observed_round)
  replaced ← update_snapshot state round order
  elim replaced [ some s ↦ pure s | none ↦ kept_snapshot state order ]
