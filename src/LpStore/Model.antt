-- ===== src/LpStore/Model.antt =====
-- flex/db/model/liquidity_pools.py and flex/db/lp_projection.py: states, events, errors and outcomes of
-- the projection, the store, and a call of the database.
use cometa_backend.Base.{ℕ, Bool, true, false, Option, List, [], ◌∷◌}
use cometa_backend.Base.Exec.{Result, err, Exec}
use cometa_backend.Base.Int.{ℤ}
use cometa_backend.Base.Text.{Text}
use cometa_backend.EventId.{ShapeError}
use cometa_backend.LpCursor.{LpProjectionError}

pub record LpState : Type 0 where
  pub id : ℕ
  pub token_id : ℕ
  pub asset1_id : ℕ
  pub asset2_id : ℕ
  pub dex_provider : Text
  pub address : Text
  pub last_updated_round : ℕ
  pub asset1_reserve_micros : ℕ
  pub asset2_reserve_micros : ℕ
  pub total_tokens_micros : ℕ
  pub operational_algo_balance_micros : ℕ
  pub last_event_order : Option Text

pub record LpTransaction : Type 0 where
  pub id : Text
  pub pool_address : Text
  pub user_address : Text
  pub asa_id : ℕ
  pub delta_amount_micros : ℤ
  pub confirmed_round : ℕ
  pub event_position : ℕ
  pub event_order : Option Text

pub data LpPersistenceError : Type 0 where
  state_not_found missing_order missing_cursor conflicting_event marker_ahead advanced_past :
      LpPersistenceError
  out_of_bounds conflicting_snapshot invalid_snapshot out_of_fuel stopped : LpPersistenceError
  legacy_marker : Text → LpPersistenceError
  bad_event_id : ShapeError → LpPersistenceError
  bad_projection : LpProjectionError → LpPersistenceError

pub data LpProjectionResult : Type 0 where
  applied already_applied snapshot_covered : LpProjectionResult

pub record LpProjectionOutcome : Type 0 where
  pub state : LpState
  pub result : LpProjectionResult

abbrev pub changed_balances : LpProjectionOutcome → Bool
changed_balances o = elim o.result [ applied ↦ true | _ ↦ false ]

pub record Db : Type 0 where
  pub states : List LpState
  pub events : Text → Option LpTransaction

-- What may come before a call of the database: a write of other workers, or the worker's own end.
pub data Interference : Type 0 where
  writes : (Db → Db) → Interference
  stops : Interference

pub record World : Type 0 where
  pub db : Db
  pub others : List Interference

abbrev pub Action : Type 0 → Type 0
Action A = Exec World LpPersistenceError A

-- One call of the database, behind what comes before it. A worker that ends does not make it.
abbrev pub call_after :
    {A : Type 0}
    → List Interference
    → (Db → Result LpPersistenceError A × Db)
    → Db
    → Result LpPersistenceError A × World
call_after [] f d = let (r, d') = f d in (r, record { db = d'; others = [] })
call_after (writes g ∷ others) f d =
    let (r, d') = f (g d) in (r, record { db = d'; others = others })
call_after (stops ∷ others) f d = (err stopped, record { db = d; others = others })

abbrev pub call : {A : Type 0} → (Db → Result LpPersistenceError A × Db) → Action A
call f w = call_after w.others f w.db
