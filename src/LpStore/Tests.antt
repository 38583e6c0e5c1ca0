-- ===== src/LpStore/Tests.antt =====
-- A pool, an event of it and a snapshot.
use cometa_backend.Base.{◌≡◌, refl, ◌≢◌, false, none, some, [], ◌∷◌, arith, not, ◌&&◌}
use cometa_backend.Base.Text.{Text, text, text_eq, text_lt, partition, contains}
use cometa_backend.Base.Digits.{fixed_decimal}
use cometa_backend.Base.Exec.{ok, err}
use cometa_backend.Base.Int.{pos}
use cometa_backend.EventId.{
  event_id_aliases, projection_event_id, event_id_aliases-projection_event_id, path_separator,
  append_if, mem_text,
}
use cometa_backend.LpCursor.{format_event_order, lp_balance_delta}
use cometa_backend.LpCursor.Order.{round_end}
use cometa_backend.LpStore.Halt.{halting}
use cometa_backend.LpStore.{
  writes, stopped, LpState, LpTransaction, LpProjectionOutcome, applied, already_applied,
  changed_balances, Db, out_of_fuel, put_event, find_state, update_state, get_state, find_event,
  from_aliases, check_canonical, legacy_alias, classify, with_marker, project_at, project_once,
  project, recorded, unrecorded, advance, apply_delta, apply_delta_db, after_delta, from_delta,
  record_event, upsert_event, assert_event, same_event, opt_text_eq, int_eq,
}
use cometa_backend.LpStore.Unique.{IsUnique}
use cometa_backend.LpStore.States.{quiet}
use cometa_backend.LpStore.Fuel.{project-ends}
use cometa_backend.LpStore.Outcome.{IsProjected, project-applied}
use cometa_backend.LpStore.Replay.{project-again, project-heals}

abbrev pub pool : LpState
pool = record {
  id = 1;
  token_id = 10;
  asset1_id = 20;
  asset2_id = 0;
  dex_provider = text "tinyman";
  address = text "P";
  last_updated_round = 5;
  asset1_reserve_micros = 1000;
  asset2_reserve_micros = 2000;
  total_tokens_micros = 500;
  operational_algo_balance_micros = 0;
  last_event_order = some (round_end 5);
}

abbrev pub order : Text
order = format_event_order 7 2 (text "TX")

abbrev pub deposit : LpTransaction
deposit = record {
  id = text "TX";
  pool_address = text "P";
  user_address = text "U";
  asa_id = 20;
  delta_amount_micros = pos 100;
  confirmed_round = 7;
  event_position = 2;
  event_order = some order;
}

abbrev pub before : Db
before = record { states = pool ∷ []; events = λ _. none }

abbrev moved : LpState
moved = record pool {
  asset1_reserve_micros = 1100;
  last_updated_round = 7;
  last_event_order = some order;
}

abbrev after : Db
after = record { states = moved ∷ []; events = put_event deposit (λ _. none) }

abbrev done : LpProjectionOutcome
done = record { state = moved; result = applied }

pub unique : IsUnique before.states
unique = (tt, tt)

-- The deposit is applied.
deposit_applied : project 1 deposit (quiet before) ≡ (ok done, quiet after)
unfolding project project_once project_at with_marker classify get_state find_event find_state
    text_eq event_id_aliases partition from_aliases check_canonical legacy_alias unrecorded text_lt
    fixed_decimal advance from_delta lp_balance_delta apply_delta apply_delta_db update_state
    after_delta record_event upsert_event assert_event same_event opt_text_eq int_eq
deposit_applied = refl

-- The replay of it is not.
deposit_replayed :
    project 1 deposit (quiet after)
    ≡ (ok (record { state = moved; result = already_applied }), quiet after)
unfolding project project_once project_at with_marker classify get_state find_event find_state
    text_eq event_id_aliases partition from_aliases check_canonical legacy_alias text_lt
    fixed_decimal same_event assert_event opt_text_eq int_eq recorded
deposit_replayed = refl

project-ends_example :
    (project 2 deposit
      (record { db = before; others = writes (λ d. record d { states = [] }) ∷ [] })).0
    ≢ err out_of_fuel
project-ends_example =
    project-ends 2 deposit
      (record { db = before; others = writes (λ d. record d { states = [] }) ∷ [] }) (omega arith)

project-applied_example : IsProjected deposit before done after
project-applied_example = project-applied 1 deposit before after done unique deposit_applied refl

project-again_example :
    (again : LpProjectionOutcome) × (project 1 deposit (quiet after) ≡ (ok again, quiet after))
    × (again.state ≡ moved)
    × (changed_balances again ≡ false)
project-again_example = project-again 1 deposit before after done unique deposit_applied

-- The balances are written, and the marker is not.
abbrev between : Db
between = record after { events = before.events }

deposit_halted :
    project 1 deposit (halting 3 before) ≡ (err stopped, record { db = between; others = [] })
unfolding project project_once project_at with_marker classify get_state find_event find_state
    text_eq event_id_aliases partition from_aliases check_canonical legacy_alias text_lt
    fixed_decimal unrecorded advance from_delta apply_delta apply_delta_db update_state after_delta
    record_event lp_balance_delta
deposit_halted = refl

project-heals_example :
    (again : LpProjectionOutcome) × (project 1 deposit (quiet between) ≡ (ok again, quiet after))
    × (again.state ≡ moved)
project-heals_example =
    project-heals 1 3 deposit before after done (record { db = between; others = [] }) unique
      deposit_applied deposit_halted

scoped : projection_event_id (text "TX") (text "lp") ≡ ok (text "TX@lp")
unfolding projection_event_id contains
scoped = refl

event_id_aliases-projection_event_id_example :
    event_id_aliases (text "TX@lp")
    ≡ ok (
        let root = partition path_separator (text "TX") in
        append_if
          (root.found && not (mem_text root.before (text "TX@lp" ∷ text "TX" ∷ [])))
          root.before
          (text "TX@lp" ∷ text "TX" ∷ []))
event_id_aliases-projection_event_id_example =
    event_id_aliases-projection_event_id (text "TX") (text "lp") (text "TX@lp") scoped
