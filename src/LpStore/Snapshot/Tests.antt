-- ===== src/LpStore/Snapshot/Tests.antt =====
-- A snapshot of a pool, and an event before it.
use cometa_backend.Base.{◌≡◌, refl, some, [], ◌∷◌, arith}
use cometa_backend.Base.Text.{text, text_eq, text_lt, contains, partition}
use cometa_backend.Base.Digits.{fixed_decimal}
use cometa_backend.Base.Exec.{ok}
use cometa_backend.Base.Int.{pos}
use cometa_backend.Base.Value.{int}
use cometa_backend.Uint64.{require_algorand_uint64}
use cometa_backend.EventId.{event_id_aliases}
use cometa_backend.LpCursor.{lp_event_order, lp_round_end_order}
use cometa_backend.LpCursor.Order.{round_end, lp_round_end_order-round_end}
use cometa_backend.LpStore.{LpState, Db, snapshot_covered, find_state, update_state, project}
use cometa_backend.LpStore.States.{quiet}
use cometa_backend.LpStore.Tests.{pool, order, deposit, before, unique}
use cometa_backend.LpStore.Snapshot.{
  replace_snapshot, snapshot_fields_valid, snapshot_order_of, update_snapshot,
}
use cometa_backend.LpStore.Snapshot.Cover.{
  IsNewest, replace_snapshot-IsNewest, replace_snapshot-covers,
}

abbrev observed : LpState
observed = record pool { asset1_reserve_micros = 1100 }

abbrev replaced : LpState
replaced = record observed { last_updated_round = 9; last_event_order = some (round_end 9) }

abbrev later : Db
later = record before { states = replaced ∷ [] }

order_9 : lp_round_end_order (int (pos 9)) ≡ ok (round_end 9)
order_9 = lp_round_end_order-round_end 9 (omega arith)

snapshot_9 : snapshot_order_of (int (pos 9)) ≡ ok (9, round_end 9)
unfolding snapshot_order_of require_algorand_uint64
snapshot_9 = rw (snapshot_order_of, order_9) refl

taken : replace_snapshot observed (int (pos 9)) (quiet before) ≡ (ok replaced, quiet later)
unfolding replace_snapshot snapshot_fields_valid update_snapshot update_state text_lt fixed_decimal
taken = rw (replace_snapshot, snapshot_9) refl

pool_found : find_state observed.address before.states ≡ some pool
unfolding find_state text_eq
pool_found = refl

replace_snapshot-IsNewest_example : IsNewest observed (int (pos 9)) pool before replaced later
replace_snapshot-IsNewest_example =
    replace_snapshot-IsNewest observed pool replaced (int (pos 9)) before later unique pool_found
      refl taken

deposit_ordered : lp_event_order (int (pos 7)) (text "TX") (int (pos 2)) ≡ ok order
unfolding lp_event_order require_algorand_uint64 contains fixed_decimal
deposit_ordered = refl

deposit_aliases : event_id_aliases (text "TX") ≡ ok (text "TX" ∷ [])
unfolding event_id_aliases partition
deposit_aliases = refl

replace_snapshot-covers_example :
    project 1 deposit (quiet later)
    ≡ (ok (record { state = replaced; result = snapshot_covered }), quiet later)
unfolding text_eq
replace_snapshot-covers_example =
    replace_snapshot-covers observed pool replaced 9 (round_end 9) order deposit (text "TX" ∷ [])
      before later unique pool_found refl (omega arith) order_9 taken refl refl refl deposit_ordered
      (omega arith) refl deposit_aliases refl
