-- ===== src/LpCursor/Tests.antt =====
-- Cursors at concrete rounds and events.
use cometa_backend.Base.{◌≤◌, ◌≡◌, refl, ◌&&◌, ◌||◌, false, some, arith, leb, ltb, ◌==◌}
use cometa_backend.Base.Exec.{ok}
use cometa_backend.Base.Int.{pos}
use cometa_backend.Base.Value.{int}
use cometa_backend.Base.Text.{Text, text, text_lt, contains}
use cometa_backend.Base.Digits.{fixed_decimal}
use cometa_backend.Uint64.{
  require_algorand_uint64, require_algorand_uint64_iff, max_algorand_uint, least,
}
use cometa_backend.LpCursor.{
  format_event_order, lp_event_order, lp_round_end_order, snapshot_covers_event,
  lp_cursor_complete_through,
}
use cometa_backend.LpCursor.Order.{
  round_end, lp_round_end_order-round_end, text_lt-lp_event_order, lp_round_end_order-separates,
}
use cometa_backend.LpCursor.Coverage.{lp_round_end_order-covers}

abbrev first : Text
first = format_event_order 7 2 (text "TX")

abbrev second : Text
second = format_event_order 7 10 (text "AX")

first_order : lp_event_order (int (pos 7)) (text "TX") (int (pos 2)) ≡ ok first
unfolding lp_event_order require_algorand_uint64 contains
first_order = refl

second_order : lp_event_order (int (pos 7)) (text "AX") (int (pos 10)) ≡ ok second
unfolding lp_event_order require_algorand_uint64 contains
second_order = refl

cursor_text : first ≡ text "00000000000000000007:00000000000000000002:TX"
unfolding fixed_decimal
cursor_text = refl

text_lt-lp_event_order_example :
    text_lt first second
    ≡ (ltb 7 7 || (7 == 7 && (ltb 2 10 || (2 == 10 && text_lt (text "TX") (text "AX")))))
text_lt-lp_event_order_example =
    text_lt-lp_event_order 7 2 7 10 (text "TX") (text "AX") first second first_order second_order

snapshot_order : lp_round_end_order (int (pos 7)) ≡ ok (round_end 7)
snapshot_order = lp_round_end_order-round_end 7 (omega arith)

lp_round_end_order-separates_example :
    (text_lt first (round_end 7) ≡ leb 7 7) × (text_lt (round_end 7) first ≡ ltb 7 7)
lp_round_end_order-separates_example =
    lp_round_end_order-separates 7 2 7 (text "TX") first (round_end 7) first_order (omega arith)
      snapshot_order

lp_round_end_order-covers_example :
    (snapshot_covers_event (round_end 7) 6 ≡ leb 6 7)
    × (lp_cursor_complete_through (some (round_end 7)) ≡ ok 7)
lp_round_end_order-covers_example =
    lp_round_end_order-covers 7 6 (round_end 7) (omega arith) snapshot_order

require_algorand_uint64_iff_example :
    ((require_algorand_uint64 (int (pos 0)) false ≡ some 0)
      → (int (pos 0) ≡ int (pos 0)) × (least false ≤ 0) × (0 ≤ max_algorand_uint))
    × ((int (pos 0) ≡ int (pos 0)) × (least false ≤ 0) × (0 ≤ max_algorand_uint)
        → require_algorand_uint64 (int (pos 0)) false ≡ some 0)
require_algorand_uint64_iff_example = require_algorand_uint64_iff (int (pos 0)) false 0
