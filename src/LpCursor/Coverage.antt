-- ===== src/LpCursor/Coverage.antt =====
-- Which rounds a persisted cursor covers.
use cometa_backend.Base.{ℕ, ◌-◌, ◌≤◌, ◌≡◌, false, some, [], ◌∷◌, arith, leb, ◌==◌, if◌then◌else◌}
use cometa_backend.Base.Exec.{ok, err}
use cometa_backend.Base.Int.{pos}
use cometa_backend.Base.Value.{int}
use cometa_backend.Base.Text.{Text, text_eq, text_eq_refl}
use cometa_backend.Base.Digits.{
  fixed_decimal, isdigit-fixed_decimal, parse-fixed_decimal, length-fixed_decimal,
}
use cometa_backend.Uint64.{max_algorand_uint}
use cometa_backend.LpCursor.{
  event_round_width, colon, round_end_suffix, lp_event_order, lp_round_end_order,
  snapshot_covers_event, lp_cursor_complete_through, no_complete_round, is_empty,
}
use cometa_backend.LpCursor.Order.{
  uint64_fits, round_end, partition-fixed_decimal, lp_event_order-format,
  lp_round_end_order-round_end, StartsBelow, fixed_decimal-StartsBelow,
}

-- A snapshot's cursor covers exactly the events of the rounds up to its own, and reads back as
-- complete through that round.
pub lp_round_end_order-covers :
    (e r : ℕ) (s : Text)
    → e ≤ max_algorand_uint
    → lp_round_end_order (int (pos e)) ≡ ok s
    → (snapshot_covers_event s r ≡ leb r e) × (lp_cursor_complete_through (some s) ≡ ok e)
unfolding snapshot_covers_event lp_cursor_complete_through
lp_round_end_order-covers e r s c h =
    let same : s ≡ round_end e = cc (h, lp_round_end_order-round_end e c) in
    rw same (
      ground (
        arith,
        partition-fixed_decimal event_round_width e round_end_suffix,
        text_eq_refl round_end_suffix,
        length-fixed_decimal event_round_width e [],
        isdigit-fixed_decimal 19 e,
        parse-fixed_decimal event_round_width e (uint64_fits e c),
      ))

text_eq-suffix :
    (s : Text) → StartsBelow s → (text_eq s round_end_suffix ≡ false) × (is_empty s ≡ false)
unfolding text_eq
text_eq-suffix [] h = elim h [ ]
text_eq-suffix (c ∷ cs) h = ground arith

-- An event's cursor covers no event as a snapshot does, and reads back as complete through the round
-- before its own; in round 0 there is none, and reading it back is an error.
pub lp_event_order-covers :
    (e p r : ℕ) (event_id o : Text)
    → lp_event_order (int (pos e)) event_id (int (pos p)) ≡ ok o
    → (snapshot_covers_event o r ≡ false)
      × (lp_cursor_complete_through (some o)
          ≡ (if e == 0 then err no_complete_round else ok (e - 1)))
unfolding snapshot_covers_event lp_cursor_complete_through
lp_event_order-covers e p r event_id o h =
    let (same, a, b) = lp_event_order-format e p event_id o h in
    let rest = fixed_decimal event_round_width p (colon ∷ event_id) in
    rw same (
      ground (
        arith,
        partition-fixed_decimal event_round_width e rest,
        text_eq-suffix rest
            (fixed_decimal-StartsBelow event_round_width p (colon ∷ event_id) (omega arith)),
        length-fixed_decimal event_round_width e [],
        isdigit-fixed_decimal 19 e,
        parse-fixed_decimal event_round_width e (uint64_fits e a),
      ))
