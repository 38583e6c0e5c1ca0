-- ===== src/LpCursor.antt =====
-- flex/domain/lp_projection.py: the sortable event cursor of a liquidity pool, round-end snapshots,
-- and the balance that a transfer moves.
--
-- A cursor is a text of code points, compared as Python compares `str`. `isdigit` and `int` are
-- those of ASCII text: the code itself writes no other digits into a cursor.
pub mod Order
pub mod Coverage
mod Tests
use cometa_backend.Base.{
  ℕ, ◌-◌, ◌≡◌, Bool, true, false, ◌&&◌, ◌||◌, Option, none, some, List, [], ◌∷◌, ◌++◌, length, leb,
  ◌==◌, if◌then◌else◌, not,
}
use cometa_backend.Base.Exec.{Result, ok, err}
use cometa_backend.Base.Int.{ℤ, pos, neg, leb_ℤ, pos_part, neg_part}
use cometa_backend.Base.Value.{Value, bool, int, other}
use cometa_backend.Base.Text.{Text, text, text_eq, partition, contains, Parts}
use cometa_backend.Base.Digits.{fixed_decimal, isdigit, parse}
use cometa_backend.Uint64.{max_algorand_uint, require_algorand_uint64}

pub data LpBalanceField : Type 0 where
  asset1_reserve asset2_reserve total_tokens operational_algo_balance : LpBalanceField

-- `InvalidLpProjectionError`, by its cause
pub data LpProjectionError : Type 0 where
  bad_round bad_event_id bad_position missing_cursor bad_cursor no_complete_round :
      LpProjectionError
  bad_delta foreign_asset : LpProjectionError

pub record LpBalanceDelta : Type 0 where
  pub field : LpBalanceField
  pub amount : ℤ

abbrev pub event_round_width : ℕ
event_round_width = 20

abbrev pub colon : ℕ
colon = 58

-- `ROUND_END_SUFFIX`, "~"
abbrev pub round_end_suffix : Text
round_end_suffix = 126 ∷ []

-- f"{confirmed_round:020d}:{event_position:020d}:{event_id}"
abbrev pub format_event_order : ℕ → ℕ → Text → Text
format_event_order round position event_id =
    fixed_decimal event_round_width round
      (colon ∷ fixed_decimal event_round_width position (colon ∷ event_id))

abbrev pub is_empty : Text → Bool
is_empty [] = true
is_empty (_ ∷ _) = false

unfoldable pub lp_event_order : Value → Text → Value → Result LpProjectionError Text
lp_event_order confirmed_round event_id event_position =
    elim (require_algorand_uint64 confirmed_round false) [
      | none ↦ err bad_round
      | some r ↦
          if is_empty event_id || contains colon event_id
          then err bad_event_id
          else elim (require_algorand_uint64 event_position false) [
            | none ↦ err bad_position
            | some p ↦ ok (format_event_order r p event_id)
          ]
    ]

pub lp_round_end_order : Value → Result LpProjectionError Text
lp_round_end_order confirmed_round =
    elim (lp_event_order confirmed_round (text "snapshot") (int (pos 0))) [
      | err e ↦ err e
      | ok order ↦ ok ((partition colon order).before ++ colon ∷ round_end_suffix)
    ]

-- the tests on the two parts of a cursor
has_round : Parts → Bool
has_round p = p.found && (length p.before == event_round_width && isdigit p.before)

pub snapshot_covers_event : Text → ℕ → Bool
unfolding has_round
snapshot_covers_event cursor confirmed_round =
    let p = partition colon cursor in
    text_eq p.after round_end_suffix && (has_round p && leb confirmed_round (parse p.before))

pub lp_cursor_complete_through : Option Text → Result LpProjectionError ℕ
unfolding has_round
lp_cursor_complete_through none = err missing_cursor
lp_cursor_complete_through (some cursor) =
    let p = partition colon cursor in
    let round_number = parse p.before in
    if not (has_round p) || is_empty p.after
    then err bad_cursor
    else if text_eq p.after round_end_suffix
    then ok round_number
    else if round_number == 0
    then err no_complete_round
    else ok (round_number - 1)

abbrev pub in_delta_range : ℤ → Bool
in_delta_range d = leb (pos_part d) max_algorand_uint && leb (neg_part d) max_algorand_uint

unfoldable pub lp_balance_delta : ℕ → ℕ → ℕ → ℕ → Value → Result LpProjectionError LpBalanceDelta
lp_balance_delta token_id asset1_id asset2_id event_asset_id (int d) =
    if not (in_delta_range d)
    then err bad_delta
    else if event_asset_id == token_id
    then ok (record { field = total_tokens; amount = neg d })
    else if event_asset_id == asset1_id
    then ok (record { field = asset1_reserve; amount = d })
    else if event_asset_id == asset2_id
    then ok (record { field = asset2_reserve; amount = d })
    else if event_asset_id == 0
    then ok (record { field = operational_algo_balance; amount = d })
    else err foreign_asset
lp_balance_delta token_id asset1_id asset2_id event_asset_id _ = err bad_delta
