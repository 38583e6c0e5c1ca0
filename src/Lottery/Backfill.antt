-- ===== src/Lottery/Backfill.antt =====
-- The migration of a draw's document, `_backfill_draw_id`. The digest of SHA-256 is a parameter.
pub mod Migration
use cometa_backend.Base.{
  ℕ, zero, suc, Bool, true, false, ◌&&◌, ◌||◌, not, Option, none, some, ◌++◌, ◌==◌, if◌then◌else◌,
}
use cometa_backend.Base.Exec.{Result, ok, err, pure, raise, raise_if, lift, ◌>>=◌, ◌>>◌}
use cometa_backend.Base.Shared.{call, cases}
use cometa_backend.Base.Text.{Text, text, text_eq}
use cometa_backend.Lottery.Model.{
  LotteryPayoutStatus, Field, absent, null, other, value, StatusText, empty, known, unknown,
  LotteryError, invalid_claimed_state, kept_changing, draw_disappeared, migration_not_persisted,
  Draw, Lottery, payout_operation, is_empty, find_document, update_document, read,
}

-- A draw whose migrated fields have been read.
pub record LotteryDraw : Type 0 where
  pub document : Draw
  pub id : Text
  pub claimed : Bool
  pub payout_status : StatusText

abbrev pub status_number : LotteryPayoutStatus → ℕ
status_number LotteryPayoutStatus.pending = 0
status_number LotteryPayoutStatus.prepared = 1
status_number LotteryPayoutStatus.confirmed = 2
status_number LotteryPayoutStatus.unresolved = 3
status_number LotteryPayoutStatus.reconciliation_required = 4

abbrev pub status_eq : StatusText → StatusText → Bool
status_eq empty empty = true
status_eq (known a) (known b) = status_number a == status_number b
status_eq (unknown a) (unknown b) = text_eq a b
status_eq _ _ = false

abbrev pub bool_eq : Bool → Bool → Bool
bool_eq true b = b
bool_eq false b = not b

-- The filter of a field by the value read: `$exists` for a missing one, and `$eq`, which takes a
-- missing one for null.
abbrev pub field_eq : {A : Type 0} → (A → A → Bool) → Field A → Field A → Bool
field_eq eq absent absent = true
field_eq eq null absent = true
field_eq eq null null = true
field_eq eq (other t m) (other u n) = bool_eq t u && m == n
field_eq eq (value a) (value b) = eq a b
field_eq eq _ _ = false

abbrev pub is_missing_id : Field Text → Bool
is_missing_id (value t) = is_empty t
is_missing_id _ = true

abbrev pub is_missing_status : Field StatusText → Bool
is_missing_status (value empty) = true
is_missing_status (value s) = false
is_missing_status _ = true

abbrev pub is_missing_claimed : Field Bool → Bool
is_missing_claimed absent = true
is_missing_claimed null = true
is_missing_claimed _ = false

abbrev pub is_invalid_claimed : Field Bool → Bool
is_invalid_claimed (other t n) = true
is_invalid_claimed _ = false

-- `value is True` and `{"claimed": False}`
abbrev pub is_true : Field Bool → Bool
is_true (value b) = b
is_true _ = false

abbrev pub is_false : Field Bool → Bool
is_false (value b) = not b
is_false _ = false

abbrev pub is_complete : Draw → Bool
is_complete d =
    not (is_missing_id d.id)
    && (not (is_missing_status d.payout_status) && not (is_missing_claimed d.claimed))

-- the check at the end, of a document whose fields the loop has left in order
checked_fields : Draw → Field Text → Field StatusText → Field Bool → Result LotteryError LotteryDraw
checked_fields d (value t) (value s) (value b) =
    if is_empty t || is_missing_status (value s)
    then err migration_not_persisted
    else ok (record { document = d; id = t; claimed = b; payout_status = s })
checked_fields d _ _ _ = err migration_not_persisted

checked : Draw → Result LotteryError LotteryDraw
unfolding checked_fields
checked d = checked_fields d d.id d.payout_status d.claimed

module _ (digest : Text → Text) where
  unfoldable pub draw_id_value : Draw → Text
  draw_id_value d =
      let old = text "legacy-" ++ digest (text "lottery-draw:" ++ d.document_id) in
      elim d.id [ value t ↦ if is_empty t then old else t | _ ↦ old ]

  unfoldable pub migrated_status : Draw → LotteryPayoutStatus
  unfolding draw_id_value
  migrated_status d =
      if is_true d.claimed
      then LotteryPayoutStatus.confirmed
      else if field_eq text_eq d.payout_operation_id (value (payout_operation (draw_id_value d)))
      then LotteryPayoutStatus.prepared
      else LotteryPayoutStatus.reconciliation_required

  -- `migration_query`: the four fields are still the ones that were read
  abbrev pub is_unchanged : Draw → Draw → Bool
  is_unchanged d now =
      field_eq text_eq d.id now.id
      && (field_eq status_eq d.payout_status now.payout_status
          && (field_eq bool_eq d.claimed now.claimed
              && field_eq text_eq d.payout_operation_id now.payout_operation_id))

  unfoldable pub migrate : Draw → Draw → Draw
  unfolding draw_id_value migrated_status
  migrate d now = record now {
    id = value (draw_id_value d);
    payout_status = value (known (migrated_status d));
    claimed = if is_missing_claimed d.claimed then value false else now.claimed;
  }

  -- one round: a document in order is read, another one goes on with `rest`
  round : Draw → Lottery LotteryDraw → Lottery LotteryDraw
  unfolding checked
  round d rest = do
    raise_if (is_invalid_claimed d.claimed) invalid_claimed_state
    if is_complete d then lift (checked d) else rest

  -- after a migration that found the document changed
  reread : Draw → (Draw → Lottery LotteryDraw) → Lottery LotteryDraw
  reread d again = do
    updated ← call (read (λ db. find_document d.document_id db.draws))
    cases updated (raise draw_disappeared) again

  migration : Draw → (Draw → Lottery LotteryDraw) → Lottery LotteryDraw
  unfolding checked reread
  migration d again = do
    migrated ← call (update_document d.document_id (is_unchanged d) (migrate d))
    cases migrated (reread d again) (λ e. lift (checked e))

  -- the loop, with the number of migrations that are left
  backfill_from : ℕ → Draw → Lottery LotteryDraw
  unfolding round migration
  backfill_from zero d = round d (raise kept_changing)
  backfill_from (suc m) d = round d (migration d (backfill_from m))

  unfoldable pub backfill_draw_id : Draw → Lottery LotteryDraw
  unfolding backfill_from
  backfill_draw_id = backfill_from 3
