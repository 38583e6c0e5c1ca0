-- ===== src/Lottery/Index.antt =====
-- The upgrade of the index on draw IDs, `ensure_lottery_indexes`.
pub mod Steps
pub mod Guard
use cometa_backend.Base.{Bool, true, false, ◌&&◌, ◌||◌, not, Option, none, some, if◌then◌else◌}
use cometa_backend.Base.Exec.{Result, ok, err, pure, raise, raise_if, ◌>>=◌, ◌>>◌}
use cometa_backend.Base.Shared.{call, catch}
use cometa_backend.Lottery.Model.{
  all_strings, nonempty_strings, Index, Indexes, Db, Lottery, LotteryError, duplicate_key,
  index_options, index_not_found, unexpected_index, unexpected_legacy_index, duplicate_draw_ids,
  uniqueness_changed, index_not_installed, replacement_disappeared, is_lottery_draw_id_index,
  duplicate_lottery_draw_ids, read,
}

abbrev pub is_present : Option Index → Bool
is_present none = false
is_present (some i) = true

abbrev pub desired_index : Index
desired_index = record { on_id = true; unique = true; filter = nonempty_strings }

-- `create_index`: it leaves an index that is there, and does not build a unique one over duplicates.
unfoldable pub create_index : Db → Result LotteryError (Unit {0}) × Db
unfolding is_lottery_draw_id_index duplicate_lottery_draw_ids
create_index db = elim db.indexes.id_nonempty_unique [
  | some i ↦
      if is_lottery_draw_id_index nonempty_strings (some i)
      then (ok tt, db)
      else (err index_options, db)
  | none ↦ if duplicate_lottery_draw_ids db.draws then (err duplicate_key, db) else (
    ok tt,
    record db { indexes = record db.indexes { id_nonempty_unique = some desired_index } },
  )
]

-- `drop_index("id_unique")`
unfoldable pub drop_index : Db → Result LotteryError (Unit {0}) × Db
drop_index db = elim db.indexes.id_unique [
  | none ↦ (err index_not_found, db)
  | some i ↦ (ok tt, record db { indexes = record db.indexes { id_unique = none } })
]

pub index_information : Lottery Indexes
index_information = call (read (λ db. db.indexes))

not_created : LotteryError → Lottery (Unit {0})
not_created duplicate_key = raise uniqueness_changed
not_created e = raise e

pub not_dropped : LotteryError → Lottery (Unit {0})
not_dropped index_not_found = pure tt
not_dropped e = raise e

pub check_installed : LotteryError → Lottery (Unit {0})
unfolding index_information is_lottery_draw_id_index
check_installed e = do
  y ← index_information
  raise_if (not (is_lottery_draw_id_index nonempty_strings y.id_nonempty_unique)) e

pub build_index : Lottery (Unit {0})
unfolding create_index not_created check_installed
build_index = do catch (call create_index) not_created; check_installed index_not_installed

create_missing : Indexes → Lottery (Unit {0})
unfolding build_index is_lottery_draw_id_index duplicate_lottery_draw_ids
create_missing x =
    if is_present x.id_nonempty_unique || is_lottery_draw_id_index nonempty_strings x.id_unique
    then pure tt
    else (do
      duplicates ← call (read (λ db. duplicate_lottery_draw_ids db.draws))
      raise_if duplicates duplicate_draw_ids
      build_index)

drop_legacy : Indexes → Lottery (Unit {0})
unfolding not_dropped drop_index check_installed is_lottery_draw_id_index
drop_legacy x =
    if is_lottery_draw_id_index all_strings x.id_unique
    then (do catch (call drop_index) not_dropped; check_installed replacement_disappeared)
    else pure tt

-- whether an index that is there is none of the two definitions that the code knows
abbrev pub is_unknown : Option Index → Bool
is_unknown x =
    is_present x
    && not (is_lottery_draw_id_index all_strings x || is_lottery_draw_id_index nonempty_strings x)

unfoldable pub ensure_lottery_indexes : Lottery (Unit {0})
unfolding index_information create_missing drop_legacy is_lottery_draw_id_index
ensure_lottery_indexes = do
  x ← index_information
  raise_if
      (is_present x.id_nonempty_unique
        && not (is_lottery_draw_id_index nonempty_strings x.id_nonempty_unique))
      unexpected_index
  raise_if (is_unknown x.id_unique) unexpected_legacy_index
  create_missing x
  drop_legacy x
