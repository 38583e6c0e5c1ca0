-- ===== src/Lottery/Model.antt =====
-- The documents of api/nft_lottery.py and the collections that its workers share.
--
-- Of a draw, the four fields that the migration of old documents asks for are kept as MongoDB has
-- them (Field); the others are those of the code's own model. Times are whole seconds, and the time
-- stamp of a draw is `none` where it is no finite number from 0 on. The creation times, which no
-- code reads, are left out, and the field `send_error` holds the exception whose text it is.
use cometa_backend.Base.{
  ℕ, Bool, true, false, ◌&&◌, ◌||◌, not, Option, none, some, List, [], ◌∷◌, ◌++◌, if◌then◌else◌,
}
use cometa_backend.Base.Exec.{Result, ok, err}
use cometa_backend.Base.Shared.{Action}
use cometa_backend.Base.Text.{Text, text, text_eq}
use cometa_backend.Transfer.Model.{AssetTransferRequest}

pub data LotteryPayoutStatus : Type 0 where
  pending prepared confirmed unresolved reconciliation_required : LotteryPayoutStatus

pub data StakingEntitlementStatus : Type 0 where
  reserved prepared materialized confirmed no_prize unresolved : StakingEntitlementStatus

-- A field of a document: missing, null, a value of the type that the code writes, or one of another
-- type, no list, of which only its truth in a test and its identity count.
pub data Field (A : Type 0) : Type 0 where
  absent null : Field A
  other : Bool → ℕ → Field A
  value : A → Field A

-- A string where a payout status belongs.
pub data StatusText : Type 0 where
  empty : StatusText
  known : LotteryPayoutStatus → StatusText
  unknown : Text → StatusText

-- `f"nft:lottery:{draw.id}"`
abbrev pub payout_operation : Text → Text
payout_operation id = text "nft:lottery:" ++ id

pub data LotteryError : Type 0 where
  -- MongoDB's and the transfer service's
  duplicate_key index_options index_not_found : LotteryError
  transfer_failed : Text → LotteryError
  -- of the indexes
  unexpected_index unexpected_legacy_index duplicate_draw_ids uniqueness_changed : LotteryError
  index_not_installed replacement_disappeared : LotteryError
  -- of the migration
  invalid_claimed_state kept_changing draw_disappeared migration_not_persisted : LotteryError
  -- of the payouts
  manual_reconciliation foreign_operation draw_changed confirmation_changed : LotteryError
  non_payable : StatusText → LotteryError
  -- of the entitlements
  entitlement_disappeared no_active_draw not_recoverable not_materialized : LotteryError
  different_data entitlement_changed no_fresh_id : LotteryError

pub record Draw : Type 0 where
  pub document_id : Text
  pub id : Field Text
  pub wallet : Text
  pub prize : Option ℕ
  pub timestamp : Option ℕ
  pub lottery_name : Option Text
  pub claimed : Field Bool
  pub send_error : Option LotteryError
  pub payout_operation_id : Field Text
  pub payout_txid : Option Text
  pub confirmed_round : Option ℕ
  pub payout_status : Field StatusText
  pub entitlement_id : Option Text
  pub entitlement_generation : Option ℕ

-- The part `active` of an entitlement.
pub record ActiveDraw : Type 0 where
  pub draw_id : Text
  pub draw_timestamp : ℕ
  pub prize : Option ℕ
  pub status : StakingEntitlementStatus

pub record Entitlement : Type 0 where
  pub lottery_name : Text
  pub wallet : Text
  pub generation : ℕ
  pub next_eligible_at : ℕ
  pub active : Option ActiveDraw

-- `partialFilterExpression` of an index: the strings, the strings above "", or anything else.
pub data IndexFilter : Type 0 where
  all_strings nonempty_strings other_filter : IndexFilter

pub record Index : Type 0 where
  pub on_id : Bool
  pub unique : Bool
  pub filter : IndexFilter

-- The indexes of lottery_draws under the two names that the code uses.
pub record Indexes : Type 0 where
  pub id_nonempty_unique : Option Index
  pub id_unique : Option Index

-- What the workers share: the collections lottery_draws, in natural order, and lottery_entitlements,
-- by `_id`, the indexes of the former, and the requests that were handed to the transfer service.
pub record Db : Type 0 where
  pub draws : List Draw
  pub indexes : Indexes
  pub entitlements : Text → Option Entitlement
  pub requests : List AssetTransferRequest

abbrev pub Lottery : Type 0 → Type 0
Lottery A = Action Db LotteryError A

-- `_is_lottery_draw_id_index`
abbrev pub same_filter : IndexFilter → IndexFilter → Bool
same_filter all_strings all_strings = true
same_filter nonempty_strings nonempty_strings = true
same_filter other_filter other_filter = true
same_filter _ _ = false

unfoldable pub is_lottery_draw_id_index : IndexFilter → Option Index → Bool
is_lottery_draw_id_index f none = false
is_lottery_draw_id_index f (some i) = i.on_id && (i.unique && same_filter i.filter f)

-- Some unique index covers every non-empty draw ID.
unfoldable pub is_protected : Indexes → Bool
unfolding is_lottery_draw_id_index
is_protected x =
    is_lottery_draw_id_index nonempty_strings x.id_nonempty_unique
    || (is_lottery_draw_id_index all_strings x.id_nonempty_unique
        || (is_lottery_draw_id_index nonempty_strings x.id_unique
            || is_lottery_draw_id_index all_strings x.id_unique))

abbrev pub is_empty : Text → Bool
is_empty [] = true
is_empty (c ∷ cs) = false

-- `{"id": t}`
abbrev pub has_id : Text → Draw → Bool
has_id t d = elim d.id [ value s ↦ text_eq t s | _ ↦ false ]

abbrev pub any_has_id : Text → List Draw → Bool
any_has_id t [] = false
any_has_id t (d ∷ ds) = has_id t d || any_has_id t ds

abbrev pub repeated : Draw → List Draw → Bool
repeated d ds = elim d.id [ value t ↦ not (is_empty t) && any_has_id t ds | _ ↦ false ]

-- Whether two documents carry the same non-empty draw ID, as `_duplicate_lottery_draw_ids` groups
-- them.
unfoldable pub duplicate_lottery_draw_ids : List Draw → Bool
duplicate_lottery_draw_ids [] = false
duplicate_lottery_draw_ids (d ∷ ds) = repeated d ds || duplicate_lottery_draw_ids ds

-- `find_one({"_id": k})`
unfoldable pub find_document : Text → List Draw → Option Draw
find_document k [] = none
find_document k (d ∷ ds) = if text_eq k d.document_id then some d else find_document k ds

-- `find_one` with another filter finds the `_id` of a document, under which it is read.
abbrev pub find_under : Option Text → List Draw → Option Draw
find_under none ds = none
find_under (some k) ds = find_document k ds

abbrev pub first_with_id : Text → List Draw → Option Text
first_with_id t [] = none
first_with_id t (d ∷ ds) = if has_id t d then some d.document_id else first_with_id t ds

-- `find_one({"id": t})`
unfoldable pub find_draw : Text → List Draw → Option Draw
unfolding find_document
find_draw t ds = find_under (first_with_id t ds) ds

-- `find` with a filter
unfoldable pub find_all : (Draw → Bool) → List Draw → List Draw → List Draw
unfolding find_document
find_all test [] all = []
find_all test (d ∷ ds) all =
    let rest = find_all test ds all in
    elim (find_document d.document_id all) [
      | none ↦ rest
      | some e ↦ if test e then e ∷ rest else rest
    ]

unfoldable pub replace_document : Text → Draw → List Draw → List Draw
replace_document k e [] = []
replace_document k e (d ∷ ds) =
    if text_eq k d.document_id then e ∷ ds else d ∷ replace_document k e ds

-- A write of draws, which a unique index refuses where it leads to duplicates.
unfoldable pub commit : {A : Type 0} → A → List Draw → Db → Result LotteryError A × Db
unfolding is_protected duplicate_lottery_draw_ids
commit a ds db =
    if is_protected db.indexes && duplicate_lottery_draw_ids ds
    then (err duplicate_key, db)
    else (ok a, record db { draws = ds })

-- `find_one_and_update({"_id": k, ...}, {"$set": ...})`, the document after; `update_one` with the
-- same arguments matches a document exactly if this returns one.
unfoldable pub update_document :
    Text → (Draw → Bool) → (Draw → Draw) → Db → Result LotteryError (Option Draw) × Db
unfolding find_document replace_document commit
update_document k test change db = elim (find_document k db.draws) [
  | none ↦ (ok none, db)
  | some d ↦
      if test d
      then commit (some (change d)) (replace_document k (change d) db.draws) db
      else (ok none, db)
]

-- An insertion, which the index on `_id` refuses under an ID that is there; the document after.
unfoldable pub insert_document : Draw → Db → Result LotteryError (Option Draw) × Db
unfolding find_document commit
insert_document d db = elim (find_document d.document_id db.draws) [
  | some _ ↦ (err duplicate_key, db)
  | none ↦ commit (some d) (db.draws ++ d ∷ []) db
]

-- A call that reads.
abbrev pub read : {A : Type 0} → (Db → A) → Db → Result LotteryError A × Db
read f db = (ok (f db), db)

-- A write of one entitlement.
abbrev pub put : Text → Option Entitlement → (Text → Option Entitlement) → Text → Option Entitlement
put id o s k = if text_eq id k then o else s k
