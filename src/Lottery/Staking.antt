-- ===== src/Lottery/Staking.antt =====
-- A staking draw, from the claim of its entitlement to its document.
pub mod Refines
pub mod Drawn
pub mod Record
use cometa_backend.Base.{
  ℕ, Bool, true, false, ◌&&◌, ◌||◌, not, Option, none, some, List, [], ◌∷◌, ◌==◌, if◌then◌else◌,
}
use cometa_backend.Base.Exec.{Result, ok, err, pure, raise, raise_if, ◌>>=◌, ◌>>◌}
use cometa_backend.Base.Shared.{call, cases, catch}
use cometa_backend.Base.Text.{Text, text_eq}
use cometa_backend.Lottery.Model.{
  LotteryPayoutStatus, StakingEntitlementStatus, Field, null, value, known, LotteryError,
  duplicate_key, entitlement_disappeared, no_active_draw, not_recoverable, not_materialized,
  different_data, entitlement_changed, no_fresh_id, Draw, ActiveDraw, Entitlement, Db, Lottery,
  has_id, find_draw, insert_document, read,
}
use cometa_backend.Lottery.Protocol.{with_status, with_prize, settled_status}
use cometa_backend.Lottery.Index.{ensure_lottery_indexes}
use cometa_backend.Lottery.Backfill.{is_true, field_eq, status_eq}
use cometa_backend.Lottery.Entitlement.{
  has_status, opt_eq, nat_eq, update_active, reserve_draw, find_entitlement, staking_entitlement_id,
  seed_staking_entitlement,
}

-- the draw of an entitlement is on record as paid
abbrev pub is_paid : Option Draw → Bool
is_paid none = false
is_paid (some d) =
    is_true d.claimed
    && field_eq status_eq d.payout_status (value (known LotteryPayoutStatus.confirmed))

abbrev pub is_helped : ActiveDraw → Bool
is_helped a =
    has_status StakingEntitlementStatus.reserved a || has_status StakingEntitlementStatus.prepared a

abbrev pub is_repairable : ActiveDraw → Bool
is_repairable a =
    has_status StakingEntitlementStatus.materialized a
    || has_status StakingEntitlementStatus.unresolved a

-- the entitlement of a finished draw that still counts as open becomes confirmed
confirm_paid : Text → Entitlement → ActiveDraw → Option Draw → Lottery (Option Entitlement)
unfolding update_active
confirm_paid key e a document =
    if is_paid document
    then update_active key e.generation a.draw_id (has_status a.status)
        (with_status StakingEntitlementStatus.confirmed)
    else pure none

repair : Text → Entitlement → ActiveDraw → Lottery (Option Entitlement)
unfolding find_draw confirm_paid
repair key e a =
    if is_repairable a
    then call (read (λ db. find_draw a.draw_id db.draws)) >>= confirm_paid key e a
    else pure none

-- an unfinished draw is recovered
abbrev pub helped : Entitlement → ActiveDraw → Lottery (Option Entitlement)
helped e a = if is_helped a then pure (some e) else pure none

-- the claim found the entitlement taken: `again` is the call of the code after a repair
after_repair :
    Entitlement
    → ActiveDraw
    → Lottery (Option Entitlement)
    → Option Entitlement
    → Lottery (Option Entitlement)
after_repair e a again repaired = cases repaired (helped e a) (λ f. again)

recover : Text → Lottery (Option Entitlement) → Entitlement → Lottery (Option Entitlement)
unfolding repair after_repair
recover key again e = cases e.active (pure none) (λ a. repair key e a >>= after_repair e a again)

not_claimed : Text → Lottery (Option Entitlement) → Lottery (Option Entitlement)
unfolding recover find_entitlement
not_claimed key again =
    find_entitlement key
    >>= (λ current. cases current (raise entitlement_disappeared) (recover key again))

module _ (digest : Text → Text) (newest : List Draw → Option Text) where
  -- `_claim_staking_entitlement`, with the IDs that its rounds draw
  unfoldable pub claim_staking_entitlement :
      Text → Text → ℕ → List Text → Lottery (Option Entitlement)
  unfolding not_claimed seed_staking_entitlement reserve_draw staking_entitlement_id
  claim_staking_entitlement lottery_name wallet now [] = raise no_fresh_id
  claim_staking_entitlement lottery_name wallet now (id ∷ ids) =
      let key = staking_entitlement_id digest lottery_name wallet in
      (do
        seed_staking_entitlement digest newest lottery_name wallet now
        claimed ← reserve_draw key now id
        cases claimed (not_claimed key (claim_staking_entitlement lottery_name wallet now ids))
            (λ e. pure (some e)))

abbrev pub is_usable : ActiveDraw → Bool
is_usable a =
    has_status StakingEntitlementStatus.prepared a
    || (has_status StakingEntitlementStatus.materialized a
        || has_status StakingEntitlementStatus.no_prize a)

usable : Entitlement → Lottery Entitlement
usable e =
    cases e.active (raise not_recoverable)
      (λ a. if is_usable a then pure e else raise not_recoverable)

-- the prize of a reserved draw is chosen, here or by another worker
not_prepared : Text → Lottery Entitlement
unfolding usable find_entitlement
not_prepared key =
    find_entitlement key >>= (λ current. cases current (raise entitlement_disappeared) usable)

choose_prize : Text → Option ℕ → Entitlement → ActiveDraw → Lottery Entitlement
unfolding not_prepared update_active
choose_prize key prize e a =
    update_active key e.generation a.draw_id (has_status StakingEntitlementStatus.reserved)
      (with_prize prize)
    >>= (λ prepared. cases prepared (not_prepared key) pure)

-- `_prepare_staking_prize`, with the outcome of its draw
unfoldable pub prepare_staking_prize : Text → Option ℕ → Entitlement → Lottery Entitlement
unfolding usable choose_prize
prepare_staking_prize key prize e = cases e.active (raise no_active_draw) (λ a.
    if has_status StakingEntitlementStatus.reserved a then choose_prize key prize e a else usable e)

-- `find_one_and_update({"id": ...}, {"$setOnInsert": payload}, upsert=True)`
upsert_draw : Text → Draw → Db → Result LotteryError (Option Draw) × Db
unfolding find_draw insert_document
upsert_draw id payload db = elim (find_draw id db.draws) [
  | some d ↦ (ok (some d), db)
  | none ↦ insert_document payload db
]

upsert_failed : Text → LotteryError → Lottery (Option Draw)
unfolding find_draw
upsert_failed id duplicate_key = call (read (λ db. find_draw id db.draws))
upsert_failed id e = raise e

-- the draw's payload, with the ID that MongoDB gives its document
unfoldable pub staking_draw : Text → Text → Text → Text → Entitlement → ActiveDraw → Draw
staking_draw key document_id lottery_name wallet e a = record {
  document_id = document_id;
  id = value a.draw_id;
  wallet = wallet;
  prize = a.prize;
  timestamp = some a.draw_timestamp;
  lottery_name = some lottery_name;
  claimed = value false;
  send_error = none;
  payout_operation_id = null;
  payout_txid = none;
  confirmed_round = none;
  payout_status = value (known LotteryPayoutStatus.pending);
  entitlement_id = some key;
  entitlement_generation = some e.generation;
}

abbrev pub same_draw : Draw → Draw → Bool
same_draw d e =
    field_eq text_eq d.id e.id
    && (opt_eq text_eq d.lottery_name e.lottery_name
        && (text_eq d.wallet e.wallet
            && (opt_eq nat_eq d.prize e.prize
                && (opt_eq nat_eq d.timestamp e.timestamp
                    && (opt_eq text_eq d.entitlement_id e.entitlement_id
                        && opt_eq nat_eq d.entitlement_generation e.entitlement_generation)))))

-- another worker has gone on with the same draw
abbrev pub is_further : ActiveDraw → Option Entitlement → Bool
is_further a none = false
is_further a (some e) = elim e.active [
  | none ↦ false
  | some b ↦
      text_eq b.draw_id a.draw_id
      && (has_status (settled_status a.prize) b
          || (has_status StakingEntitlementStatus.confirmed b
              || has_status StakingEntitlementStatus.unresolved b))
]

-- the end of `_materialize_staking_draw`
not_updated : Text → ActiveDraw → Draw → Lottery Draw
unfolding find_entitlement
not_updated key a document =
    find_entitlement key
    >>= (λ current. if is_further a current then pure document else raise entitlement_changed)

record_materialized : Text → Entitlement → ActiveDraw → Draw → Lottery Draw
unfolding update_active not_updated
record_materialized key e a document =
    update_active key e.generation a.draw_id
      (λ b. has_status StakingEntitlementStatus.prepared b || has_status (settled_status a.prize) b)
      (with_status (settled_status a.prize))
    >>= (λ updated. cases updated (not_updated key a document) (λ f. pure document))

-- the draw that is on record must be the payload, but for its payout
take_document : Text → Entitlement → ActiveDraw → Draw → Draw → Lottery Draw
unfolding record_materialized
take_document key e a payload document = do
  raise_if (not (same_draw document payload)) different_data
  record_materialized key e a document

materialize_active : Text → Entitlement → ActiveDraw → Draw → Lottery Draw
unfolding upsert_draw upsert_failed take_document
materialize_active key e a payload = do
  ensure_lottery_indexes
  found ← catch (call (upsert_draw a.draw_id payload)) (upsert_failed a.draw_id)
  cases found (raise not_materialized) (take_document key e a payload)

unfoldable pub materialize_staking_draw : Text → Text → Text → Text → Entitlement → Lottery Draw
unfolding staking_draw materialize_active ensure_lottery_indexes
materialize_staking_draw key document_id lottery_name wallet e =
    cases e.active (raise no_active_draw)
      (λ a. materialize_active key e a (staking_draw key document_id lottery_name wallet e a))

-- the draw of a claimed entitlement
claimed_draw : Text → Text → Text → Option ℕ → Text → Entitlement → Lottery (Option Draw)
unfolding prepare_staking_prize materialize_staking_draw
claimed_draw key lottery_name wallet prize document_id e = do
  prepared ← prepare_staking_prize key prize e
  draw ← materialize_staking_draw key document_id lottery_name wallet prepared
  pure (some draw)

module _ (digest : Text → Text) (newest : List Draw → Option Text) where
  -- `_get_or_create_staking_draw`, with the clock, fresh IDs, the outcome of `draw_id` and the `_id`
  -- that MongoDB gives a new draw
  unfoldable pub get_or_create_staking_draw :
      Text → Text → ℕ → List Text → Option ℕ → Text → Lottery (Option Draw)
  unfolding claim_staking_entitlement claimed_draw staking_entitlement_id
  get_or_create_staking_draw lottery_name wallet now ids prize document_id =
      let key = staking_entitlement_id digest lottery_name wallet in
      claim_staking_entitlement digest newest lottery_name wallet now ids >>= (λ entitlement.
        cases entitlement (pure none) (claimed_draw key lottery_name wallet prize document_id))
