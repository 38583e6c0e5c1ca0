-- ===== src/Lottery/Entitlement.antt =====
-- The entitlements of the staking lottery: one document for each lottery and wallet guards its next
-- draw. What is random or comes from outside is an argument: fresh IDs, the clock, the drawn prize;
-- the digest of SHA-256 and MongoDB's choice of the newest of some draws, by its `_id`, are
-- parameters. An
-- entitlement is a document that the code wrote, so the checks of its types pass.
pub mod Progress
use cometa_backend.Base.{
  ℕ, ◌+◌, Bool, true, false, ◌&&◌, ◌||◌, not, Option, none, some, List, [], ◌∷◌, ◌++◌, ltb, leb,
  ◌==◌, if◌then◌else◌,
}
use cometa_backend.Base.Exec.{Result, ok, err, pure, raise, raise_if, lift, ◌>>=◌, ◌>>◌}
use cometa_backend.Base.Shared.{call, cases, catch}
use cometa_backend.Base.Text.{Text, text, text_eq}
use cometa_backend.Lottery.Model.{
  LotteryPayoutStatus, StakingEntitlementStatus, Field, absent, null, other, value, known,
  LotteryError, duplicate_key, entitlement_disappeared, no_active_draw, not_recoverable,
  not_materialized, different_data, entitlement_changed, no_fresh_id, Draw, ActiveDraw, Entitlement,
  Db, Lottery, has_id, find_draw, find_under, insert_document, read, put,
}
use cometa_backend.Lottery.Protocol.{
  min_draw_interval, is_free, with_reservation, with_active, with_status, with_prize,
  settled_status,
}
use cometa_backend.Lottery.Index.{ensure_lottery_indexes}
use cometa_backend.Lottery.Backfill.{LotteryDraw, backfill_draw_id, is_true, is_false, status_eq}

abbrev pub entitlement_number : StakingEntitlementStatus → ℕ
entitlement_number StakingEntitlementStatus.reserved = 0
entitlement_number StakingEntitlementStatus.prepared = 1
entitlement_number StakingEntitlementStatus.materialized = 2
entitlement_number StakingEntitlementStatus.confirmed = 3
entitlement_number StakingEntitlementStatus.no_prize = 4
entitlement_number StakingEntitlementStatus.unresolved = 5

abbrev pub has_status : StakingEntitlementStatus → ActiveDraw → Bool
has_status s a = entitlement_number a.status == entitlement_number s

-- The largest time stamp of a `datetime`.
abbrev pub max_timestamp : ℕ
max_timestamp = 253402300799

abbrev pub opt_eq : {A : Type 0} → (A → A → Bool) → Option A → Option A → Bool
opt_eq eq none none = true
opt_eq eq (some a) (some b) = eq a b
opt_eq eq _ _ = false

abbrev pub nat_eq : ℕ → ℕ → Bool
nat_eq a b = a == b

-- A write of the entitlement of `key`: `change` says what becomes of it, if the filter matches; the
-- document after.
unfoldable pub write_entitlement :
    Text
    → (Option Entitlement → Option Entitlement)
    → Db
    → Result LotteryError (Option Entitlement) × Db
write_entitlement key change db = elim (change (db.entitlements key)) [
  | none ↦ (ok none, db)
  | some e ↦ (ok (some e), record db { entitlements = put key (some e) db.entitlements })
]

-- an update of the active draw alone, by generation, draw ID and a test of the draw
unfoldable pub changed_active :
    ℕ
    → Text
    → (ActiveDraw → Bool)
    → (ActiveDraw → ActiveDraw)
    → Option Entitlement
    → Option Entitlement
changed_active generation id test change none = none
changed_active generation id test change (some e) = elim e.active [
  | none ↦ none
  | some a ↦
      if e.generation == generation && (text_eq a.draw_id id && test a)
      then some (with_active (change a) e)
      else none
]

unfoldable pub update_active :
    Text → ℕ → Text → (ActiveDraw → Bool) → (ActiveDraw → ActiveDraw) → Lottery (Option Entitlement)
unfolding write_entitlement changed_active
update_active key generation id test change =
    call (write_entitlement key (changed_active generation id test change))

-- `update_one({"_id": key}, {"$setOnInsert": seed}, upsert=True)`; a race of two is no error to the
-- code
unfoldable pub inserted : Entitlement → Option Entitlement → Option Entitlement
inserted seed none = some seed
inserted seed (some e) = none

unfoldable pub insert_entitlement : Text → Entitlement → Lottery (Option Entitlement)
unfolding write_entitlement inserted
insert_entitlement key seed = call (write_entitlement key (inserted seed))

-- the reservation in `_claim_staking_entitlement`
unfoldable pub with_draw_reserved : ℕ → Text → Option Entitlement → Option Entitlement
with_draw_reserved now id none = none
with_draw_reserved now id (some e) =
    if leb e.next_eligible_at now && is_free e.active
    then some (with_reservation now id e)
    else none

unfoldable pub reserve_draw : Text → ℕ → Text → Lottery (Option Entitlement)
unfolding write_entitlement with_draw_reserved
reserve_draw key now id = call (write_entitlement key (with_draw_reserved now id))

unfoldable pub find_entitlement : Text → Lottery (Option Entitlement)
find_entitlement key = call (read (λ db. db.entitlements key))

-- every status replaces one that is not confirmed
abbrev pub may_become : StakingEntitlementStatus → ActiveDraw → Bool
may_become StakingEntitlementStatus.confirmed a = true
may_become status a = not (has_status StakingEntitlementStatus.confirmed a)

-- `_update_staking_entitlement_status` for a draw whose three fields are set; what it does on a
-- failure, another look at the document, is only logged.
unmatched : Text → Lottery (Unit {0})
unfolding find_entitlement
unmatched key = find_entitlement key >>= (λ current. pure tt)

update_status : Text → ℕ → Text → StakingEntitlementStatus → Lottery (Unit {0})
unfolding update_active unmatched
update_status key generation id status =
    update_active key generation id (may_become status) (with_status status)
    >>= (λ updated. cases updated (unmatched key) (λ e. pure tt))

unfoldable pub update_staking_entitlement_status :
    Option Text → Option ℕ → Field Text → StakingEntitlementStatus → Lottery (Unit {0})
unfolding update_status
update_staking_entitlement_status (some key) (some generation) (value id) status =
    update_status key generation id status
update_staking_entitlement_status _ _ _ status = pure tt

abbrev pub of_wallet : Text → Text → List Draw → List Draw
of_wallet lottery_name wallet [] = []
of_wallet lottery_name wallet (d ∷ ds) =
    let rest = of_wallet lottery_name wallet ds in
    if text_eq d.wallet wallet && opt_eq text_eq d.lottery_name (some lottery_name)
    then d ∷ rest
    else rest

-- `{"prize": {"$ne": None}, "claimed": {"$in": [False, None]}}`
abbrev pub is_outstanding : Draw → Bool
is_outstanding d =
    elim d.prize [ none ↦ false | some p ↦ true ]
    && elim d.claimed [ absent ↦ true | null ↦ true | value b ↦ not b | other t n ↦ false ]

abbrev pub outstanding : List Draw → List Draw
outstanding [] = []
outstanding (d ∷ ds) = let rest = outstanding ds in if is_outstanding d then d ∷ rest else rest

-- What the seed says of the draw before: its status, its time and the next eligible time.
pub record Seeded : Type 0 where
  pub status : StakingEntitlementStatus
  pub draw_timestamp : ℕ
  pub next_eligible_at : ℕ

abbrev pub seeded_status : LotteryDraw → StakingEntitlementStatus
seeded_status draw = elim draw.document.prize [
  | none ↦ StakingEntitlementStatus.no_prize
  | some p ↦
      if draw.claimed
      then StakingEntitlementStatus.confirmed
      else StakingEntitlementStatus.unresolved
]

abbrev pub unresolved_seed : ℕ → Seeded
unresolved_seed now = record {
  status = StakingEntitlementStatus.unresolved;
  draw_timestamp = now;
  next_eligible_at = now + min_draw_interval;
}

unfoldable pub seeded_from : ℕ → LotteryDraw → Option ℕ → Option ℕ → Seeded
seeded_from now draw (some active) (some latest) =
    if ltb max_timestamp (latest + min_draw_interval) then unresolved_seed now else record {
      status = seeded_status draw;
      draw_timestamp = active;
      next_eligible_at = latest + min_draw_interval;
    }
seeded_from now draw _ _ = unresolved_seed now

abbrev pub new_entitlement : Text → Text → ℕ → Option ActiveDraw → Entitlement
new_entitlement lottery_name wallet next active = record {
  lottery_name = lottery_name;
  wallet = wallet;
  generation = 0;
  next_eligible_at = next;
  active = active;
}

abbrev pub first_of : Option Draw → Option Draw → Option Draw
first_of none o = o
first_of (some d) o = some d

abbrev pub latest_timestamp : Option Draw → Option ℕ → Option ℕ
latest_timestamp none t = t
latest_timestamp (some d) t = d.timestamp

unfoldable pub staking_entitlement_id : (Text → Text) → Text → Text → Text
staking_entitlement_id digest lottery_name wallet =
    digest (text "staking-lottery:" ++ lottery_name ++ text ":" ++ wallet)

module _ (digest : Text → Text) (newest : List Draw → Option Text) where
  seed_read : Text → Text → Text → ℕ → Option Draw → LotteryDraw → Lottery (Option Entitlement)
  unfolding seeded_from insert_entitlement
  seed_read key lottery_name wallet now latest draw =
      let t = draw.document.timestamp in
      let s = seeded_from now draw t (latest_timestamp latest t) in
      insert_entitlement key (
        new_entitlement lottery_name wallet s.next_eligible_at (
          some (record {
            draw_id = draw.id;
            draw_timestamp = s.draw_timestamp;
            prize = draw.document.prize;
            status = s.status;
          })))

  -- the part of the seed that is made of an old draw
  seed_from : Text → Text → Text → ℕ → Option Draw → Draw → Lottery (Option Entitlement)
  unfolding seed_read
  seed_from key lottery_name wallet now latest document =
      backfill_draw_id digest document >>= seed_read key lottery_name wallet now latest

  unfoldable pub seed_staking_entitlement : Text → Text → ℕ → Lottery (Option Entitlement)
  unfolding seed_from insert_entitlement staking_entitlement_id
  seed_staking_entitlement lottery_name wallet now =
      let key = staking_entitlement_id digest lottery_name wallet in
      (do
        latest ←
            call
              (read (λ db. find_under (newest (of_wallet lottery_name wallet db.draws)) db.draws))
        unpaid ← call (
            read (λ db.
              find_under (newest (outstanding (of_wallet lottery_name wallet db.draws))) db.draws))
        cases (first_of unpaid latest)
            (insert_entitlement key (new_entitlement lottery_name wallet 0 none))
            (seed_from key lottery_name wallet now latest))
