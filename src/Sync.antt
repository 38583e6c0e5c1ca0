-- ===== src/Sync.antt =====
-- flex/db/sync_coordinator.py: the lease and the round checkpoint of the block projector.
--
-- The collection holds at most the one document `main`. A null field and a missing one are both
-- `none`: every filter of the source treats them alike. Times are whole ticks. A round that the
-- model class cannot decode raises after the write, as `from_dict` does; that Decimal128 refuses one
-- of more than 34 digits before the write is left out.
pub mod Lease
pub mod Checkpoint
mod Tests
use cometa_backend.Base.{
  ℕ, ◌+◌, ◌≡◌, Bool, true, false, ◌&&◌, ◌||◌, Option, none, some, List, [], ◌∷◌, take, ltb, leb,
  ◌==◌, if◌then◌else◌, not,
}
use cometa_backend.Base.Exec.{Result, ok, err, Exec, ◌>>=◌, ◌>>◌, raise_if, pure}
use cometa_backend.Base.Int.{ℤ, pos}
use cometa_backend.Base.Text.{Text, text_eq}
use cometa_backend.Base.Value.{Value, bool, int, other}
use cometa_backend.Uint64.{max_algorand_uint}

pub record SyncState : Type 0 where
  pub last_round : Option ℕ
  pub claimed_round : Option ℕ
  pub lease_owner : Option Text
  pub lease_until : Option ℕ
  pub last_error : Option Text
  pub updated : ℕ

abbrev pub Collection : Type 0
Collection = Option SyncState

pub data SyncError : Type 0 where
  not_next_round lost_claim snapshot_regress checkpoint_changed undecodable : SyncError

abbrev pub opt_eq : Option ℕ → Option ℕ → Bool
opt_eq none none = true
opt_eq (some a) (some b) = a == b
opt_eq _ _ = false

abbrev pub owned_by : Text → Option Text → Bool
owned_by owner none = false
owned_by owner (some o) = text_eq o owner

-- the lease is missing, null, or not after `now`
abbrev pub lease_over : ℕ → Option ℕ → Bool
lease_over now none = true
lease_over now (some until) = leb until now

-- `lease_until` is there and after `now`
abbrev pub lease_held : ℕ → Option ℕ → Bool
lease_held now none = false
lease_held now (some until) = ltb now until

abbrev in_range : Option ℕ → Bool
in_range none = true
in_range (some n) = leb n max_algorand_uint

-- `SyncState.from_dict`
from_document : SyncState → Result SyncError SyncState
from_document s =
    if in_range s.last_round && in_range s.claimed_round then ok s else err undecodable

-- `round_number != expected_last_round + 1`, where one is expected
abbrev pub follows : Option ℕ → ℕ → Bool
follows none r = true
follows (some e) r = r == e + 1

validate_next_round : Option ℕ → Value → Result SyncError ℕ
validate_next_round expected (bool b) = err not_next_round
validate_next_round expected (int (pos r)) = if follows expected r then ok r else err not_next_round
validate_next_round expected _ = err not_next_round

-- `find_one_and_update` on the one document, with the updated document.
abbrev find_one_and_update :
    (SyncState → Bool) → (SyncState → SyncState) → Collection → Option SyncState × Collection
find_one_and_update matches update none = (none, none)
find_one_and_update matches update (some s) =
    if matches s then (some (update s), some (update s)) else (none, some s)

abbrev pub claimable : Text → Option ℕ → ℕ → SyncState → Bool
claimable owner expected now s =
    opt_eq s.last_round expected && (lease_over now s.lease_until || owned_by owner s.lease_owner)

abbrev pub with_claim : Text → ℕ → ℕ → ℕ → SyncState → SyncState
with_claim owner r lease now s = record s {
  claimed_round = some r;
  lease_owner = some owner;
  lease_until = some (now + lease);
  last_error = none;
  updated = now;
}

-- The round stands checked, and no claim is left.
abbrev pub with_checkpoint : ℕ → ℕ → SyncState → SyncState
with_checkpoint r now s = record s {
  last_round = some r;
  claimed_round = none;
  lease_owner = none;
  lease_until = none;
  last_error = none;
  updated = now;
}

decoded : Option SyncState → Collection → Result SyncError (Option SyncState) × Collection
unfolding from_document
decoded none c = (ok none, c)
decoded (some s) c = elim (from_document s) [ ok t ↦ (ok (some t), c) | err e ↦ (err e, c) ]

decoded_or : SyncError → Option SyncState → Collection → Result SyncError SyncState × Collection
unfolding from_document
decoded_or e none c = (err e, c)
decoded_or e (some s) c = (from_document s, c)

-- `claim_round`, with the coordinator's `lease_duration` first
pub claim_round : ℕ → Text → Option ℕ → Value → ℕ → Exec Collection SyncError (Option SyncState)
unfolding validate_next_round decoded
claim_round lease owner expected round now c = elim (validate_next_round expected round) [
  | err e ↦ (err e, c)
  | ok r ↦
      let (found, c') =
        find_one_and_update (claimable owner expected now) (with_claim owner r lease now) c in
      decoded found c'
]

abbrev pub completable : Text → Option ℕ → ℕ → ℕ → SyncState → Bool
completable owner expected r now s =
    opt_eq s.last_round expected
    && (opt_eq s.claimed_round (some r)
        && (owned_by owner s.lease_owner && lease_held now s.lease_until))

pub complete_round : Text → Option ℕ → Value → ℕ → Exec Collection SyncError SyncState
unfolding validate_next_round decoded_or
complete_round owner expected round now c = elim (validate_next_round expected round) [
  | err e ↦ (err e, c)
  | ok r ↦
      let (found, c') =
        find_one_and_update (completable owner expected r now) (with_checkpoint r now) c in
      decoded_or lost_claim found c'
]

-- the guard of `advance_snapshot`
abbrev at_least : Option ℕ → ℕ → Bool
at_least none r = true
at_least (some e) r = leb e r

validate_snapshot : Option ℕ → Value → Result SyncError ℕ
validate_snapshot expected (bool b) = err snapshot_regress
validate_snapshot expected (int (pos r)) =
    if at_least expected r then ok r else err snapshot_regress
validate_snapshot expected _ = err snapshot_regress

pub advance_snapshot : Option ℕ → Value → ℕ → Exec Collection SyncError SyncState
unfolding validate_snapshot decoded_or
advance_snapshot expected round now c = elim (validate_snapshot expected round) [
  | err e ↦ (err e, c)
  | ok r ↦
      let (found, c') =
        find_one_and_update (λ s. opt_eq s.last_round expected && lease_over now s.lease_until)
          (with_checkpoint r now) c in
      decoded_or checkpoint_changed found c'
]

-- `update_one`, whose result the source does not read.
pub release_after_error : Text → ℕ → Text → ℕ → Collection → Collection
release_after_error owner r error now c =
    (find_one_and_update (λ s. opt_eq s.claimed_round (some r) && owned_by owner s.lease_owner)
      (λ s. record s {
        claimed_round = none;
        lease_owner = none;
        lease_until = none;
        last_error = some (take 500 error);
        updated = now;
      })
      c).1

-- One call of one worker.
pub data Call : Type 0 where
  claim : ℕ → Text → Option ℕ → Value → ℕ → Call
  complete : Text → Option ℕ → Value → ℕ → Call
  snapshot : Option ℕ → Value → ℕ → Call
  release : Text → ℕ → Text → ℕ → Call

pub step : Call → Collection → Collection
unfolding claim_round complete_round advance_snapshot release_after_error
step (claim lease owner expected round now) c = (claim_round lease owner expected round now c).1
step (complete owner expected round now) c = (complete_round owner expected round now c).1
step (snapshot expected round now) c = (advance_snapshot expected round now c).1
step (release owner r error now) c = release_after_error owner r error now c

-- A schedule of calls of any number of workers; each call is one atomic write.
pub run : List Call → Collection → Collection
unfolding step
run [] c = c
run (call ∷ calls) c = run calls (step call c)
