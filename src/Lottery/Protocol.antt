-- ===== src/Lottery/Protocol.antt =====
-- The life of a staking entitlement as a step relation: what any worker may do to the document of
-- one lottery and wallet.
use cometa_backend.Base.{ℕ, ◌+◌, ◌≤◌, ◌≡◌, ◌⊎◌, Bool, true, false, Option, none, some}
use cometa_backend.Base.Text.{Text}
use cometa_backend.Lottery.Model.{StakingEntitlementStatus, ActiveDraw, Entitlement}

-- MIN_DRAW_INTERVAL
abbrev pub min_draw_interval : ℕ
min_draw_interval = 86400

abbrev pub is_finished : StakingEntitlementStatus → Bool
is_finished StakingEntitlementStatus.confirmed = true
is_finished StakingEntitlementStatus.no_prize = true
is_finished _ = false

-- No draw is under way.
abbrev pub is_free : Option ActiveDraw → Bool
is_free none = true
is_free (some a) = is_finished a.status

abbrev pub with_reservation : ℕ → Text → Entitlement → Entitlement
with_reservation now id e = record e {
  generation = e.generation + 1;
  next_eligible_at = now + min_draw_interval;
  active = some (record {
    draw_id = id;
    draw_timestamp = now;
    prize = none;
    status = StakingEntitlementStatus.reserved;
  });
}

abbrev pub with_active : ActiveDraw → Entitlement → Entitlement
with_active a e = record e { active = some a }

abbrev pub with_status : StakingEntitlementStatus → ActiveDraw → ActiveDraw
with_status s a = record a { status = s }

abbrev pub with_prize : Option ℕ → ActiveDraw → ActiveDraw
with_prize prize a = record a { prize = prize; status = StakingEntitlementStatus.prepared }

-- The status of a draw that is on record: what is left to do for it depends on the prize written.
abbrev pub settled_status : Option ℕ → StakingEntitlementStatus
settled_status none = StakingEntitlementStatus.no_prize
settled_status (some p) = StakingEntitlementStatus.materialized

-- The draw `a` becomes `b`.
pub data Advance (a b : ActiveDraw) : Type 0 where
  choose :
      (prize : Option ℕ)
      → a.status ≡ StakingEntitlementStatus.reserved
      → b ≡ with_prize prize a
      → Advance a b
  materialize :
      (prize : Option ℕ)
      → (a.status ≡ StakingEntitlementStatus.prepared) ⊎ (a.status ≡ settled_status prize)
      → b ≡ with_status (settled_status prize) a
      → Advance a b
  confirm : b ≡ with_status StakingEntitlementStatus.confirmed a → Advance a b
  doubt :
      ¬ (a.status ≡ StakingEntitlementStatus.confirmed)
      → b ≡ with_status StakingEntitlementStatus.unresolved a
      → Advance a b

pub data Step (o p : Option Entitlement) : Type 0 where
  start : (e : Entitlement) → o ≡ none → p ≡ some e → e.generation ≡ 0 → Step o p
  renew :
      (e : Entitlement) (now : ℕ) (id : Text)
      → o ≡ some e
      → e.next_eligible_at ≤ now
      → is_free e.active ≡ true
      → p ≡ some (with_reservation now id e)
      → Step o p
  progress :
      (e : Entitlement) (a b : ActiveDraw)
      → o ≡ some e
      → e.active ≡ some a
      → Advance a b
      → p ≡ some (with_active b e)
      → Step o p

pub data Reach (o : Option Entitlement) : Option Entitlement → Type 0 where
  here : Reach o o
  next : {p q : Option Entitlement} → Reach o p → Step p q → Reach o q

pub Reach-trans : {o p q : Option Entitlement} → Reach o p → Reach p q → Reach o q
Reach-trans r here = r
Reach-trans r (next s st) = next (Reach-trans r s) st
