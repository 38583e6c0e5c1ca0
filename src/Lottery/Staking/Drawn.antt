-- ===== src/Lottery/Staking/Drawn.antt =====
-- The document of a staking draw: its data, what its upsert returns, and when it is on record.
use mathlib.Core.Path.{subst}
use cometa_backend.Base.Text.{text_eq_iff, text_eq, Text}
use cometa_backend.Base.{none, some, ap, arith, true, Option, ℕ, Bool, ◌≡◌, ◌≤◌, ◌∙◌, sym, refl}
use cometa_backend.Lottery.Staking.Refines.{Was-later}
use cometa_backend.Lottery.Entitlement.Progress.{Was, some_inj}
use cometa_backend.Lottery.Later.{SameActive, LaterOption, Reach-LaterOption}
use cometa_backend.Lottery.Keeps.{HeldIn-later, HeldIn, Extends}
use cometa_backend.Lottery.Backfill.{field_eq}
use cometa_backend.Lottery.Staking.{staking_draw, same_draw}
use cometa_backend.Lottery.Entitlement.{opt_eq, nat_eq}
use cometa_backend.Lottery.Model.{
  StakingEntitlementStatus, Entitlement, ActiveDraw, value, Db, Field, Draw,
}

-- The document has the data of the payload, but for its payout.
record SameData (d e : Draw) : Type 0 where
  id : (t : Text) → e.id ≡ value t → d.id ≡ value t
  lottery_name : d.lottery_name ≡ e.lottery_name
  wallet : d.wallet ≡ e.wallet
  prize : d.prize ≡ e.prize
  timestamp : d.timestamp ≡ e.timestamp
  entitlement_id : d.entitlement_id ≡ e.entitlement_id
  entitlement_generation : d.entitlement_generation ≡ e.entitlement_generation

opt_eq_sound :
    {A : Type 0} (eq : A → A → Bool) (o p : Option A)
    → ((a b : A) → eq a b ≡ true → a ≡ b)
    → opt_eq eq o p ≡ true
    → o ≡ p
opt_eq_sound eq none none sound h = refl
opt_eq_sound eq none (some b) sound h = cc
opt_eq_sound eq (some a) none sound h = cc
opt_eq_sound eq (some a) (some b) sound h = ap some (sound a b h)

nat_eq_sound : (a b : ℕ) → nat_eq a b ≡ true → a ≡ b
nat_eq_sound a b h = ground (arith, h)

pub text_field_sound :
    (f : Field Text) (t : Text) → field_eq text_eq f (value t) ≡ true → f ≡ value t
text_field_sound (value s) t h = ap value ((text_eq_iff s t).0 h)
text_field_sound f t h = cc

same_draw_sound : (d e : Draw) → same_draw d e ≡ true → SameData d e
same_draw_sound d e h = record {
  id = λ t own.
      text_field_sound d.id t
        (subst (λ (x : Field Text). field_eq text_eq d.id x ≡ true) own (ground (arith, h)));
  lottery_name =
      opt_eq_sound text_eq d.lottery_name e.lottery_name (λ a b. (text_eq_iff a b).0)
        (ground (arith, h));
  wallet = (text_eq_iff d.wallet e.wallet).0 (ground (arith, h));
  prize = opt_eq_sound nat_eq d.prize e.prize nat_eq_sound (ground (arith, h));
  timestamp = opt_eq_sound nat_eq d.timestamp e.timestamp nat_eq_sound (ground (arith, h));
  entitlement_id =
      opt_eq_sound text_eq d.entitlement_id e.entitlement_id (λ a b. (text_eq_iff a b).0)
        (ground (arith, h));
  entitlement_generation =
      opt_eq_sound nat_eq d.entitlement_generation e.entitlement_generation nat_eq_sound
        (ground (arith, h));
}

-- The draw `d` is on record, of that lottery and wallet, as the draw that the entitlement `key` has had.
pub record IsDrawn (key name owner : Text) (d : Draw) (db : Db) : Type 0 where
  pub held : HeldIn d db.draws
  pub lottery_name : d.lottery_name ≡ some name
  pub wallet : d.wallet ≡ owner
  pub entitlement_id : d.entitlement_id ≡ some key
  pub entitlement : Entitlement
  pub active : ActiveDraw
  pub was : Was key entitlement db
  pub is_active : entitlement.active ≡ some active
  pub begun : ¬ (active.status ≡ StakingEntitlementStatus.reserved)
  pub id : d.id ≡ value active.draw_id
  pub prize : d.prize ≡ active.prize
  pub timestamp : d.timestamp ≡ some active.draw_timestamp
  pub generation : d.entitlement_generation ≡ some entitlement.generation

module _ (key document_id lottery_name wallet : Text) where
  pub IsDrawn-same :
      (e : Entitlement) (a : ActiveDraw) (d : Draw) (db : Db)
      → e.active ≡ some a
      → ¬ (a.status ≡ StakingEntitlementStatus.reserved)
      → Was key e db
      → HeldIn d db.draws
      → same_draw d (staking_draw key document_id lottery_name wallet e a) ≡ true
      → IsDrawn key lottery_name wallet d db
  unfolding staking_draw
  IsDrawn-same e a d db active begun was held same =
      let s = same_draw_sound d (staking_draw key document_id lottery_name wallet e a) same in
      record {
        held = held;
        lottery_name = s.lottery_name;
        wallet = s.wallet;
        entitlement_id = s.entitlement_id;
        entitlement = e;
        active = a;
        was = was;
        is_active = active;
        begun = begun;
        id = s.id a.draw_id refl;
        prize = s.prize;
        timestamp = s.timestamp;
        generation = s.entitlement_generation;
      }

  pub IsDrawn-later :
      (d : Draw) (x y : Db)
      → Extends x y
      → IsDrawn key lottery_name wallet d x
      → IsDrawn key lottery_name wallet d y
  IsDrawn-later d x y r h = record {
    held = HeldIn-later d x.draws y.draws h.held r.draws;
    lottery_name = h.lottery_name;
    wallet = h.wallet;
    entitlement_id = h.entitlement_id;
    entitlement = h.entitlement;
    active = h.active;
    was = Was-later key h.entitlement x y r h.was;
    is_active = h.is_active;
    begun = h.begun;
    id = h.id;
    prize = h.prize;
    timestamp = h.timestamp;
    generation = h.generation;
  }

-- The draw is the one that the entitlement has: its ID, its time and its prize, which is chosen.
abbrev pub IsDrawOf : Draw → Option ActiveDraw → Type 0
IsDrawOf d none = ⊥
IsDrawOf d (some a) =
    (d.id ≡ value a.draw_id)
    × (d.timestamp ≡ some a.draw_timestamp)
    × (d.prize ≡ a.prize)
    × ¬ (a.status ≡ StakingEntitlementStatus.reserved)

-- What the entitlement on record says of a draw of the generation `g`: that one is not ahead of it,
-- and as long as it is still in that generation, the draw is its own.
abbrev pub IsGivenBy : ℕ → Draw → Option Entitlement → Type 0
IsGivenBy g d none = ⊥
IsGivenBy g d (some e) = (g ≤ e.generation) × (e.generation ≡ g → IsDrawOf d e.active)

-- The draw `d` is on record, of that lottery and wallet, as the draw that the entitlement `key` on
-- record gave it.
pub record IsGiven (key name owner : Text) (d : Draw) (db : Db) : Type 0 where
  pub held : HeldIn d db.draws
  pub lottery_name : d.lottery_name ≡ some name
  pub wallet : d.wallet ≡ owner
  pub entitlement_id : d.entitlement_id ≡ some key
  pub generation : ℕ
  pub entitlement_generation : d.entitlement_generation ≡ some generation
  pub given : IsGivenBy generation d (db.entitlements key)

later_draw :
    (d : Draw) (a : ActiveDraw) (o p : Option ActiveDraw)
    → o ≡ some a
    → ¬ (a.status ≡ StakingEntitlementStatus.reserved)
    → d.id ≡ value a.draw_id
    → d.timestamp ≡ some a.draw_timestamp
    → d.prize ≡ a.prize
    → SameActive o p
    → IsDrawOf d p
later_draw d a none p e begun i t z s = cc
later_draw d a (some x) none e begun i t z s = elim s [ ]
later_draw d a (some x) (some y) e begun i t z s =
    let same : x ≡ a = some_inj e in
    let chosen : ¬ (x.status ≡ StakingEntitlementStatus.reserved) =
      λ r. begun (sym (ap (λ (v : ActiveDraw). v.status) same) ∙ r) in
    (
      i ∙ ap (λ (v : ActiveDraw). value v.draw_id) (sym same) ∙ ap value (sym s.draw_id),
      t
          ∙ ap (λ (v : ActiveDraw). some v.draw_timestamp) (sym same)
          ∙ ap some (sym s.draw_timestamp),
      z ∙ ap (λ (v : ActiveDraw). v.prize) (sym same) ∙ sym (s.prize chosen),
      s.begun chosen,
    )

later_given :
    (d : Draw) (e : Entitlement) (a : ActiveDraw) (p : Option Entitlement)
    → e.active ≡ some a
    → ¬ (a.status ≡ StakingEntitlementStatus.reserved)
    → d.id ≡ value a.draw_id
    → d.timestamp ≡ some a.draw_timestamp
    → d.prize ≡ a.prize
    → LaterOption (some e) p
    → IsGivenBy e.generation d p
later_given d e a none h begun i t z l = elim l [ ]
later_given d e a (some f) h begun i t z l =
    (l.generation, λ g. later_draw d a e.active f.active h begun i t z (l.same g).0)

pub IsDrawn-IsGiven :
    (key name owner : Text) (d : Draw) (db : Db)
    → IsDrawn key name owner d db
    → IsGiven key name owner d db
IsDrawn-IsGiven key name owner d db h = record {
  held = h.held;
  lottery_name = h.lottery_name;
  wallet = h.wallet;
  entitlement_id = h.entitlement_id;
  generation = h.entitlement.generation;
  entitlement_generation = h.generation;
  given =
      later_given d h.entitlement h.active (db.entitlements key) h.is_active h.begun h.id
        h.timestamp h.prize (Reach-LaterOption h.was);
}
