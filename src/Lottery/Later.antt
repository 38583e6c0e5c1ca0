-- ===== src/Lottery/Later.antt =====
-- What the step relation of an entitlement implies between any two of its states.
use cometa_backend.Base.{ℕ, ◌+◌, ◌-◌, ◌*◌, ◌≤◌, ◌≡◌, refl, ◌∙◌, inl, inr, Option, none, some, arith}
use cometa_backend.Base.Text.{Text}
use cometa_backend.Lottery.Model.{StakingEntitlementStatus, ActiveDraw, Entitlement}
use cometa_backend.Lottery.Protocol.{
  min_draw_interval, with_reservation, with_active, settled_status, Advance, choose, materialize,
  confirm, doubt, Step, start, renew, progress, Reach, here, next,
}

-- The draw `b` is the draw `a` at a later time: its prize stays once it is chosen, and it stays
-- confirmed.
pub record SameDraw (a b : ActiveDraw) : Type 0 where
  pub draw_id : b.draw_id ≡ a.draw_id
  pub draw_timestamp : b.draw_timestamp ≡ a.draw_timestamp
  pub prize : ¬ (a.status ≡ StakingEntitlementStatus.reserved) → b.prize ≡ a.prize
  pub begun :
      ¬ (a.status ≡ StakingEntitlementStatus.reserved)
      → ¬ (b.status ≡ StakingEntitlementStatus.reserved)
  pub confirmed :
      a.status ≡ StakingEntitlementStatus.confirmed → b.status ≡ StakingEntitlementStatus.confirmed

abbrev pub SameActive : Option ActiveDraw → Option ActiveDraw → Type 0
SameActive none o = Unit
SameActive (some a) none = ⊥
SameActive (some a) (some b) = SameDraw a b

-- What a later state of an entitlement says of an earlier one.
pub record Later (e f : Entitlement) : Type 0 where
  pub lottery_name : f.lottery_name ≡ e.lottery_name
  pub wallet : f.wallet ≡ e.wallet
  pub generation : e.generation ≤ f.generation
  pub spaced :
      e.next_eligible_at + min_draw_interval * (f.generation - e.generation) ≤ f.next_eligible_at
  pub same :
      f.generation ≡ e.generation
      → SameActive e.active f.active × (f.next_eligible_at ≡ e.next_eligible_at)

abbrev pub LaterOption : Option Entitlement → Option Entitlement → Type 0
LaterOption none p = Unit
LaterOption (some e) none = ⊥
LaterOption (some e) (some f) = Later e f

settled_begun : (o : Option ℕ) → ¬ (settled_status o ≡ StakingEntitlementStatus.reserved)
settled_begun none h = cc
settled_begun (some p) h = cc

settled_open : (o : Option ℕ) → ¬ (settled_status o ≡ StakingEntitlementStatus.confirmed)
settled_open none h = cc
settled_open (some p) h = cc

SameDraw-refl : (a : ActiveDraw) → SameDraw a a
SameDraw-refl a = record {
  draw_id = refl;
  draw_timestamp = refl;
  prize = λ h. refl;
  begun = λ h. h;
  confirmed = λ h. h;
}

SameDraw-trans : (a b c : ActiveDraw) → SameDraw a b → SameDraw b c → SameDraw a c
SameDraw-trans a b c x y = record {
  draw_id = y.draw_id ∙ x.draw_id;
  draw_timestamp = y.draw_timestamp ∙ x.draw_timestamp;
  prize = λ h. y.prize (x.begun h) ∙ x.prize h;
  begun = λ h. y.begun (x.begun h);
  confirmed = λ h. y.confirmed (x.confirmed h);
}

Advance-SameDraw : {a b : ActiveDraw} → Advance a b → SameDraw a b
Advance-SameDraw {a} {b} (choose prize s e) = rw e (record {
  draw_id = refl;
  draw_timestamp = refl;
  prize = λ h. absurd (h s);
  begun = λ h k. cc;
  confirmed = λ h. cc (h, s);
})
Advance-SameDraw {a} {b} (materialize prize s e) = rw e (record {
  draw_id = refl;
  draw_timestamp = refl;
  prize = λ h. refl;
  begun = λ h. settled_begun prize;
  confirmed = λ h. elim s [ inl p ↦ cc (h, p) | inr p ↦ absurd (settled_open prize (cc (h, p))) ];
})
Advance-SameDraw {a} {b} (confirm e) = rw e (record {
  draw_id = refl;
  draw_timestamp = refl;
  prize = λ h. refl;
  begun = λ h k. cc;
  confirmed = λ h. refl;
})
Advance-SameDraw {a} {b} (doubt s e) = rw e (record {
  draw_id = refl;
  draw_timestamp = refl;
  prize = λ h. refl;
  begun = λ h k. cc;
  confirmed = λ h. absurd (s h);
})

SameActive-refl : (o : Option ActiveDraw) → SameActive o o
SameActive-refl none = tt
SameActive-refl (some a) = SameDraw-refl a

SameActive-trans : (o p q : Option ActiveDraw) → SameActive o p → SameActive p q → SameActive o q
SameActive-trans none p q x y = tt
SameActive-trans (some a) none q x y = elim x [ ]
SameActive-trans (some a) (some b) none x y = elim y [ ]
SameActive-trans (some a) (some b) (some c) x y = SameDraw-trans a b c x y

Later-refl : (e : Entitlement) → Later e e
Later-refl e = record {
  lottery_name = refl;
  wallet = refl;
  generation = omega arith;
  spaced = omega arith;
  same = λ h. (SameActive-refl e.active, refl);
}

Later-trans : (e f g : Entitlement) → Later e f → Later f g → Later e g
Later-trans e f g x y = record {
  lottery_name = y.lottery_name ∙ x.lottery_name;
  wallet = y.wallet ∙ x.wallet;
  generation = omega (arith, x.generation, y.generation);
  spaced = omega (arith, x.generation, y.generation, x.spaced, y.spaced);
  same = λ h.
      let (a, m) = x.same (omega (arith, x.generation, y.generation, h)) in
      let (b, n) = y.same (omega (arith, x.generation, y.generation, h)) in
      (SameActive-trans e.active f.active g.active a b, n ∙ m);
}

Later-reserve :
    (e : Entitlement) (now : ℕ) (id : Text)
    → e.next_eligible_at ≤ now
    → Later e (with_reservation now id e)
Later-reserve e now id h = record {
  lottery_name = refl;
  wallet = refl;
  generation = omega arith;
  spaced = omega arith;
  same = λ k. absurd (omega (arith, k));
}

Later-advance :
    (e : Entitlement) (a b : ActiveDraw)
    → e.active ≡ some a
    → SameDraw a b
    → Later e (with_active b e)
Later-advance e a b h s = record {
  lottery_name = refl;
  wallet = refl;
  generation = omega arith;
  spaced = omega arith;
  same = λ k. (rw h s, refl);
}

LaterOption-trans :
    (o p q : Option Entitlement) → LaterOption o p → LaterOption p q → LaterOption o q
LaterOption-trans none p q x y = tt
LaterOption-trans (some e) none q x y = elim x [ ]
LaterOption-trans (some e) (some f) none x y = elim y [ ]
LaterOption-trans (some e) (some f) (some g) x y = Later-trans e f g x y

LaterOption-refl : (o : Option Entitlement) → LaterOption o o
LaterOption-refl none = tt
LaterOption-refl (some e) = Later-refl e

Step-LaterOption : (o p : Option Entitlement) → Step o p → LaterOption o p
Step-LaterOption o p (start e h k g) = rw h tt
Step-LaterOption o p (renew e now id h due free k) = rw (h, k) (Later-reserve e now id due)
Step-LaterOption o p (progress e a b h act s k) =
    rw (h, k) (Later-advance e a b act (Advance-SameDraw s))

-- Between any two states of an entitlement, the names stay, and every draw that begins moves the
-- next one a day further; without a new draw, the draw under way stays the same.
pub Reach-LaterOption : {o p : Option Entitlement} → Reach o p → LaterOption o p
Reach-LaterOption {o} here = LaterOption-refl o
Reach-LaterOption {o} {p} (next {p = m} r s) =
    LaterOption-trans o m p (Reach-LaterOption r) (Step-LaterOption m p s)
