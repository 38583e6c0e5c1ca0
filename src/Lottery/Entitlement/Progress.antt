-- ===== src/Lottery/Entitlement/Progress.antt =====
-- The writes of entitlements as steps of their protocol, beside other workers.
use mathlib.Core.Path.{subst}
use cometa_backend.Base.{
  List, ℕ, ◌≡◌, refl, sym, ap, ◌⊎◌, Bool, true, ◌&&◌, Option, none, some, arith, leb, ◌==◌,
  Bool-cases, Option-cases, inl, inr,
}
use cometa_backend.Base.Shared.{cases, World, call}
use cometa_backend.Base.Rely.{Run-pure, Run-cases, Run-bind, Behaves, Post, Run, Run-call}
use cometa_backend.Base.Text.{Text, text_eq, text_eq_refl}
use cometa_backend.Lottery.Backfill.Migration.{backfill_draw_id-Run}
use cometa_backend.Lottery.Model.{
  value, Field, find_under, Draw, StakingEntitlementStatus, ActiveDraw, Entitlement, Db, read,
}
use cometa_backend.Lottery.Protocol.{
  is_free, with_active, with_status, Advance, confirm, doubt, Step, start, renew, progress, Reach,
  here,
}
use cometa_backend.Lottery.Keeps.{HeldIn-later, HeldIn, Extends, Extends-refl, shared}
use cometa_backend.Lottery.Writes.{find_under-IsHeld, IsHeld, Extends-entitlement}
use cometa_backend.Lottery.Entitlement.{
  first_of, ◌>>=◌, new_entitlement, outstanding, pure, of_wallet, backfill_draw_id,
  staking_entitlement_id, seed_read, seed_staking_entitlement, seed_from, unmatched,
  update_staking_entitlement_status, update_status, has_status, entitlement_number, may_become,
  write_entitlement, changed_active, inserted, with_draw_reserved, update_active,
  insert_entitlement, reserve_draw, find_entitlement,
}

-- The entitlement of `key` was `e` at some time.
abbrev pub Was : Text → Entitlement → Db → Type 0
Was key e db = Reach (some e) (db.entitlements key)

abbrev pub WasOption : Text → Option Entitlement → Db → Type 0
WasOption key none db = Unit
WasOption key (some e) db = Was key e db

pub some_inj : {A : Type 0} {a b : A} → some a ≡ some b → a ≡ b
some_inj {A} {a} {b} h = cc

number_sound :
    (s t : StakingEntitlementStatus) → (entitlement_number s == entitlement_number t) ≡ true → s ≡ t
number_sound s t h = ground arith

pub has_status_sound :
    (s : StakingEntitlementStatus) (a : ActiveDraw) → has_status s a ≡ true → a.status ≡ s
has_status_sound s a h = number_sound a.status s h

-- What was found and changed is a step.
abbrev IsStep : (Option Entitlement → Option Entitlement) → Type 0
IsStep change = (o : Option Entitlement) (e : Entitlement) → change o ≡ some e → Step o (some e)

written :
    (key : Text) (change : Option Entitlement → Option Entitlement) (db : Db)
    (o : Option Entitlement)
    → IsStep change
    → change (db.entitlements key) ≡ o
    → Extends db (write_entitlement key change db).1
      × Post shared
          (WasOption key)
          (write_entitlement key change db).0
          (write_entitlement key change db).1
unfolding write_entitlement
written key change db none steps h = simp (h, write_entitlement) (Extends-refl db, tt)
written key change db (some e) steps h =
    simp (h, write_entitlement, text_eq_refl key)
      (Extends-entitlement db key e (steps (db.entitlements key) e h), here)

-- The entitlement was so at some time, and is one of `R`.
abbrev pub WasAs : (Entitlement → Type 0) → Text → Option Entitlement → Db → Type 0
WasAs R key none db = Unit
WasAs R key (some e) db = Was key e db × R e

written_as :
    (R : Entitlement → Type 0) (key : Text) (change : Option Entitlement → Option Entitlement)
    (db : Db) (o : Option Entitlement)
    → IsStep change
    → ((p : Option Entitlement) (e : Entitlement) → change p ≡ some e → R e)
    → change (db.entitlements key) ≡ o
    → Extends db (write_entitlement key change db).1
      × Post shared
          (WasAs R key)
          (write_entitlement key change db).0
          (write_entitlement key change db).1
unfolding write_entitlement
written_as R key change db none steps fits h = simp (h, write_entitlement) (Extends-refl db, tt)
written_as R key change db (some e) steps fits h =
    simp (h, write_entitlement, text_eq_refl key)
      (
        Extends-entitlement db key e (steps (db.entitlements key) e h),
        (here, fits (db.entitlements key) e h),
      )

pub write_entitlement-Run :
    (key : Text) (change : Option Entitlement → Option Entitlement) (w : World Db)
    → Behaves shared w
    → IsStep change
    → Run shared (WasOption key) w (call (write_entitlement key change) w)
write_entitlement-Run key change w b steps =
    Run-call shared w (write_entitlement key change) b
      (λ db r. written key change db (change (db.entitlements key)) steps refl)

abbrev pub IsAdvance : (ActiveDraw → Bool) → (ActiveDraw → ActiveDraw) → Type 0
IsAdvance test change = (a : ActiveDraw) → test a ≡ true → Advance a (change a)

not_confirmed :
    (a : ActiveDraw) (s : StakingEntitlementStatus)
    → s ≡ StakingEntitlementStatus.unresolved
    → may_become s a ≡ true
    → ¬ (a.status ≡ StakingEntitlementStatus.confirmed)
not_confirmed a s u h c = ground (arith, u, h, c)

changed_none :
    (generation : ℕ) (id : Text) (test : ActiveDraw → Bool) (change : ActiveDraw → ActiveDraw)
    (f e : Entitlement)
    → f.active ≡ none
    → ¬ (changed_active generation id test change (some f) ≡ some e)
unfolding changed_active
changed_none generation id test change f e n h = ground (arith, n, h)

changed_some :
    (generation : ℕ) (id : Text) (test : ActiveDraw → Bool) (change : ActiveDraw → ActiveDraw)
    (f e : Entitlement) (a : ActiveDraw)
    → f.active ≡ some a
    → changed_active generation id test change (some f) ≡ some e
    → (test a ≡ true) × (e ≡ with_active (change a) f)
unfolding changed_active
changed_some generation id test change f e a k h =
    elim (Bool-cases (f.generation == generation && (text_eq a.draw_id id && test a))) [
      | inl match ↦ (ground (arith, match), sym (some_inj (simp (k, match) at h)))
      | inr other ↦ ground (arith, k, other, h)
    ]

changed_active-IsStep :
    (generation : ℕ) (id : Text) (test : ActiveDraw → Bool) (change : ActiveDraw → ActiveDraw)
    → IsAdvance test change
    → IsStep (changed_active generation id test change)
unfolding changed_active
changed_active-IsStep generation id test change adv none e h = cc
changed_active-IsStep generation id test change adv (some f) e h = elim (Option-cases f.active) [
  | inl n ↦ absurd (changed_none generation id test change f e n h)
  | inr (a, k) ↦
      let (match, same) = changed_some generation id test change f e a k h in
      progress f a (change a) refl k (adv a match) (ap some same)
]

changed_active-As :
    (R : Entitlement → Type 0) (generation : ℕ) (id : Text) (test : ActiveDraw → Bool)
    (change : ActiveDraw → ActiveDraw)
    → ((f : Entitlement) (a : ActiveDraw) → R (with_active (change a) f))
    → (o : Option Entitlement) (e : Entitlement)
    → changed_active generation id test change o ≡ some e
    → R e
unfolding changed_active
changed_active-As R generation id test change fits none e h = cc
changed_active-As R generation id test change fits (some f) e h = elim (Option-cases f.active) [
  | inl n ↦ absurd (changed_none generation id test change f e n h)
  | inr (a, k) ↦ subst R (sym (changed_some generation id test change f e a k h).1) (fits f a)
]

inserted-IsStep :
    (seed_document : Entitlement) → seed_document.generation ≡ 0 → IsStep (inserted seed_document)
unfolding inserted
inserted-IsStep s zero_generation none e h = start e refl refl (ground (arith, zero_generation, h))
inserted-IsStep s zero_generation (some f) e h = cc

with_draw_reserved-IsStep : (now : ℕ) (id : Text) → IsStep (with_draw_reserved now id)
unfolding with_draw_reserved
with_draw_reserved-IsStep now id none e h = cc
with_draw_reserved-IsStep now id (some f) e h =
    elim (Bool-cases (leb f.next_eligible_at now && is_free f.active)) [
      | inl due ↦
          renew f now id refl (ground (arith, due)) (ground (arith, due)) (sym (simp due at h))
      | inr early ↦ absurd (ground (arith, early, h))
    ]

pub update_active-Run :
    (key : Text) (generation : ℕ) (id : Text) (test : ActiveDraw → Bool)
    (change : ActiveDraw → ActiveDraw) (w : World Db)
    → Behaves shared w
    → IsAdvance test change
    → Run shared (WasOption key) w (update_active key generation id test change w)
unfolding update_active
update_active-Run key generation id test change w b adv =
    write_entitlement-Run key (changed_active generation id test change) w b
      (changed_active-IsStep generation id test change adv)

-- The same, where the changed draw says what the entitlement then is.
pub update_active_as-Run :
    (R : Entitlement → Type 0) (key : Text) (generation : ℕ) (id : Text) (test : ActiveDraw → Bool)
    (change : ActiveDraw → ActiveDraw) (w : World Db)
    → Behaves shared w
    → IsAdvance test change
    → ((f : Entitlement) (a : ActiveDraw) → R (with_active (change a) f))
    → Run shared (WasAs R key) w (update_active key generation id test change w)
unfolding update_active
update_active_as-Run R key generation id test change w b adv fits =
    let changed = changed_active generation id test change in
    Run-call shared w (write_entitlement key changed) b (λ db r.
      written_as R key changed db (changed (db.entitlements key))
        (changed_active-IsStep generation id test change adv)
        (changed_active-As R generation id test change fits) refl)

pub insert_entitlement-Run :
    (key : Text) (s : Entitlement) (w : World Db)
    → Behaves shared w
    → s.generation ≡ 0
    → Run shared (WasOption key) w (insert_entitlement key s w)
unfolding insert_entitlement
insert_entitlement-Run key s w b g =
    write_entitlement-Run key (inserted s) w b (inserted-IsStep s g)

pub reserve_draw-Run :
    (key : Text) (now : ℕ) (id : Text) (w : World Db)
    → Behaves shared w
    → Run shared (WasOption key) w (reserve_draw key now id w)
unfolding reserve_draw
reserve_draw-Run key now id w b =
    write_entitlement-Run key (with_draw_reserved now id) w b (with_draw_reserved-IsStep now id)

read_entitlement :
    (key : Text) (db : Db) (o : Option Entitlement) → db.entitlements key ≡ o → WasOption key o db
read_entitlement key db none h = tt
read_entitlement key db (some e) h = rw h here

pub find_entitlement-Run :
    (key : Text) (w : World Db)
    → Behaves shared w
    → Run shared (WasOption key) w (find_entitlement key w)
unfolding find_entitlement
find_entitlement-Run key w b =
    Run-call shared w (read (λ db. db.entitlements key)) b
      (λ db r. (Extends-refl db, read_entitlement key db (db.entitlements key) refl))

may_become-IsAdvance :
    (s : StakingEntitlementStatus)
    → (s ≡ StakingEntitlementStatus.confirmed) ⊎ (s ≡ StakingEntitlementStatus.unresolved)
    → IsAdvance (may_become s) (with_status s)
may_become-IsAdvance s (inl c) a h = confirm (rw c refl)
may_become-IsAdvance s (inr u) a h = doubt (not_confirmed a s u h) (rw u refl)

-- The statuses that the payouts give to an entitlement.
abbrev pub IsVerdict : StakingEntitlementStatus → Type 0
IsVerdict s = (s ≡ StakingEntitlementStatus.confirmed) ⊎ (s ≡ StakingEntitlementStatus.unresolved)

update_status-Run :
    (key : Text) (generation : ℕ) (id : Text) (s : StakingEntitlementStatus) (w : World Db)
    → Behaves shared w
    → IsVerdict s
    → Run shared (λ x db. Unit) w (update_status key generation id s w)
unfolding update_status unmatched
update_status-Run key generation id s w b v =
    Run-bind shared w (update_active key generation id (may_become s) (with_status s))
      (λ updated. cases updated (unmatched key) (λ e. pure tt))
      (update_active-Run key generation id (may_become s) (with_status s) w b
        (may_become-IsAdvance s v))
      (λ o u c r q.
        Run-cases shared (WasOption key) u o (unmatched key) (λ e. pure tt) q
          (λ n.
            Run-bind shared u (find_entitlement key) (λ current. pure tt)
              (find_entitlement-Run key u c) (λ x v' c' r' q'. Run-pure shared v' tt c' tt))
          (λ e p. Run-pure shared u tt c tt))

pub update_staking_entitlement_status-Run :
    (key : Option Text) (generation : Option ℕ) (id : Field Text) (s : StakingEntitlementStatus)
    (w : World Db)
    → Behaves shared w
    → IsVerdict s
    → Run shared (λ x db. Unit) w (update_staking_entitlement_status key generation id s w)
unfolding update_staking_entitlement_status
update_staking_entitlement_status-Run (some key) (some generation) (value id) s w b v =
    update_status-Run key generation id s w b v
update_staking_entitlement_status-Run key generation id s w b v = Run-pure shared w tt b tt

IsHeld-later : (o : Option Draw) (d e : Db) → Extends d e → IsHeld o d → IsHeld o e
IsHeld-later none d e x h = tt
IsHeld-later (some a) d e x h = HeldIn-later a d.draws e.draws h x.draws

IsHeld-first : (o p : Option Draw) (db : Db) → IsHeld o db → IsHeld p db → IsHeld (first_of o p) db
IsHeld-first none p db h k = k
IsHeld-first (some d) p db h k = h

module _ (digest : Text → Text) (newest : List Draw → Option Text) where
  seed_from-Run :
      (key lottery_name wallet : Text) (now : ℕ) (latest : Option Draw) (document : Draw)
      (w : World Db)
      → Behaves shared w
      → HeldIn document w.db.draws
      → Run shared
          (WasOption key)
          w
          (seed_from digest newest key lottery_name wallet now latest document w)
  unfolding seed_from seed_read
  seed_from-Run key lottery_name wallet now latest document w b h =
      Run-bind shared w (backfill_draw_id digest document)
        (seed_read digest newest key lottery_name wallet now latest)
        (backfill_draw_id-Run digest document w b h)
        (λ draw u c r q. insert_entitlement-Run key _ u c refl)

  find_draw_under-Run :
      (choice : List Draw → Option Text) (w : World Db)
      → Behaves shared w
      → Run shared IsHeld w (call (read (λ db. find_under (choice db.draws) db.draws)) w)
  find_draw_under-Run choice w b =
      Run-call shared w (read (λ db. find_under (choice db.draws) db.draws)) b
        (λ db r. (Extends-refl db, find_under-IsHeld (choice db.draws) db))

  pub seed_staking_entitlement-Run :
      (lottery_name wallet : Text) (now : ℕ) (w : World Db)
      → Behaves shared w
      → Run shared
          (WasOption (staking_entitlement_id digest lottery_name wallet))
          w
          (seed_staking_entitlement digest newest lottery_name wallet now w)
  unfolding seed_staking_entitlement
  seed_staking_entitlement-Run lottery_name wallet now w b =
      let key = staking_entitlement_id digest lottery_name wallet in
      let first = λ (ds : List Draw). newest (of_wallet lottery_name wallet ds) in
      let second = λ (ds : List Draw). newest (outstanding (of_wallet lottery_name wallet ds)) in
      let fresh = insert_entitlement key (new_entitlement lottery_name wallet 0 none) in
      Run-bind shared w (call (read (λ db. find_under (first db.draws) db.draws)))
        (λ latest. call (read (λ db. find_under (second db.draws) db.draws)) >>= (λ unpaid.
          cases (first_of unpaid latest) fresh
            (seed_from digest newest key lottery_name wallet now latest)))
        (find_draw_under-Run first w b)
        (λ latest u c r q.
          Run-bind shared u (call (read (λ db. find_under (second db.draws) db.draws)))
            (λ unpaid.
              cases (first_of unpaid latest) fresh
                (seed_from digest newest key lottery_name wallet now latest))
            (find_draw_under-Run second u c)
            (λ unpaid v c' r' q'.
              Run-cases shared IsHeld v (first_of unpaid latest) fresh
                (seed_from digest newest key lottery_name wallet now latest)
                (IsHeld-first unpaid latest v.db q' (IsHeld-later latest u.db v.db r' q))
                (λ n. insert_entitlement-Run key _ v c' refl)
                (λ d p. seed_from-Run key lottery_name wallet now latest d v c' p)))
