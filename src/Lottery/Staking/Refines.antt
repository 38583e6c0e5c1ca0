-- ===== src/Lottery/Staking/Refines.antt =====
-- The claim of an entitlement and the choice of its prize, beside other workers.
use cometa_backend.Base.Exec.{◌>>=◌}
use cometa_backend.Base.Text.{Text}
use cometa_backend.Base.{
  ◌≡◌, ◌∙◌, sym, ap, arith, inl, inr, Bool-cases, true, [], ◌∷◌, some, if◌then◌else◌, none, ℕ,
  Option, List, refl,
}
use cometa_backend.Base.Shared.{cases, call, World}
use cometa_backend.Base.Rely.{
  Run-then, Run-call, Run-pure, Run-raise, Run-bind, Run-cases, Run-if, Behaves, Run,
}
use cometa_backend.Lottery.Entitlement.{reserve_draw, seed_staking_entitlement}
use cometa_backend.Lottery.Model.{
  LotteryError, find_draw, StakingEntitlementStatus, entitlement_disappeared, read,
}
use cometa_backend.Lottery.Protocol.{
  confirm, with_status, choose, with_prize, with_active, Reach-trans,
}
use cometa_backend.Lottery.Entitlement.Progress.{
  reserve_draw-Run, seed_staking_entitlement-Run, has_status_sound, update_active-Run,
  find_entitlement-Run, Was, WasOption, WasAs, update_active_as-Run, some_inj,
}
use cometa_backend.Lottery.Keeps.{Extends-refl, Extends, shared}
use cometa_backend.Lottery.Staking.{
  is_paid, is_helped, helped, is_usable, no_active_draw, has_status, not_recoverable, no_fresh_id,
  update_active, raise, find_entitlement, pure, is_repairable, staking_entitlement_id,
  claim_staking_entitlement, ActiveDraw, Draw, Lottery, after_repair, Db, confirm_paid,
  choose_prize, not_prepared, usable, not_claimed, recover, Entitlement, repair,
  prepare_staking_prize,
}

repair-Run :
    (key : Text) (e : Entitlement) (a : ActiveDraw) (w : World Db)
    → Behaves shared w
    → Run shared (WasOption key) w (repair key e a w)
unfolding repair confirm_paid
repair-Run key e a w b =
    Run-if shared w (is_repairable a)
      (call (read (λ db. find_draw a.draw_id db.draws)) >>= confirm_paid key e a) (pure none)
      (λ yes.
        Run-bind shared w (call (read (λ db. find_draw a.draw_id db.draws))) (confirm_paid key e a)
          (Run-call shared {Q = λ o db. Unit} w (read (λ db. find_draw a.draw_id db.draws)) b
            (λ db r. (Extends-refl db, tt)))
          (λ o u c r q.
            Run-if shared u (is_paid o)
              (update_active key e.generation a.draw_id (has_status a.status)
                (with_status StakingEntitlementStatus.confirmed))
              (pure none)
              (λ paid.
                update_active-Run key e.generation a.draw_id (has_status a.status)
                  (with_status StakingEntitlementStatus.confirmed) u c (λ x h. confirm refl))
              (λ unpaid. Run-pure shared u none c tt)))
      (λ no. Run-pure shared w none b tt)

pub Was-later : (key : Text) (e : Entitlement) (d f : Db) → Extends d f → Was key e d → Was key e f
Was-later key e d f x r = Reach-trans r (x.entitlements key)

recover-Run :
    (key : Text) (again : Lottery (Option Entitlement)) (e : Entitlement) (w : World Db)
    → Behaves shared w
    → Was key e w.db
    → ((u : World Db) → Behaves shared u → Run shared (WasOption key) u (again u))
    → Run shared (WasOption key) w (recover key again e w)
unfolding recover after_repair
recover-Run key again e w b was next =
    Run-cases shared (λ o db. Unit) w e.active (pure none)
      (λ a. repair key e a >>= after_repair e a again) tt (λ n. Run-pure shared w none b tt)
      (λ a p.
        Run-bind shared w (repair key e a) (after_repair e a again) (repair-Run key e a w b)
          (λ o u c r q.
            Run-cases shared (WasOption key) u o (helped e a) (λ f. again) q
              (λ n.
                Run-if shared u (is_helped a) (pure (some e)) (pure none)
                  (λ yes. Run-pure shared u (some e) c (Was-later key e w.db u.db r was))
                  (λ no. Run-pure shared u none c tt))
              (λ f k. next u c)))

not_claimed-Run :
    (key : Text) (again : Lottery (Option Entitlement)) (w : World Db)
    → Behaves shared w
    → ((u : World Db) → Behaves shared u → Run shared (WasOption key) u (again u))
    → Run shared (WasOption key) w (not_claimed key again w)
unfolding not_claimed
not_claimed-Run key again w b next =
    Run-bind shared w (find_entitlement key)
      (λ current. cases current (raise entitlement_disappeared) (recover key again))
      (find_entitlement-Run key w b)
      (λ o u c r q.
        Run-cases shared (WasOption key) u o (raise entitlement_disappeared) (recover key again) q
          (λ n. Run-raise shared u entitlement_disappeared c)
          (λ e p. recover-Run key again e u c p next))

module _ (digest : Text → Text) (newest : List Draw → Option Text) where
  pub claim_staking_entitlement-Run :
      (lottery_name wallet : Text) (now : ℕ) (ids : List Text) (w : World Db)
      → Behaves shared w
      → Run shared
          (WasOption (staking_entitlement_id digest lottery_name wallet))
          w
          (claim_staking_entitlement digest newest lottery_name wallet now ids w)
  unfolding claim_staking_entitlement
  claim_staking_entitlement-Run lottery_name wallet now [] w b = Run-raise shared w no_fresh_id b
  claim_staking_entitlement-Run lottery_name wallet now (id ∷ ids) w b =
      let key = staking_entitlement_id digest lottery_name wallet in
      let again = claim_staking_entitlement digest newest lottery_name wallet now ids in
      let given = λ (e : Entitlement). pure {S = World Db} {E = LotteryError} (some e) in
      Run-then shared w (seed_staking_entitlement digest newest lottery_name wallet now)
        (reserve_draw key now id >>= (λ claimed. cases claimed (not_claimed key again) given))
        (seed_staking_entitlement-Run digest newest lottery_name wallet now w b)
        (λ u c r.
          Run-bind shared u (reserve_draw key now id)
            (λ claimed. cases claimed (not_claimed key again) given)
            (reserve_draw-Run key now id u c)
            (λ o v c' r' q.
              Run-cases shared (WasOption key) v o (not_claimed key again) given q
                (λ n.
                  not_claimed-Run key again v c'
                    (λ x y. claim_staking_entitlement-Run lottery_name wallet now ids x y))
                (λ e p. Run-pure shared v (some e) c' p)))

reserved_not_usable :
    (a : ActiveDraw) → a.status ≡ StakingEntitlementStatus.reserved → ¬ (is_usable a ≡ true)
reserved_not_usable a r h = elim (Bool-cases (has_status StakingEntitlementStatus.prepared a)) [
  | inl p ↦ cc (r, has_status_sound StakingEntitlementStatus.prepared a p)
  | inr n ↦ elim (Bool-cases (has_status StakingEntitlementStatus.materialized a)) [
    | inl p ↦ cc (r, has_status_sound StakingEntitlementStatus.materialized a p)
    | inr m ↦ cc (r, has_status_sound StakingEntitlementStatus.no_prize a (ground (arith, n, m, h)))
  ]
]

-- The prize of the draw under way is chosen.
abbrev pub IsBegun : Entitlement → Type 0
IsBegun e = (a : ActiveDraw) → e.active ≡ some a → ¬ (a.status ≡ StakingEntitlementStatus.reserved)

abbrev pub IsPrepared : Text → Entitlement → Db → Type 0
IsPrepared key e db = Was key e db × IsBegun e

usable-IsBegun :
    (e : Entitlement) (a : ActiveDraw) → e.active ≡ some a → is_usable a ≡ true → IsBegun e
usable-IsBegun e a p h b q r =
    let same : b ≡ a = some_inj (sym q ∙ p) in
    reserved_not_usable a (sym (ap (λ (x : ActiveDraw). x.status) same) ∙ r) h

with_prize-IsBegun :
    (prize : Option ℕ) (f : Entitlement) (x : ActiveDraw)
    → IsBegun (with_active (with_prize prize x) f)
with_prize-IsBegun prize f x b q r =
    let same : with_prize prize x ≡ b = some_inj q in cc (ap (λ (y : ActiveDraw). y.status) same, r)

usable-Run :
    (key : Text) (e : Entitlement) (w : World Db)
    → Behaves shared w
    → Was key e w.db
    → Run shared (IsPrepared key) w (usable e w)
unfolding usable
usable-Run key e w b was =
    Run-cases shared (λ o db. e.active ≡ o) w e.active (raise not_recoverable)
      (λ a. if◌then◌else◌ (is_usable a) (pure e) (raise not_recoverable)) refl
      (λ n. Run-raise shared w not_recoverable b)
      (λ a p.
        Run-if shared w (is_usable a) (pure e) (raise not_recoverable)
          (λ yes. Run-pure shared w e b (was, usable-IsBegun e a p yes))
          (λ no. Run-raise shared w not_recoverable b))

not_prepared-Run :
    (key : Text) (w : World Db)
    → Behaves shared w
    → Run shared (IsPrepared key) w (not_prepared key w)
unfolding not_prepared
not_prepared-Run key w b =
    Run-bind shared w (find_entitlement key)
      (λ current. cases current (raise entitlement_disappeared) usable)
      (find_entitlement-Run key w b)
      (λ o u c r q.
        Run-cases shared (WasOption key) u o (raise entitlement_disappeared) usable q
          (λ n. Run-raise shared u entitlement_disappeared c) (λ f p. usable-Run key f u c p))

choose_prize-Run :
    (key : Text) (prize : Option ℕ) (e : Entitlement) (a : ActiveDraw) (w : World Db)
    → Behaves shared w
    → Run shared (IsPrepared key) w (choose_prize key prize e a w)
unfolding choose_prize
choose_prize-Run key prize e a w b =
    Run-bind shared w
      (update_active key e.generation a.draw_id (has_status StakingEntitlementStatus.reserved)
        (with_prize prize))
      (λ prepared. cases prepared (not_prepared key) pure)
      (update_active_as-Run IsBegun key e.generation a.draw_id
        (has_status StakingEntitlementStatus.reserved) (with_prize prize) w b
        (λ x h. choose prize (has_status_sound StakingEntitlementStatus.reserved x h) refl)
        (λ f x. with_prize-IsBegun prize f x))
      (λ o u c r q.
        Run-cases shared (WasAs IsBegun key) u o (not_prepared key) pure q
          (λ n. not_prepared-Run key u c) (λ f p. Run-pure shared u f c p))

pub prepare_staking_prize-Run :
    (key : Text) (prize : Option ℕ) (e : Entitlement) (w : World Db)
    → Behaves shared w
    → Was key e w.db
    → Run shared (IsPrepared key) w (prepare_staking_prize key prize e w)
unfolding prepare_staking_prize
prepare_staking_prize-Run key prize e w b was =
    Run-cases shared (λ o db. Unit) w e.active (raise no_active_draw)
      (λ a.
        if◌then◌else◌ (has_status StakingEntitlementStatus.reserved a) (choose_prize key prize e a)
          (usable e))
      tt (λ n. Run-raise shared w no_active_draw b)
      (λ a p.
        Run-if shared w (has_status StakingEntitlementStatus.reserved a)
          (choose_prize key prize e a) (usable e) (λ yes. choose_prize-Run key prize e a w b)
          (λ no. usable-Run key e w b was))
