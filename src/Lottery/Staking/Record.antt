-- ===== src/Lottery/Staking/Record.antt =====
-- The record of a staking draw, beside other workers.
use cometa_backend.Base.Exec.{◌>>=◌, raise_if, raise, pure}
use cometa_backend.Base.Text.{Text}
use cometa_backend.Base.{
  inl, inr, not, Bool-cases, List, ◌||◌, if◌then◌else◌, none, some, arith, Option, ℕ, ◌≡◌, refl,
}
use cometa_backend.Base.Shared.{call, cases, catch, World}
use cometa_backend.Base.Rely.{
  Run-weaken, Run-catch, Run-raise_if, Run-then, Run-cases, Run-next, Run-call, Post, Run-raise,
  Run-pure, Run-if, Run-bind, Behaves, Run,
}
use cometa_backend.Lottery.Index.Guard.{ensure_lottery_indexes-Run}
use cometa_backend.Lottery.Index.{ensure_lottery_indexes}
use cometa_backend.Lottery.Protocol.{materialize, with_status, settled_status}
use cometa_backend.Lottery.Staking.Refines.{
  prepare_staking_prize-Run, IsPrepared, claim_staking_entitlement-Run, Was-later,
}
use cometa_backend.Lottery.Entitlement.Progress.{
  has_status_sound, WasOption, update_active-Run, find_entitlement-Run, Was, IsAdvance,
}
use cometa_backend.Lottery.Keeps.{
  Extends-trans, Extends-refl, HeldIn-later, HeldIn, Extends, shared,
}
use cometa_backend.Lottery.Staking.{
  claim_staking_entitlement, get_or_create_staking_draw, prepare_staking_prize, claimed_draw,
  materialize_staking_draw, materialize_active, take_document, record_materialized, is_further,
  not_updated, staking_draw, upsert_failed, upsert_draw, same_draw,
}
use cometa_backend.Lottery.Entitlement.{
  staking_entitlement_id, update_active, find_entitlement, has_status,
}
use cometa_backend.Lottery.Model.{
  StakingEntitlementStatus, not_materialized, duplicate_key, different_data, no_active_draw, read,
  first_with_id, entitlement_changed, Entitlement, ActiveDraw, LotteryError, Db, find_draw, Draw,
}
use cometa_backend.Lottery.Writes.{insert_document_lem, find_under-IsHeld, IsHeld}
use cometa_backend.Lottery.Staking.Drawn.{
  IsGiven, IsDrawn-IsGiven, IsDrawn, IsDrawn-same, IsDrawn-later,
}

find_draw-IsHeld : (t : Text) (db : Db) → IsHeld (find_draw t db.draws) db
unfolding find_draw
find_draw-IsHeld t db = find_under-IsHeld (first_with_id t db.draws) db

upserted :
    (t : Text) (payload : Draw) (db : Db) (o : Option Draw)
    → find_draw t db.draws ≡ o
    → IsHeld o db
    → Extends db (upsert_draw t payload db).1
      × Post shared IsHeld (upsert_draw t payload db).0 (upsert_draw t payload db).1
unfolding upsert_draw
upserted t payload db none h k = simp (h, upsert_draw) (insert_document_lem payload db)
upserted t payload db (some d) h k = simp (h, upsert_draw) (Extends-refl db, k)

upsert_failed-Run :
    (t : Text) (e : LotteryError) (w : World Db)
    → Behaves shared w
    → Run shared IsHeld w (upsert_failed t e w)
unfolding upsert_failed
upsert_failed-Run t duplicate_key w b =
    Run-call shared w (read (λ db. find_draw t db.draws)) b
      (λ db r. (Extends-refl db, find_draw-IsHeld t db))
upsert_failed-Run t e w b = Run-raise shared w e b

module _ (key document_id lottery_name wallet : Text) where
  not_updated-Run :
      (a : ActiveDraw) (d : Draw) (w : World Db)
      → Behaves shared w
      → IsDrawn key lottery_name wallet d w.db
      → Run shared (IsDrawn key lottery_name wallet) w (not_updated key a d w)
  unfolding not_updated
  not_updated-Run a d w b h =
      Run-bind shared w (find_entitlement key)
        (λ current. if◌then◌else◌ (is_further a current) (pure d) (raise entitlement_changed))
        (find_entitlement-Run key w b)
        (λ o u c r q.
          Run-if shared u (is_further a o) (pure d) (raise entitlement_changed)
            (λ yes.
              Run-pure shared u d c
                (IsDrawn-later key document_id lottery_name wallet d w.db u.db r h))
            (λ no. Run-raise shared u entitlement_changed c))

  materialize-IsAdvance :
      (a : ActiveDraw)
      → IsAdvance
          (λ b.
            has_status StakingEntitlementStatus.prepared b || has_status (settled_status a.prize) b)
          (with_status (settled_status a.prize))
  materialize-IsAdvance a b h = elim (Bool-cases (has_status StakingEntitlementStatus.prepared b)) [
    | inl now ↦
        materialize a.prize (inl (has_status_sound StakingEntitlementStatus.prepared b now)) refl
    | inr before ↦
        materialize a.prize
          (inr (has_status_sound (settled_status a.prize) b (ground (arith, before, h)))) refl
  ]

  record_materialized-Run :
      (e : Entitlement) (a : ActiveDraw) (d : Draw) (w : World Db)
      → Behaves shared w
      → IsDrawn key lottery_name wallet d w.db
      → Run shared (IsDrawn key lottery_name wallet) w (record_materialized key e a d w)
  unfolding record_materialized
  record_materialized-Run e a d w b h =
      let test = λ (b : ActiveDraw).
        has_status StakingEntitlementStatus.prepared b || has_status (settled_status a.prize) b in
      Run-bind shared w
        (update_active key e.generation a.draw_id test (with_status (settled_status a.prize)))
        (λ updated. cases updated (not_updated key a d) (λ f. pure d))
        (update_active-Run key e.generation a.draw_id test (with_status (settled_status a.prize)) w
          b (materialize-IsAdvance a))
        (λ o u c r q.
          let now = IsDrawn-later key document_id lottery_name wallet d w.db u.db r h in
          Run-cases shared (WasOption key) u o (not_updated key a d) (λ f. pure d) q
            (λ n. not_updated-Run a d u c now) (λ f p. Run-pure shared u d c now))

  take_document-Run :
      (e : Entitlement) (a : ActiveDraw) (d : Draw) (w : World Db)
      → Behaves shared w
      → e.active ≡ some a
      → ¬ (a.status ≡ StakingEntitlementStatus.reserved)
      → Was key e w.db
      → HeldIn d w.db.draws
      → Run shared
          (IsDrawn key lottery_name wallet)
          w
          (take_document key e a (staking_draw key document_id lottery_name wallet e a) d w)
  unfolding take_document
  take_document-Run e a d w b active begun was held =
      let payload = staking_draw key document_id lottery_name wallet e a in
      Run-next shared w (raise_if (not (same_draw d payload)) different_data)
        (record_materialized key e a d)
        (Run-raise_if shared (not (same_draw d payload)) different_data w b)
        (λ x u c r same. record_materialized-Run e a d u c (
          IsDrawn-same key document_id lottery_name wallet e a d u.db active begun
            (Was-later key e w.db u.db r was) (HeldIn-later d w.db.draws u.db.draws held r.draws)
            (ground (arith, same))))

  materialize_active-Run :
      (e : Entitlement) (a : ActiveDraw) (w : World Db)
      → Behaves shared w
      → e.active ≡ some a
      → ¬ (a.status ≡ StakingEntitlementStatus.reserved)
      → Was key e w.db
      → Run shared
          (IsDrawn key lottery_name wallet)
          w
          (materialize_active key e a (staking_draw key document_id lottery_name wallet e a) w)
  unfolding materialize_active
  materialize_active-Run e a w b active begun was =
      let payload = staking_draw key document_id lottery_name wallet e a in
      let found = catch (call (upsert_draw a.draw_id payload)) (upsert_failed a.draw_id) in
      Run-then shared w ensure_lottery_indexes
        (found >>= (λ o. cases o (raise not_materialized) (take_document key e a payload)))
        (ensure_lottery_indexes-Run w b)
        (λ u c r.
          Run-bind shared u found
            (λ o. cases o (raise not_materialized) (take_document key e a payload))
            (Run-catch shared u (call (upsert_draw a.draw_id payload)) (upsert_failed a.draw_id)
              (Run-call shared u (upsert_draw a.draw_id payload) c (λ db r'.
                upserted a.draw_id payload db (find_draw a.draw_id db.draws) refl
                  (find_draw-IsHeld a.draw_id db)))
              (λ e' v c' r'. upsert_failed-Run a.draw_id e' v c'))
            (λ o v c' r' q.
              Run-cases shared IsHeld v o (raise not_materialized) (take_document key e a payload) q
                (λ n. Run-raise shared v not_materialized c')
                (λ d p.
                  take_document-Run e a d v c' active begun
                    (Was-later key e w.db v.db (Extends-trans w.db u.db v.db r r') was) p)))

  materialize_staking_draw-Run :
      (e : Entitlement) (w : World Db)
      → Behaves shared w
      → IsPrepared key e w.db
      → Run shared
          (IsDrawn key lottery_name wallet)
          w
          (materialize_staking_draw key document_id lottery_name wallet e w)
  unfolding materialize_staking_draw
  materialize_staking_draw-Run e w b was = materialize_option-Run e.active refl
    where
      materialize_option-Run :
          (o : Option ActiveDraw)
          → e.active ≡ o
          → Run shared (IsDrawn key lottery_name wallet) w (
              cases o
                (raise no_active_draw)
                (λ a.
                  materialize_active key e a (staking_draw key document_id lottery_name wallet e a))
                w)
      materialize_option-Run none h = Run-raise shared w no_active_draw b
      materialize_option-Run (some a) h = materialize_active-Run e a w b h (was.1 a h) was.0

abbrev IsDrawnOption : Text → Text → Text → Option Draw → Db → Type 0
IsDrawnOption key name owner none db = Unit
IsDrawnOption key name owner (some d) db = IsDrawn key name owner d db

claimed_draw-Run :
    (key lottery_name wallet : Text) (prize : Option ℕ) (document_id : Text) (e : Entitlement)
    (w : World Db)
    → Behaves shared w
    → Was key e w.db
    → Run shared
        (IsDrawnOption key lottery_name wallet)
        w
        (claimed_draw key lottery_name wallet prize document_id e w)
unfolding claimed_draw
claimed_draw-Run key lottery_name wallet prize document_id e w b was =
    let made = materialize_staking_draw key document_id lottery_name wallet in
    Run-bind shared w (prepare_staking_prize key prize e) (λ p. made p >>= (λ d. pure (some d)))
      (prepare_staking_prize-Run key prize e w b was)
      (λ p u c r q.
        Run-bind shared u (made p) (λ d. pure (some d))
          (materialize_staking_draw-Run key document_id lottery_name wallet p u c q)
          (λ d v c' r' drawn. Run-pure shared v (some d) c' drawn))

-- What a staking draw may return: nothing, or a draw on record that the entitlement gave.
abbrev pub IsGivenOption : Text → Text → Text → Option Draw → Db → Type 0
IsGivenOption key name owner none db = Unit
IsGivenOption key name owner (some d) db = IsGiven key name owner d db

IsDrawnOption-IsGivenOption :
    (key name owner : Text) (o : Option Draw) (db : Db)
    → IsDrawnOption key name owner o db
    → IsGivenOption key name owner o db
IsDrawnOption-IsGivenOption key name owner none db h = tt
IsDrawnOption-IsGivenOption key name owner (some d) db h = IsDrawn-IsGiven key name owner d db h

module _ (digest : Text → Text) (newest : List Draw → Option Text) where
  drawn-Run :
      (lottery_name wallet : Text) (now : ℕ) (ids : List Text) (prize : Option ℕ)
      (document_id : Text) (w : World Db)
      → Behaves shared w
      → Run shared
          (IsDrawnOption (staking_entitlement_id digest lottery_name wallet) lottery_name wallet)
          w
          (get_or_create_staking_draw digest newest lottery_name wallet now ids prize document_id w)
  unfolding get_or_create_staking_draw
  drawn-Run lottery_name wallet now ids prize document_id w b =
      let key = staking_entitlement_id digest lottery_name wallet in
      Run-bind shared w (claim_staking_entitlement digest newest lottery_name wallet now ids)
        (λ o. cases o (pure none) (claimed_draw key lottery_name wallet prize document_id))
        (claim_staking_entitlement-Run digest newest lottery_name wallet now ids w b)
        (λ o u c r q.
          Run-cases shared (WasOption key) u o (pure none)
            (claimed_draw key lottery_name wallet prize document_id) q
            (λ n. Run-pure shared u none c tt)
            (λ e p. claimed_draw-Run key lottery_name wallet prize document_id e u c p))

  -- Whatever other workers do meanwhile within the same rules, a staking draw keeps every draw on
  -- record and what was paid, changes entitlements only by steps of their protocol, and what it
  -- returns is a draw on record, of that lottery and wallet and of a generation of their entitlement
  -- that is not ahead of the one on record. As long as the entitlement is still in that generation, the
  -- draw has the very ID, time and prize that are on record there, and the prize is chosen.
  pub get_or_create_staking_draw-Run :
      (lottery_name wallet : Text) (now : ℕ) (ids : List Text) (prize : Option ℕ)
      (document_id : Text) (w : World Db)
      → Behaves shared w
      → Run shared
          (IsGivenOption (staking_entitlement_id digest lottery_name wallet) lottery_name wallet)
          w
          (get_or_create_staking_draw digest newest lottery_name wallet now ids prize document_id w)
  get_or_create_staking_draw-Run lottery_name wallet now ids prize document_id w b =
      let key = staking_entitlement_id digest lottery_name wallet in
      Run-weaken shared w
        (get_or_create_staking_draw digest newest lottery_name wallet now ids prize document_id)
        (drawn-Run lottery_name wallet now ids prize document_id w b)
        (λ o d r h. IsDrawnOption-IsGivenOption key lottery_name wallet o d h)
