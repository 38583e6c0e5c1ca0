-- ===== src/Lottery/Backfill/Migration.antt =====
-- The migration of a document beside other workers.
use cometa_backend.Base.{
  ℕ, zero, suc, ◌≡◌, refl, ap, Bool, true, false, ◌||◌, arith, if◌then◌else◌, Bool-cases, inl, inr,
}
use cometa_backend.Base.Exec.{raise, raise_if, lift}
use cometa_backend.Base.Shared.{World, call, cases}
use cometa_backend.Base.Rely.{
  Behaves, Post, Run, Run-raise, Run-raise_if, Run-bind, Run-then, Run-lift, Run-cases, Run-if,
}
use cometa_backend.Base.Text.{Text, text_eq, text_eq_iff}
use cometa_backend.Lottery.Model.{
  Field, value, StatusText, Draw, Db, Lottery, is_empty, find_document, update_document, read,
  invalid_claimed_state, kept_changing, draw_disappeared,
}
use cometa_backend.Lottery.Keeps.{
  Keeps, Keeps-refl, Keeps-trans, HeldIn, HeldIn-later, Extends, shared,
}
use cometa_backend.Lottery.Writes.{IsUpdate, Found, Updated, find_again-Run, update-Run}
use cometa_backend.Lottery.Backfill.{
  LotteryDraw, field_eq, bool_eq, is_missing_status, is_missing_claimed, is_invalid_claimed,
  is_complete, checked_fields, checked, draw_id_value, is_unchanged, migrate, round, reread,
  migration, backfill_from, backfill_draw_id,
}

-- A draw that was read of the document `d`: what was drawn and paid is that of `d`, it is on record,
-- and its ID is not empty.
pub record IsRead (d : Draw) (draw : LotteryDraw) (db : Db) : Type 0 where
  pub keeps : Keeps d draw.document
  pub held : HeldIn draw.document db.draws
  pub id : draw.document.id ≡ value draw.id
  pub full : is_empty draw.id ≡ false
  pub claimed : draw.document.claimed ≡ value draw.claimed
  pub payout_status : draw.document.payout_status ≡ value draw.payout_status

checked_fields_lem :
    (d e : Draw) (i : Field Text) (s : Field StatusText) (c : Field Bool) (db : Db)
    → e.id ≡ i
    → e.payout_status ≡ s
    → e.claimed ≡ c
    → Keeps d e
    → HeldIn e db.draws
    → Post shared (IsRead d) (checked_fields e i s c) db
unfolding checked_fields
checked_fields_lem d e (value t) (value s) (value b) db hi hs hc k h =
    elim (Bool-cases (is_empty t || is_missing_status (value s))) [
      | inl refused ↦ rw refused tt
      | inr taken ↦ rw taken (record {
        keeps = k;
        held = h;
        id = hi;
        full = ground (arith, taken);
        claimed = hc;
        payout_status = hs;
      })
    ]
checked_fields_lem d e i s c db hi hs hc k h = tt

checked_lem :
    (d e : Draw) (db : Db) → Keeps d e → HeldIn e db.draws → Post shared (IsRead d) (checked e) db
unfolding checked
checked_lem d e db k h = checked_fields_lem d e e.id e.payout_status e.claimed db refl refl refl k h

module _ (digest : Text → Text) where
  id_kept :
      (d : Draw) (i : Field Text) (t : Text)
      → d.id ≡ i
      → field_eq text_eq i (value t) ≡ true
      → is_empty t ≡ false
      → draw_id_value digest d ≡ t
  unfolding draw_id_value
  id_kept d (value u) t h same full = let e = (text_eq_iff u t).0 same in rw (h, e, full) refl
  id_kept d i t h same full = cc

  claimed_kept :
      (c : Field Bool) → field_eq bool_eq c (value true) ≡ true → is_missing_claimed c ≡ false
  claimed_kept (value b) h = refl
  claimed_kept c h = cc

  migrate-IsUpdate : (d : Draw) → IsUpdate (is_unchanged digest d) (migrate digest d)
  unfolding migrate
  migrate-IsUpdate d now same = record {
    document_id = refl;
    wallet = refl;
    prize = refl;
    timestamp = refl;
    lottery_name = refl;
    entitlement_id = refl;
    entitlement_generation = refl;
    id = λ t h full.
        let first : field_eq text_eq d.id now.id ≡ true = ground (arith, same) in
        ap value (id_kept d d.id t refl (rw⁻¹ h first) full);
    payout_operation_id = λ t h. h;
    claimed = λ h.
        let third : field_eq bool_eq d.claimed now.claimed ≡ true = ground (arith, same) in
        rw (claimed_kept d.claimed (rw⁻¹ h third)) (h, refl, refl);
  }

  round-Run :
      (d e : Draw) (rest : Lottery LotteryDraw) (w : World Db)
      → Behaves shared w
      → Keeps d e
      → HeldIn e w.db.draws
      → ((u : World Db) → Behaves shared u → Extends w.db u.db → Run shared (IsRead d) u (rest u))
      → Run shared (IsRead d) w (round digest e rest w)
  unfolding round
  round-Run d e rest w b k h next =
      let go = if◌then◌else◌ (is_complete e) (lift (checked e)) rest in
      Run-then shared w (raise_if (is_invalid_claimed e.claimed) invalid_claimed_state) go
        (Run-raise_if shared (is_invalid_claimed e.claimed) invalid_claimed_state w b)
        (λ u c r.
          Run-if shared u (is_complete e) (lift (checked e)) rest
            (λ complete.
              Run-lift shared u (checked e) c
                (checked_lem d e u.db k (HeldIn-later e w.db.draws u.db.draws h r.draws)))
            (λ old. next u c r))

  reread-Run :
      (d e : Draw) (again : Draw → Lottery LotteryDraw) (w : World Db)
      → Behaves shared w
      → Keeps d e
      → HeldIn e w.db.draws
      → ((f : Draw) (u : World Db)
          → Behaves shared u
          → Keeps d f
          → HeldIn f u.db.draws
          → Run shared (IsRead d) u (again f u))
      → Run shared (IsRead d) w (reread digest e again w)
  unfolding reread
  reread-Run d e again w b k h next =
      Run-bind shared w (call (read (λ db. find_document e.document_id db.draws)))
        (λ updated. cases updated (raise draw_disappeared) again) (find_again-Run e w b h)
        (λ o u c r q.
          Run-cases shared (Found e) u o (raise draw_disappeared) again q
            (λ n. Run-raise shared u draw_disappeared c)
            (λ f p. next f u c (Keeps-trans d e f k p.0) p.1))

  migration-Run :
      (d e : Draw) (again : Draw → Lottery LotteryDraw) (w : World Db)
      → Behaves shared w
      → Keeps d e
      → HeldIn e w.db.draws
      → ((f : Draw) (u : World Db)
          → Behaves shared u
          → Keeps d f
          → HeldIn f u.db.draws
          → Run shared (IsRead d) u (again f u))
      → Run shared (IsRead d) w (migration digest e again w)
  unfolding migration
  migration-Run d e again w b k h next =
      Run-bind shared w
        (call (update_document e.document_id (is_unchanged digest e) (migrate digest e)))
        (λ migrated. cases migrated (reread digest e again) (λ f. lift (checked f)))
        (update-Run e (is_unchanged digest e) (migrate digest e) w b h (migrate-IsUpdate e))
        (λ o u c r q.
          Run-cases shared (Updated e (is_unchanged digest e) (migrate digest e)) u o
            (reread digest e again) (λ f. lift (checked f)) q
            (λ n. reread-Run d e again u c k (HeldIn-later e w.db.draws u.db.draws h r.draws) next)
            (λ f p.
              Run-lift shared u (checked f) c (checked_lem d f u.db (Keeps-trans d e f k p.0) p.1)))

  backfill_from-Run :
      (n : ℕ) (d e : Draw) (w : World Db)
      → Behaves shared w
      → Keeps d e
      → HeldIn e w.db.draws
      → Run shared (IsRead d) w (backfill_from digest n e w)
  unfolding backfill_from
  backfill_from-Run zero d e w b k h =
      round-Run d e (raise kept_changing) w b k h (λ u c r. Run-raise shared u kept_changing c)
  backfill_from-Run (suc m) d e w b k h =
      round-Run d e (migration digest e (backfill_from digest m)) w b k h (λ u c r.
        migration-Run d e (backfill_from digest m) u c k
          (HeldIn-later e w.db.draws u.db.draws h r.draws)
          (λ f v c' k' h'. backfill_from-Run m d f v c' k' h'))

  -- Whatever other workers write meanwhile within the same rules, the migration of a document on
  -- record keeps what was drawn and paid, and what it returns is a draw of that document, on record,
  -- with an ID that is not empty.
  pub backfill_draw_id-Run :
      (d : Draw) (w : World Db)
      → Behaves shared w
      → HeldIn d w.db.draws
      → Run shared (IsRead d) w (backfill_draw_id digest d w)
  unfolding backfill_draw_id
  backfill_draw_id-Run d w b h = backfill_from-Run 3 d d w b (Keeps-refl d) h
