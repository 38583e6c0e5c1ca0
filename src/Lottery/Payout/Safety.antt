-- ===== src/Lottery/Payout/Safety.antt =====
-- The payout of a draw and of all of them, beside other workers.
use cometa_backend.Base.Text.{Text}
use cometa_backend.Base.{arith, true, All, List, ◌&&◌, ℕ, ◌≡◌, refl, [], ◌∷◌, none, some}
use cometa_backend.Base.Exec.{pure, Result, ◌>>=◌, ok, err}
use cometa_backend.Base.Shared.{cases, attempt, call, World}
use cometa_backend.Base.Rely.{
  Run-weaken, Run-call, Run-next, Run-cases, Run-if, Run-attempt, Run-bind, Run-pure, Post, Behaves,
  Run,
}
use cometa_backend.Lottery.Index.Guard.{ensure_lottery_indexes-Run}
use cometa_backend.Lottery.Index.{ensure_lottery_indexes}
use cometa_backend.Lottery.Entitlement.{is_outstanding}
use cometa_backend.Lottery.Backfill.Migration.{IsRead, backfill_draw_id-Run}
use cometa_backend.Lottery.Payout.Prizes.{find_all-HeldIn}
use cometa_backend.Lottery.Keeps.{Extends-refl, HeldIn-later, HeldIn, shared}
use cometa_backend.Lottery.Backfill.{status_eq, field_eq, backfill_draw_id, is_false, LotteryDraw}
use cometa_backend.Lottery.Payout.{
  non_payable_error, is_payable, failed, add_report, malformed, refuse_payout, send_all_prizes,
  pay_documents, pay_document, pay_migrated, pay_draw, pay_prize, settled_payout, pay_reserved,
  TransferService,
}
use cometa_backend.Lottery.Model.{find_all, is_protected, read, LotteryError, value, Db, Draw}
use cometa_backend.Lottery.Payout.Attempt.{
  HeldIn-All, pay_reserved-Run, settled_payout-Run, error_written-Run,
}

module _ (digest : Text → Text) (service : TransferService) where
  pay_prize-Run :
      (d : Draw) (draw : LotteryDraw) (prize : ℕ) (w : World Db)
      → Behaves shared w
      → IsRead d draw w.db
      → draw.document.prize ≡ some prize
      → is_protected w.db.indexes ≡ true
      → Run shared (λ x db. Unit) w (pay_prize digest service draw prize w)
  unfolding pay_prize refuse_payout
  pay_prize-Run d draw prize w b seen won protected =
      Run-if shared w (is_payable draw.payout_status)
        (attempt (pay_reserved service draw prize) >>= settled_payout draw) (refuse_payout draw)
        (λ payable.
          Run-bind shared w (attempt (pay_reserved service draw prize)) (settled_payout draw)
            (Run-attempt shared w (pay_reserved service draw prize)
              (pay_reserved-Run service d draw prize w b seen won protected))
            (λ o u c r q.
              settled_payout-Run service draw o u c
                (HeldIn-later draw.document w.db.draws u.db.draws seen.held r.draws)))
        (λ refused.
          error_written-Run draw.document
            (λ x.
              is_false x.claimed && field_eq status_eq (value draw.payout_status) x.payout_status)
            (non_payable_error draw.payout_status)
            (some (failed draw.document (non_payable_error draw.payout_status))) w b seen.held
            (λ x h. ground (arith, h)))

  pay_draw-Run :
      (d : Draw) (draw : LotteryDraw) (w : World Db)
      → Behaves shared w
      → IsRead d draw w.db
      → is_protected w.db.indexes ≡ true
      → Run shared (λ x db. Unit) w (pay_draw digest service draw w)
  unfolding pay_draw
  pay_draw-Run d draw w b seen protected =
      Run-if shared w draw.claimed (pure none)
        (cases draw.document.prize (pure none) (pay_prize digest service draw))
        (λ claimed. Run-pure shared w none b tt)
        (λ live.
          Run-cases shared (λ o db. draw.document.prize ≡ o) w draw.document.prize (pure none)
            (pay_prize digest service draw) refl (λ n. Run-pure shared w none b tt)
            (λ prize won. pay_prize-Run d draw prize w b seen won protected))

  pay_migrated-Run :
      (d : Draw) (o : Result LotteryError LotteryDraw) (w : World Db)
      → Behaves shared w
      → Post shared (IsRead d) o w.db
      → HeldIn d w.db.draws
      → is_protected w.db.indexes ≡ true
      → Run shared (λ x db. Unit) w (pay_migrated digest service d o w)
  unfolding pay_migrated malformed
  pay_migrated-Run d (ok draw) w b seen held protected = pay_draw-Run d draw w b seen protected
  pay_migrated-Run d (err e) w b read held protected =
      error_written-Run d (λ x. is_false x.claimed) e (some (failed d e)) w b held (λ x h. h)

  pay_document-Run :
      (d : Draw) (w : World Db)
      → Behaves shared w
      → HeldIn d w.db.draws
      → is_protected w.db.indexes ≡ true
      → Run shared (λ x db. Unit) w (pay_document digest service d w)
  unfolding pay_document
  pay_document-Run d w b held protected =
      Run-bind shared w (attempt (backfill_draw_id digest d)) (pay_migrated digest service d)
        (Run-attempt shared w (backfill_draw_id digest d) (backfill_draw_id-Run digest d w b held))
        (λ o u c r q.
          pay_migrated-Run d o u c q (HeldIn-later d w.db.draws u.db.draws held r.draws)
            (r.protected protected))

  pay_documents-Run :
      (ds : List Draw) (w : World Db)
      → Behaves shared w
      → All (λ d. HeldIn d w.db.draws) ds
      → is_protected w.db.indexes ≡ true
      → Run shared (λ x db. Unit) w (pay_documents digest service ds w)
  unfolding pay_documents
  pay_documents-Run [] w b held protected = Run-pure shared w _ b tt
  pay_documents-Run (d ∷ ds) w b held protected =
      Run-bind shared w (pay_document digest service d)
        (λ r. pay_documents digest service ds >>= (λ s. pure (add_report r s)))
        (pay_document-Run d w b held.0 protected)
        (λ o u c r q.
          Run-bind shared u (pay_documents digest service ds) (λ s. pure (add_report o s))
            (pay_documents-Run ds u c (HeldIn-All ds w.db.draws u.db.draws r.draws held.1)
              (r.protected protected))
            (λ s v c' r' q'. Run-pure shared v (add_report o s) c' tt))

  pay_outstanding-Run :
      (w : World Db)
      → Behaves shared w
      → is_protected w.db.indexes ≡ true
      → Run shared
          (λ x db. is_protected db.indexes ≡ true)
          w
          ((call (read (λ db. find_all is_outstanding db.draws db.draws))
              >>= pay_documents digest service)
            w)
  pay_outstanding-Run w b protected =
      Run-bind shared w (call (read (λ db. find_all is_outstanding db.draws db.draws)))
        (pay_documents digest service)
        (Run-call shared {Q = λ ds db. All (λ d. HeldIn d db.draws) ds} w
          (read (λ db. find_all is_outstanding db.draws db.draws)) b
          (λ db r. (Extends-refl db, find_all-HeldIn is_outstanding db.draws db.draws)))
        (λ ds u c r q.
          Run-weaken shared u (pay_documents digest service ds)
            (pay_documents-Run ds u c q (r.protected protected))
            (λ s db x p. x.protected (r.protected protected)))

  -- Whatever the transfer service answers and whatever other workers do meanwhile within the same
  -- rules, sending the prizes keeps what was drawn and paid, changes entitlements only by steps of
  -- their protocol, and requests a payout only for a draw on record that is reserved for it, of one
  -- unit of its prize to its wallet, behind a unique index on draw IDs.
  pub send_all_prizes-Run :
      (w : World Db)
      → Behaves shared w
      → Run shared (λ x db. is_protected db.indexes ≡ true) w (send_all_prizes digest service w)
  unfolding send_all_prizes
  send_all_prizes-Run w b =
      Run-next shared w ensure_lottery_indexes
        (call (read (λ db. find_all is_outstanding db.draws db.draws))
          >>= pay_documents digest service)
        (ensure_lottery_indexes-Run w b) (λ x u c r protected. pay_outstanding-Run u c protected)
