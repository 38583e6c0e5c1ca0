-- ===== src/Lottery/Payout/Attempt.antt =====
-- One attempt to pay a draw, after its reservation.
use cometa_backend.Base.Int.{pos}
use cometa_backend.Base.Value.{int}
use cometa_backend.Base.Text.{text, Text}
use cometa_backend.Base.{
  ap, ◌++◌, not, ◌∙◌, true, Option, All, Bool, List, false, ℕ, ◌≡◌, refl, inr, [], ◌∷◌, none, some,
}
use cometa_backend.Base.Exec.{raise_if, pure, Result, ◌>>=◌, ◌>>◌, ok, err}
use cometa_backend.Base.Shared.{cases, call, World}
use cometa_backend.Base.Rely.{
  Run-raise_if, Run-cases, Run-raise, Run-then, Run-bind, Run-pure, Behaves, Run,
}
use cometa_backend.Transfer.Request.{create_request_lem}
use cometa_backend.Lottery.Backfill.Migration.{IsRead}
use cometa_backend.Lottery.Payout.Prizes.{
  record_claim-Run, not_reserved-Run, reservable-IsUpdate, failure-IsUpdate, mark_entitlement-Run,
  send_error-IsUpdate,
}
use cometa_backend.Lottery.Payout.Asked.{IsPayout, IsReserved, request_sent-Run}
use cometa_backend.Lottery.Writes.{Updated, update-Run}
use cometa_backend.Transfer.Model.{create_request, AssetTransferRequest, RequestError}
use cometa_backend.Lottery.Keeps.{
  KeepsAll-trans, Extends-trans, Extends, HeldIn-later, HeldIn, KeepsAll, Keeps, shared,
}
use cometa_backend.Lottery.Backfill.{is_false, LotteryDraw}
use cometa_backend.Lottery.Payout.{
  record_claim, is_free_for, not_reserved, with_payout_reserved, is_reservable, mark_entitlement,
  failed, with_failure, with_send_error, is_claimable, Report, send_prize, settled_payout,
  unresolved_payout, pay_reserved, send_request, send_nft, TransferService,
}
use cometa_backend.Lottery.Model.{
  foreign_operation, transfer_failed, StakingEntitlementStatus, update_document, is_protected,
  LotteryError, payout_operation, is_empty, value, Db, Draw,
}

IsReserved-found :
    (e : Draw) (draw : LotteryDraw) (prize : ℕ)
    → Keeps draw.document e
    → draw.document.id ≡ value draw.id
    → is_empty draw.id ≡ false
    → e.payout_operation_id ≡ value (payout_operation draw.id)
    → draw.document.prize ≡ some prize
    → IsReserved e draw.id draw.document.wallet prize
IsReserved-found e draw prize keeps named full operation won = record {
  named = keeps.id draw.id named full;
  full = full;
  operation = operation;
  owner = keeps.wallet;
  won = keeps.prize ∙ won;
}

pub HeldIn-All :
    (ds all later : List Draw)
    → KeepsAll all later
    → All (λ d. HeldIn d all) ds
    → All (λ d. HeldIn d later) ds
HeldIn-All [] all later k h = tt
HeldIn-All (d ∷ ds) all later k h = (HeldIn-later d all later h.0 k, HeldIn-All ds all later k h.1)

module _ (service : TransferService) where
  send_request-Run :
      (d : Draw) (id wallet : Text) (prize : ℕ) (w : World Db)
      (o : Result RequestError AssetTransferRequest)
      → Behaves shared w
      → IsReserved d id wallet prize
      → HeldIn d w.db.draws
      → is_protected w.db.indexes ≡ true
      → ((r : AssetTransferRequest) → o ≡ ok r → IsPayout r id wallet prize)
      → Run shared (λ x db. Unit) w (send_request service o w)
  unfolding send_request
  send_request-Run d id wallet prize w (err e) b s held protected payout =
      Run-raise shared w (transfer_failed (text "InvalidAssetTransferError")) b
  send_request-Run d id wallet prize w (ok r) b s held protected payout =
      request_sent-Run service r d id wallet prize w b s (payout r refl) held protected

  send_nft-Run :
      (d : Draw) (id wallet : Text) (prize : ℕ) (w : World Db)
      → Behaves shared w
      → IsReserved d id wallet prize
      → HeldIn d w.db.draws
      → is_protected w.db.indexes ≡ true
      → Run shared (λ x db. Unit) w (send_nft service wallet prize (text "lottery:" ++ id) w)
  unfolding send_nft
  send_nft-Run d id wallet prize w b s held protected =
      let op = text "nft:" ++ (text "lottery:" ++ id) in
      send_request-Run d id wallet prize w
        (create_request op wallet (int (pos prize)) (int (pos 1)) none) b s held protected
        (λ r h. create_request_lem op wallet prize 1 none r h)

  pub pay_reserved-Run :
      (d : Draw) (draw : LotteryDraw) (prize : ℕ) (w : World Db)
      → Behaves shared w
      → IsRead d draw w.db
      → draw.document.prize ≡ some prize
      → is_protected w.db.indexes ≡ true
      → Run shared (λ x db. Unit) w (pay_reserved service draw prize w)
  unfolding pay_reserved send_prize
  pay_reserved-Run d draw prize w b seen won protected =
      let op = payout_operation draw.id in
      let document = draw.document in
      let reservation =
        call (update_document document.document_id (is_reservable op) (with_payout_reserved op)) in
      let next =
        λ (o : Option Draw). cases o (not_reserved draw) (λ e. send_prize service draw prize) in
      let foreign = not (is_free_for op document.payout_operation_id) in
      Run-then shared w (raise_if foreign foreign_operation) (reservation >>= next)
        (Run-raise_if shared foreign foreign_operation w b)
        (λ u c r.
          Run-bind shared u reservation next
            (update-Run document (is_reservable op) (with_payout_reserved op) u c
              (HeldIn-later document w.db.draws u.db.draws seen.held r.draws)
              (reservable-IsUpdate op))
            (λ o v c' r' q.
              Run-cases shared (Updated document (is_reservable op) (with_payout_reserved op)) v o
                (not_reserved draw) (λ e. send_prize service draw prize) q
                (λ n. not_reserved-Run draw v c')
                (λ e p.
                  let (keeps, held, (before, kept, test, same)) = p in
                  let reserved =
                    IsReserved-found e draw prize keeps seen.id seen.full
                      (ap (λ (x : Draw). x.payout_operation_id) same) won in
                  let all : Extends w.db v.db = Extends-trans w.db u.db v.db r r' in
                  Run-bind shared v
                    (send_nft service document.wallet prize (text "lottery:" ++ draw.id))
                    (record_claim draw)
                    (send_nft-Run e draw.id document.wallet prize v c' reserved held
                      (all.protected protected))
                    (λ receipt x c'' r'' q'. record_claim-Run draw receipt x c'' (
                      HeldIn-later document w.db.draws x.db.draws seen.held
                        (KeepsAll-trans w.db.draws v.db.draws x.db.draws all.draws r''.draws))))))

  unresolved_payout-Run :
      (draw : LotteryDraw) (e : LotteryError) (w : World Db)
      → Behaves shared w
      → HeldIn draw.document w.db.draws
      → Run shared (λ x db. Unit) w (unresolved_payout draw e w)
  unfolding unresolved_payout
  unresolved_payout-Run draw e w b held =
      let op = payout_operation draw.id in
      let failure =
        call (update_document draw.document.document_id (is_claimable op) (with_failure e)) in
      let report = pure {S = World Db} {E = LotteryError} (some (failed draw.document e)) in
      Run-then shared w (mark_entitlement draw.document StakingEntitlementStatus.unresolved)
        (failure >> report)
        (mark_entitlement-Run draw.document StakingEntitlementStatus.unresolved w b (inr refl))
        (λ u c r.
          Run-then shared u failure report
            (update-Run draw.document (is_claimable op) (with_failure e) u c
              (HeldIn-later draw.document w.db.draws u.db.draws held r.draws)
              (failure-IsUpdate op e))
            (λ v c' r'. Run-pure shared v (some (failed draw.document e)) c' tt))

  pub settled_payout-Run :
      (draw : LotteryDraw) (o : Result LotteryError Report) (w : World Db)
      → Behaves shared w
      → HeldIn draw.document w.db.draws
      → Run shared (λ x db. Unit) w (settled_payout draw o w)
  unfolding settled_payout
  settled_payout-Run draw (ok report) w b held = Run-pure shared w (some report) b tt
  settled_payout-Run draw (err e) w b held = unresolved_payout-Run draw e w b held

-- A report after an error was written into a draw that is not claimed.
pub error_written-Run :
    (d : Draw) (test : Draw → Bool) (e : LotteryError) (report : Option Report) (w : World Db)
    → Behaves shared w
    → HeldIn d w.db.draws
    → ((x : Draw) → test x ≡ true → is_false x.claimed ≡ true)
    → Run shared
        (λ x db. Unit)
        w
        ((call (update_document d.document_id test (with_send_error e)) >> pure report) w)
error_written-Run d test e report w b held live =
    Run-then shared w (call (update_document d.document_id test (with_send_error e))) (pure report)
      (update-Run d test (with_send_error e) w b held (send_error-IsUpdate test e live))
      (λ u c r. Run-pure shared u report c tt)
