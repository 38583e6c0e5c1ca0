-- ===== src/Lottery/Payout/Prizes.antt =====
-- The writes of a payout, beside other workers.
use cometa_backend.Base.Text.{text_eq_iff, Text}
use cometa_backend.Base.{
  Bool-cases, inr, inl, false, if◌then◌else◌, ◌∷◌, [], none, some, sym, ap, ◌∙◌, arith, ℕ, All,
  true, Option, List, Bool, ◌≡◌, refl,
}
use cometa_backend.Base.Exec.{raise, pure, ◌>>◌}
use cometa_backend.Base.Shared.{cases, call, World}
use cometa_backend.Base.Rely.{
  Run-if, Run-raise, Run-pure, Run-cases, Run-call, Run-then, Run-bind, Behaves, Run,
}
use cometa_backend.Lottery.Entitlement.Progress.{update_staking_entitlement_status-Run, IsVerdict}
use cometa_backend.Lottery.Staking.Drawn.{text_field_sound}
use cometa_backend.Lottery.Keeps.{HeldIn-found, Extends-refl, shared, Keeps, HeldIn}
use cometa_backend.Lottery.Backfill.{is_true, LotteryDraw, is_false}
use cometa_backend.Lottery.Writes.{update-Run, IsUpdate}
use cometa_backend.Lottery.Payout.{
  is_claimed_by, as_neither, as_sent, paid, claimed_elsewhere, taken_over, record_claim,
  not_recorded, not_reserved, Report, mark_entitlement, with_send_error, with_failure,
  with_payout_recorded, with_payout_reserved, is_claimable, is_reservable, is_free_for,
}
use cometa_backend.Transfer.Model.{AssetTransferReceipt}
use cometa_backend.Lottery.Model.{
  confirmation_changed, draw_changed, update_document, read, StakingEntitlementStatus, Db,
  find_document, LotteryPayoutStatus, StatusText, LotteryError, Draw, find_all, value, known, Field,
}

pub find_all-HeldIn :
    (test : Draw → Bool) (ds all : List Draw) → All (λ d. HeldIn d all) (find_all test ds all)
unfolding find_all
find_all-HeldIn test [] all = tt
find_all-HeldIn test (d ∷ ds) all =
    found_HeldIn (find_all-HeldIn test ds all) (find_document d.document_id all) refl
  where
    found_HeldIn :
        All (λ d. HeldIn d all) (find_all test ds all)
        → (o : Option Draw) → find_document d.document_id all ≡ o
        → All
            (λ d. HeldIn d all)
            (elim o [
              | none ↦ find_all test ds all
              | some e ↦ if test e then e ∷ find_all test ds all else find_all test ds all
            ])
    found_HeldIn rest none h = rest
    found_HeldIn rest (some e) h = elim (Bool-cases (test e)) [
      | inl match ↦ rw match (HeldIn-found d.document_id all e h, rest)
      | inr differs ↦ rw differs rest
    ]

-- A change of a draw that is not claimed.
unclaimed-Keeps :
    (d : Draw) (op : Field Text) (claimed : Field Bool) (txid : Option Text) (round : Option ℕ)
    (status : Field StatusText) (error : Option LotteryError)
    → is_false d.claimed ≡ true
    → ((t : Text) → d.payout_operation_id ≡ value t → op ≡ value t)
    → Keeps d (record d {
      payout_operation_id = op;
      claimed = claimed;
      payout_txid = txid;
      confirmed_round = round;
      payout_status = status;
      send_error = error;
    })
unclaimed-Keeps d op claimed txid round status error live same = record {
  document_id = refl;
  wallet = refl;
  prize = refl;
  timestamp = refl;
  lottery_name = refl;
  entitlement_id = refl;
  entitlement_generation = refl;
  id = λ t h k. h;
  payout_operation_id = same;
  claimed = λ h. absurd (true_live d.claimed h live);
}
  where
    true_live : (c : Field Bool) → c ≡ value true → ¬ (is_false c ≡ true)
    true_live c h k = ground (arith, h, k)

free_same :
    (op : Text) (f : Field Text) (t : Text)
    → is_free_for op f ≡ true
    → f ≡ value t
    → value op ≡ value t
free_same op (value s) t h k = sym (ap value ((text_eq_iff s op).0 h)) ∙ k
free_same op f t h k = cc

pub reservable-IsUpdate : (op : Text) → IsUpdate (is_reservable op) (with_payout_reserved op)
reservable-IsUpdate op d h =
    unclaimed-Keeps d (value op) d.claimed d.payout_txid d.confirmed_round
      (value (known LotteryPayoutStatus.prepared)) none (ground (arith, h))
      (λ t k. free_same op d.payout_operation_id t (ground (arith, h)) k)

claimable-IsUpdate :
    (r : AssetTransferReceipt) → IsUpdate (is_claimable r.operation_id) (with_payout_recorded r)
claimable-IsUpdate r d h =
    unclaimed-Keeps d (value r.operation_id) (value true) (some r.txid) (some r.confirmed_round)
      (value (known LotteryPayoutStatus.confirmed)) none (ground (arith, h))
      (λ t k. sym (text_field_sound d.payout_operation_id r.operation_id (ground (arith, h))) ∙ k)

pub failure-IsUpdate : (op : Text) (e : LotteryError) → IsUpdate (is_claimable op) (with_failure e)
failure-IsUpdate op e d h =
    unclaimed-Keeps d d.payout_operation_id d.claimed d.payout_txid d.confirmed_round
      (value (known LotteryPayoutStatus.unresolved)) (some e) (ground (arith, h)) (λ t k. k)

pub send_error-IsUpdate :
    (test : Draw → Bool) (e : LotteryError)
    → ((d : Draw) → test d ≡ true → is_false d.claimed ≡ true)
    → IsUpdate test (with_send_error e)
send_error-IsUpdate test e live d h =
    unclaimed-Keeps d d.payout_operation_id d.claimed d.payout_txid d.confirmed_round
      d.payout_status (some e) (live d h) (λ t k. k)

pub mark_entitlement-Run :
    (d : Draw) (s : StakingEntitlementStatus) (w : World Db)
    → Behaves shared w
    → IsVerdict s
    → Run shared (λ x db. Unit) w (mark_entitlement d s w)
unfolding mark_entitlement
mark_entitlement-Run d s w b v =
    update_staking_entitlement_status-Run d.entitlement_id d.entitlement_generation d.id s w b v

-- A report that follows the mark of the entitlement.
marked-Run :
    (d : Draw) (report : Report) (w : World Db)
    → Behaves shared w
    → Run shared
        (λ x db. Unit)
        w
        ((mark_entitlement d StakingEntitlementStatus.confirmed >> pure report) w)
marked-Run d report w b =
    Run-then shared w (mark_entitlement d StakingEntitlementStatus.confirmed) (pure report)
      (mark_entitlement-Run d StakingEntitlementStatus.confirmed w b (inl refl))
      (λ u c r. Run-pure shared u report c tt)

find_again_still :
    (d : Draw) (w : World Db)
    → Behaves shared w
    → Run shared {E = LotteryError}
        (λ o db. Unit)
        w
        (call (read (λ db. find_document d.document_id db.draws)) w)
find_again_still d w b =
    Run-call shared w (read (λ db. find_document d.document_id db.draws)) b
      (λ db r. (Extends-refl db, tt))

pub not_reserved-Run :
    (draw : LotteryDraw) (w : World Db)
    → Behaves shared w
    → Run shared (λ x db. Unit) w (not_reserved draw w)
unfolding not_reserved taken_over
not_reserved-Run draw w b =
    Run-bind shared w (call (read (λ db. find_document draw.document.document_id db.draws)))
      (taken_over draw) (find_again_still draw.document w b)
      (λ o u c r q.
        Run-cases shared (λ o db. Unit) u o (raise draw_changed) _ tt
          (λ n. Run-raise shared u draw_changed c)
          (λ d p.
            let report = paid draw.document d.payout_txid true as_neither in
            Run-if shared u (is_true d.claimed)
              (mark_entitlement d StakingEntitlementStatus.confirmed >> pure report)
              (raise draw_changed) (λ claimed. marked-Run d report u c)
              (λ live. Run-raise shared u draw_changed c)))

not_recorded-Run :
    (draw : LotteryDraw) (r : AssetTransferReceipt) (w : World Db)
    → Behaves shared w
    → Run shared (λ x db. Unit) w (not_recorded draw r w)
unfolding not_recorded claimed_elsewhere
not_recorded-Run draw receipt w b =
    Run-bind shared w (call (read (λ db. find_document draw.document.document_id db.draws)))
      (claimed_elsewhere draw receipt) (find_again_still draw.document w b)
      (λ o u c r q.
        Run-cases shared (λ o db. Unit) u o (raise confirmation_changed) _ tt
          (λ n. Run-raise shared u confirmation_changed c)
          (λ d p.
            let report = paid draw.document (some receipt.txid) true as_neither in
            Run-if shared u (is_claimed_by receipt d)
              (mark_entitlement d StakingEntitlementStatus.confirmed >> pure report)
              (raise confirmation_changed) (λ claimed. marked-Run d report u c)
              (λ live. Run-raise shared u confirmation_changed c)))

pub record_claim-Run :
    (draw : LotteryDraw) (r : AssetTransferReceipt) (w : World Db)
    → Behaves shared w
    → HeldIn draw.document w.db.draws
    → Run shared (λ x db. Unit) w (record_claim draw r w)
unfolding record_claim
record_claim-Run draw receipt w b held =
    let found = λ (d : Draw).
      mark_entitlement d StakingEntitlementStatus.confirmed
      >> pure (paid draw.document (some receipt.txid) false as_sent) in
    Run-bind shared w
      (call (
        update_document draw.document.document_id (is_claimable receipt.operation_id)
          (with_payout_recorded receipt)))
      (λ claimed. cases claimed (not_recorded draw receipt) found)
      (update-Run draw.document (is_claimable receipt.operation_id) (with_payout_recorded receipt) w
        b held (claimable-IsUpdate receipt))
      (λ o u c r q.
        Run-cases shared (λ o db. Unit) u o (not_recorded draw receipt) found tt
          (λ n. not_recorded-Run draw receipt u c)
          (λ d p. marked-Run d (paid draw.document (some receipt.txid) false as_sent) u c))
