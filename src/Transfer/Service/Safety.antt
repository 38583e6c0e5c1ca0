-- ===== src/Transfer/Service/Safety.antt =====
-- What a call of the transfer service guarantees, however it ends, whatever the gateway answers, and
-- whatever other workers write meanwhile.
use cometa_backend.Base.{
  ℕ, ◌≡◌, refl, ◌∙◌, Bool, true, false, not, Option, none, some, arith, ltb, Bool-cases, inl, inr,
}
use cometa_backend.Base.Exec.{Result, ok, err, lift, raise_if}
use cometa_backend.Base.Text.{Text, text_eq}
use cometa_backend.Transfer.Model.{
  TransferError, invalid_window, conflict, AssetTransferIntent, AssetTransferRequest,
  AssetTransferReceipt, new_intent, valid_window, different_txid,
}
use cometa_backend.Transfer.Repository.{World, get, record_attempt}
use cometa_backend.Transfer.Repository.Writes.{
  FoundUnder, get-Run, reserve-Run, record_attempt-Run, mark_submitted-Run,
}
use cometa_backend.Transfer.Keeps.{Held, Held-Extends, Extends, Extends-refl, Extends-trans}
use cometa_backend.Transfer.Run.{Run, Run-bind, Run-still, Run-weaken, Inv, Post, Carries}
use cometa_backend.Transfer.Service.{
  Gateway, confirmed_receipt, assert_same_transfer, obtain, unless_confirmed, stored_transfer, send,
  submit, await_confirmation, after_submit, broadcast_and_wait, attempt, at_round, resume, proceed,
  execute, same_transfer,
}
use cometa_backend.Transfer.Service.Receipts.{
  Mine, ReceiptFor, Status-cases, confirmed_receipt-Run, unless_confirmed-Run, Mine-Written,
  after_expiry-Run, await_confirmation-Run,
}

module _ (op : Text) where
  -- What is broadcast is the persisted transaction.
  send-Run :
      (g : Gateway) (request : AssetTransferRequest) (i : AssetTransferIntent) (w : World)
      → Inv w
      → Mine op i w.store
      → Run (λ t s. Unit) w (send g i request w)
  unfolding send
  send-Run g request i w v m = record {
    inv = record {
      keyed = v.keyed;
      others = v.others;
      backed = (record { carries = carried (w.store i.id) m.0 }, v.backed);
    };
    extends = Extends-refl w.store v.keyed;
    post = any (g.broadcast (stored_transfer i) request);
  }
    where
      carried :
          (o : Option AssetTransferIntent)
          → Held i o
          → Carries (record { operation_id = i.id; transfer = stored_transfer i }) o
      carried none h = h
      carried (some j) h = ground arith

      any : (r : Result TransferError Text) → Post (λ t s. Unit) r w.store
      any (ok t) = tt
      any (err e) = tt

  raise_if-Run :
      (b : Bool) (e : TransferError) (w : World) → Inv w → Run (λ t s. b ≡ false) w (raise_if b e w)
  raise_if-Run true e w v = Run-still w (err e) v tt
  raise_if-Run false e w v = Run-still w (ok tt) v refl

  submit-Run :
      (g : Gateway) (request : AssetTransferRequest) (i : AssetTransferIntent) (w : World)
      → Inv w
      → Mine op i w.store
      → Run (Mine op) w (submit g request i w)
  unfolding submit
  submit-Run g request i w v m =
      Run-bind w
        (raise_if (not (valid_window i.first_valid_round i.last_valid_round)) invalid_window) _
        (raise_if-Run (not (valid_window i.first_valid_round i.last_valid_round)) invalid_window w
          v)
        (λ x u uv ux q.
          Run-bind u (send g i request) _ (send-Run g request i u uv (later u ux))
            (λ txid u2 v2 x2 q2.
              Run-bind u2 (raise_if (not (text_eq txid i.txid)) different_txid) _
                (raise_if-Run (not (text_eq txid i.txid)) different_txid u2 v2)
                (λ y u3 v3 x3 q3.
                  Run-weaken u3 _ (λ j s h. Mine-Written op i j s m.1 h)
                    (mark_submitted-Run i.id i.txid u3 v3))))
    where
      later : (u : World) → Extends w.store u.store → Mine op i u.store
      later u x = (Held-Extends w.store u.store i.id i m.0 x, m.1)

  -- The receipt of a confirmed intent, or the wait that its failure leads to.
  receipt_or_wait :
      (g : Gateway) (j : AssetTransferIntent) (w : World)
      (r : Result TransferError AssetTransferReceipt)
      → Inv w
      → j.id ≡ op
      → Post (ReceiptFor op) r w.store
      → Run (ReceiptFor op) w (elim r [
        | ok receipt ↦ (ok receipt, w)
        | err e ↦ await_confirmation (some e) (g.wait_for_confirmation j.txid) j w
      ])
  receipt_or_wait g j w (ok receipt) v own p = Run-still w (ok receipt) v p
  receipt_or_wait g j w (err e) v own p =
      await_confirmation-Run op (some e) (g.wait_for_confirmation j.txid) j w v own

  after_submit-Run :
      (g : Gateway) (i : AssetTransferIntent) (r : Result TransferError AssetTransferIntent)
      (w : World)
      → Inv w
      → i.id ≡ op
      → Post (Mine op) r w.store
      → Run (ReceiptFor op) w (after_submit g i r w)
  unfolding after_submit
  after_submit-Run g i (err e) w v own p =
      await_confirmation-Run op (some e) (g.wait_for_confirmation i.txid) i w v own
  after_submit-Run g i (ok j) w v own p = elim (Status-cases j.status) [
    | inl (test, c) ↦ rw test (
        receipt_or_wait g j w (confirmed_receipt j true w).0 v p.1
          (unfold confirmed_receipt in (confirmed_receipt-Run op j true w v p c).post))
    | inr other ↦
        rw other (await_confirmation-Run op none (g.wait_for_confirmation j.txid) j w v p.1)
  ]

  broadcast_and_wait-Run :
      (g : Gateway) (request : AssetTransferRequest) (i : AssetTransferIntent) (w : World)
      → Inv w
      → Mine op i w.store
      → Run (ReceiptFor op) w (broadcast_and_wait g request i w)
  unfolding broadcast_and_wait
  broadcast_and_wait-Run g request i w v m =
      let out = submit g request i w in
      let first = submit-Run g request i w v m in
      let next = after_submit-Run g i out.0 out.1 first.inv m.1 first.post in
      record {
        inv = next.inv;
        extends =
            Extends-trans w.store out.1.store (after_submit g i out.0 out.1).1.store first.extends
              next.extends;
        post = next.post;
      }

  attempt-Run :
      (g : Gateway) (request : AssetTransferRequest) (i : AssetTransferIntent) (w : World)
      → Inv w
      → i.id ≡ op
      → Run (ReceiptFor op) w (attempt g request i w)
  unfolding attempt
  attempt-Run g request i w v own =
      Run-bind w (record_attempt i.id i.txid)
        (λ j. unless_confirmed j (broadcast_and_wait g request j))
        (record_attempt-Run i.id i.txid w v)
        (λ j u uv ux q.
          let m = Mine-Written op i j u.store own q in
          unless_confirmed-Run op j (broadcast_and_wait g request j) u uv m
            (broadcast_and_wait-Run g request j u uv m))

  lift-Run :
      {A : Type 0} (r : Result TransferError A) (w : World) → Inv w → Run (λ a s. Unit) w (lift r w)
  lift-Run (ok a) w v = Run-still w (ok a) v tt
  lift-Run (err e) w v = Run-still w (err e) v tt

  at_round-Run :
      (g : Gateway) (request : AssetTransferRequest) (i : AssetTransferIntent) (now : ℕ) (w : World)
      → Inv w
      → i.id ≡ op
      → Run (ReceiptFor op) w (at_round g request i now w)
  unfolding at_round
  at_round-Run g request i now w v own = elim (Bool-cases (ltb i.last_valid_round now)) [
    | inl late ↦ rw late (after_expiry-Run op i (g.lookup_confirmed_round i.txid) w v own)
    | inr in_time ↦ rw in_time (attempt-Run g request i w v own)
  ]

  resume-Run :
      (g : Gateway) (request : AssetTransferRequest) (i : AssetTransferIntent) (w : World)
      → Inv w
      → Mine op i w.store
      → Run (ReceiptFor op) w (resume g request i w)
  unfolding resume
  resume-Run g request i w v m = elim (Status-cases i.status) [
    | inl (test, c) ↦ rw test (confirmed_receipt-Run op i true w v m c)
    | inr other ↦ rw other (
        Run-bind w (lift g.current_round) (at_round g request i) (lift-Run g.current_round w v)
          (λ now u uv ux q. at_round-Run g request i now u uv m.1))
  ]

  proceed-Run :
      (g : Gateway) (request : AssetTransferRequest) (i : AssetTransferIntent) (w : World)
      → Inv w
      → Mine op i w.store
      → Run (ReceiptFor op) w (proceed g request i w)
  unfolding proceed
  proceed-Run g request i w v m =
      Run-bind w (assert_same_transfer i request) (λ x. resume g request i)
        (raise_if-Run (not (same_transfer i request)) (conflict request.operation_id) w v)
        (λ x u uv ux q.
          resume-Run g request i u uv (Held-Extends w.store u.store i.id i m.0 ux, m.1))

  obtain-Run :
      (g : Gateway) (request : AssetTransferRequest) (o : Option AssetTransferIntent) (w : World)
      → Inv w
      → request.operation_id ≡ op
      → FoundUnder request.operation_id o w.store
      → Run (Mine op) w (obtain g request o w)
  unfolding obtain
  obtain-Run g request (some i) w v own f = Run-still w (ok i) v (f.0, f.1 ∙ own)
  obtain-Run g request none w v own f =
      Run-bind w (lift (g.prepare request)) _ (lift-Run (g.prepare request) w v) (λ p u uv ux q.
        Run-bind u
          (raise_if (not (valid_window p.first_valid_round p.last_valid_round)) invalid_window) _
          (raise_if-Run (not (valid_window p.first_valid_round p.last_valid_round)) invalid_window u
            uv)
          (λ y u2 v2 x2 q2.
            Run-weaken u2 _ (λ j s h. (h.0, h.1 ∙ own)) (reserve-Run (new_intent request p) u2 v2)))

-- A call of `execute`, whatever the gateway answers and whatever other workers write between its own
-- writes, as long as they keep what the repository keeps: it keeps every persisted transfer and
-- signed transaction as they are, and every confirmed intent unchanged; every broadcast, those of
-- before included, carries the signed transaction that is persisted under its operation; and a
-- receipt names the operation asked for, whose intent is persisted as confirmed, with the receipt's
-- transaction and round.
pub execute-Run :
    (g : Gateway) (request : AssetTransferRequest) (w : World)
    → Inv w
    → Run (ReceiptFor request.operation_id) w (execute g request w)
unfolding execute
execute-Run g request w v =
    Run-bind w (get request.operation_id) _ (get-Run request.operation_id w v) (λ o u uv ux q.
      Run-bind u (obtain g request o) _ (obtain-Run request.operation_id g request o u uv refl q)
        (λ i u2 v2 x2 m. proceed-Run request.operation_id g request i u2 v2 m))
