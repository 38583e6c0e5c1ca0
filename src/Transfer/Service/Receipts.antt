-- ===== src/Transfer/Service/Receipts.antt =====
-- The receipts of a call of the transfer service, and the writes that end it.
use mathlib.Core.Path.{subst}
use cometa_backend.Base.{
  ℕ, ◌≡◌, ◌⊎◌, refl, ◌∙◌, Bool, true, false, Option, none, some, leb, Bool-cases, inl, inr,
}
use cometa_backend.Base.Exec.{Result, ok, err, ◌>>=◌, raise}
use cometa_backend.Base.Text.{Text}
use cometa_backend.Base.Value.{Value}
use cometa_backend.Uint64.{max_algorand_uint}
use cometa_backend.Transfer.Model.{
  TransferError, pending, expired, type_name, AssetTransferIntent, AssetTransferReceipt,
  TransferStatus, prepared, submitted, confirmed, is_confirmed,
}
use cometa_backend.Transfer.Repository.{Store, World, Action, mark_confirmed, record_error}
use cometa_backend.Transfer.Repository.Writes.{
  Persisted, Written, IsConfirmed, record_error-Run, mark_confirmed-Run,
}
use cometa_backend.Transfer.Keeps.{Held}
use cometa_backend.Transfer.Run.{Run, Run-bind, Run-still, Inv, Post}
use cometa_backend.Transfer.Service.{
  receipt_at, confirmed_receipt, unless_confirmed, lookup_failed, expired_message, unresolved,
  after_expiry, await_confirmation,
}

-- The persisted intent bears the receipt out.
abbrev pub Bears : AssetTransferReceipt → Option AssetTransferIntent → Type 0
Bears r none = ⊥
Bears r (some i) =
    (i.status ≡ confirmed) × (i.txid ≡ r.txid) × (i.confirmed_round ≡ some r.confirmed_round)

abbrev pub ReceiptFor : Text → AssetTransferReceipt → Store → Type 0
ReceiptFor op r s = (r.operation_id ≡ op) × Bears r (s op)

Bears-Held :
    (i : AssetTransferIntent) (o : Option AssetTransferIntent) (round : ℕ) (already : Bool)
    → Held i o
    → IsConfirmed i
    → i.confirmed_round ≡ some round
    → Bears
        (record {
          operation_id = i.id;
          txid = i.txid;
          confirmed_round = round;
          already_confirmed = already;
        })
        o
Bears-Held i none round already h c e = elim h [ ]
Bears-Held i (some j) round already h c e = rw (h.terminal c) (c, refl, e)

pub Status-cases :
    (t : TransferStatus) → ((is_confirmed t ≡ true) × (t ≡ confirmed)) ⊎ (is_confirmed t ≡ false)
Status-cases prepared = inr refl
Status-cases submitted = inr refl
Status-cases confirmed = inl (refl, refl)

module _ (op : Text) where
  -- A persisted intent of the operation.
  abbrev pub Mine : AssetTransferIntent → Store → Type 0
  Mine i s = Persisted i s × (i.id ≡ op)

  receipt_at-Post :
      (i : AssetTransferIntent) (already : Bool) (round : Option ℕ) (s : Store)
      → Mine i s
      → IsConfirmed i
      → i.confirmed_round ≡ round
      → Post (ReceiptFor op) (receipt_at i already round) s
  unfolding receipt_at
  receipt_at-Post i already none s m c e = tt
  receipt_at-Post i already (some r) s m c e = elim (Bool-cases (leb r max_algorand_uint)) [
    | inl fits ↦
        rw fits
          (m.1, Bears-Held i (s op) r already (subst (λ (k : Text). Held i (s k)) m.1 m.0) c e)
    | inr big ↦ rw big tt
  ]

  pub confirmed_receipt-Run :
      (i : AssetTransferIntent) (already : Bool) (w : World)
      → Inv w
      → Mine i w.store
      → IsConfirmed i
      → Run (ReceiptFor op) w (confirmed_receipt i already w)
  unfolding confirmed_receipt
  confirmed_receipt-Run i already w v m c =
      Run-still w (receipt_at i already i.confirmed_round) v
        (receipt_at-Post i already i.confirmed_round w.store m c refl)

  pub unless_confirmed-Run :
      (i : AssetTransferIntent) (rest : Action AssetTransferReceipt) (w : World)
      → Inv w
      → Mine i w.store
      → Run (ReceiptFor op) w (rest w)
      → Run (ReceiptFor op) w (unless_confirmed i rest w)
  unless_confirmed-Run i rest w v m k = elim (Status-cases i.status) [
    | inl (test, c) ↦ rw test (confirmed_receipt-Run i true w v m c)
    | inr other ↦ rw other k
  ]

  raise-Run : (e : TransferError) (w : World) → Inv w → Run (ReceiptFor op) w (raise e w)
  raise-Run e w v = Run-still w (err e) v tt

  -- The result of a write about the operation's intent is its intent.
  pub Mine-Written :
      (i j : AssetTransferIntent) (s : Store) → i.id ≡ op → Written i.id i.txid j s → Mine j s
  Mine-Written i j s own h = (h.0, h.1 ∙ own)

  after_error-Run :
      (i : AssetTransferIntent) (message : Text) (failure : AssetTransferIntent → TransferError)
      (w : World)
      → Inv w
      → i.id ≡ op
      → Run
          (ReceiptFor op)
          w
          ((record_error i.id i.txid message >>= λ j. unless_confirmed j (raise (failure j))) w)
  after_error-Run i message failure w v own =
      Run-bind w (record_error i.id i.txid message) (λ j. unless_confirmed j (raise (failure j)))
        (record_error-Run i.id i.txid message w v)
        (λ j u uv ux q.
          unless_confirmed-Run j (raise (failure j)) u uv (Mine-Written i j u.store own q)
            (raise-Run (failure j) u uv))

  after_confirmation-Run :
      (i : AssetTransferIntent) (round : Value) (already : Bool) (w : World)
      → Inv w
      → i.id ≡ op
      → Run
          (ReceiptFor op)
          w
          ((mark_confirmed i.id i.txid round >>= λ j. confirmed_receipt j already) w)
  after_confirmation-Run i round already w v own =
      Run-bind w (mark_confirmed i.id i.txid round) (λ j. confirmed_receipt j already)
        (mark_confirmed-Run i.id i.txid round w v)
        (λ j u uv ux q. confirmed_receipt-Run j already u uv (Mine-Written i j u.store own q.0) q.1)

  pub after_expiry-Run :
      (i : AssetTransferIntent) (answer : Result TransferError (Option Value)) (w : World)
      → Inv w
      → i.id ≡ op
      → Run (ReceiptFor op) w (after_expiry i answer w)
  unfolding after_expiry
  after_expiry-Run i (err e) w v own =
      after_error-Run i (lookup_failed (type_name e)) (λ j. expired j.id j.txid) w v own
  after_expiry-Run i (ok (some round)) w v own = after_confirmation-Run i round true w v own
  after_expiry-Run i (ok none) w v own =
      after_error-Run i expired_message (λ j. expired j.id j.txid) w v own

  pub await_confirmation-Run :
      (failure : Option TransferError) (answer : Result TransferError Value)
      (i : AssetTransferIntent) (w : World)
      → Inv w
      → i.id ≡ op
      → Run (ReceiptFor op) w (await_confirmation failure answer i w)
  unfolding await_confirmation
  await_confirmation-Run failure (ok round) i w v own = after_confirmation-Run i round false w v own
  await_confirmation-Run failure (err e) i w v own =
      after_error-Run i (unresolved (type_name (elim failure [ none ↦ e | some f ↦ f ])))
        (λ j. pending j.id j.txid) w v own
