-- ===== src/Transfer/Service/Reconcile.antt =====
-- flex/application/asset_transfers.py: `reconcile` asks the gateway and records what it learns.
use mathlib.Core.Path.{subst}
use cometa_backend.Base.{
  ℕ, ◌≡◌, refl, sym, leb, ◌∙◌, inl, inr, not, Bool-cases, Option, none, some, Option-cases, ltb,
  if◌then◌else◌, arith,
}
use cometa_backend.Base.Exec.{Result-cases, ok, err, ◌>>=◌, ◌>>◌, pure, or_raise, raise_if, lift}
use cometa_backend.Base.Text.{Text, text_eq}
use cometa_backend.Base.Value.{Value}
use cometa_backend.Uint64.{max_algorand_uint}
use cometa_backend.Transfer.Model.{
  TransferError, AssetTransferIntent, is_confirmed, confirmed, unknown_transfer, disappeared,
  changed_transaction,
}
use cometa_backend.Transfer.Run.{Inv, Run, Post, Run-bind, Run-still}
use cometa_backend.Transfer.Repository.{World, Store, Action, get, mark_confirmed}
use cometa_backend.Transfer.Repository.Writes.{FoundUnder, get-Run, mark_confirmed-Run}
use cometa_backend.Transfer.Repository.Silent.{
  IsSilent, bind-IsSilent, get-IsSilent, mark_confirmed-IsSilent,
}
use cometa_backend.Transfer.Service.{
  Gateway, confirmed_receipt, receipt_at, TransferReconciliation, status_of, expired_unconfirmed,
  reconcile_confirmed, reload_intent, reconcile_unconfirmed, reconcile,
}

reconcile_confirmed-IsSilent : (i : AssetTransferIntent) → IsSilent (reconcile_confirmed i)
unfolding reconcile_confirmed confirmed_receipt
reconcile_confirmed-IsSilent i w = ground arith

reload_intent-IsSilent : (i : AssetTransferIntent) → IsSilent (reload_intent i)
unfolding reload_intent
reload_intent-IsSilent i w = ground (arith, get-IsSilent i.id w)

-- A reconciliation of an intent as it was read again.
abbrev reloaded : ℕ → AssetTransferIntent → Action TransferReconciliation
reloaded now j =
    if is_confirmed j.status
    then reconcile_confirmed j
    else pure (record {
      operation_id = j.id;
      txid = j.txid;
      status = if ltb j.last_valid_round now then expired_unconfirmed else status_of j.status;
      confirmed_round = none;
    })

reloaded-IsSilent : (now : ℕ) (j : AssetTransferIntent) → IsSilent (reloaded now j)
reloaded-IsSilent now j w = ground (arith, reconcile_confirmed-IsSilent j w)

reconcile_unconfirmed-IsSilent :
    (g : Gateway) (i : AssetTransferIntent) (round : Option Value)
    → IsSilent (reconcile_unconfirmed g i round)
unfolding reconcile_unconfirmed
reconcile_unconfirmed-IsSilent g i (some round) w =
    ground (arith, mark_confirmed-IsSilent i.id i.txid round w)
reconcile_unconfirmed-IsSilent g i none w = elim (Result-cases g.current_round) [
  | inr (x, e) ↦ ground (arith, e)
  | inl (now, e) ↦ ground (
    arith,
    e,
    bind-IsSilent (reload_intent i) (reloaded now) (reload_intent-IsSilent i)
        (reloaded-IsSilent now) w,
  )
]

-- `reconcile` from the intent on
abbrev known : Gateway → AssetTransferIntent → Action TransferReconciliation
known g i =
    if is_confirmed i.status
    then reconcile_confirmed i
    else do round ← lift (g.lookup_confirmed_round i.txid); reconcile_unconfirmed g i round

known-IsSilent : (g : Gateway) (i : AssetTransferIntent) → IsSilent (known g i)
known-IsSilent g i w = elim (Result-cases (g.lookup_confirmed_round i.txid)) [
  | inr (x, e) ↦ ground (arith, e, reconcile_confirmed-IsSilent i w)
  | inl (round, e) ↦
      ground
        (arith, e, reconcile_confirmed-IsSilent i w, reconcile_unconfirmed-IsSilent g i round w)
]

or_raise-IsSilent : (o : Option AssetTransferIntent) (e : TransferError) → IsSilent (or_raise o e)
or_raise-IsSilent none e w = refl
or_raise-IsSilent (some i) e w = refl

reconcile-IsSilent : (g : Gateway) (operation_id : Text) → IsSilent (reconcile g operation_id)
unfolding reconcile
reconcile-IsSilent g op =
    bind-IsSilent (get op) (λ found. or_raise found (unknown_transfer op) >>= known g)
      (get-IsSilent op)
      (λ found.
        bind-IsSilent (or_raise found (unknown_transfer op)) (known g)
          (or_raise-IsSilent found (unknown_transfer op)) (known-IsSilent g))

-- A reconciliation names its operation.
abbrev pub Names : Text → TransferReconciliation → Store → Type 0
Names op r s = r.operation_id ≡ op

Run-unchanged :
    {A : Type 0} (Q : A → Store → Type 0) (m : Action A) (w : World)
    → Inv w
    → (m w).1 ≡ w
    → Post Q (m w).0 w.store
    → Run Q w (m w)
Run-unchanged Q m w v e p = subst (λ u. Run Q w ((m w).0, u)) (sym e) (Run-still w (m w).0 v p)

reconcile_confirmed-Post :
    (i : AssetTransferIntent) (w : World)
    → Post (Names i.id) (reconcile_confirmed i w).0 w.store × ((reconcile_confirmed i w).1 ≡ w)
unfolding reconcile_confirmed confirmed_receipt receipt_at
reconcile_confirmed-Post i w = elim (Option-cases i.confirmed_round) [
  | inl e ↦ rw e (tt, refl)
  | inr (r, e) ↦ elim (Bool-cases (leb r max_algorand_uint)) [
    | inl b ↦ rw (e, b) (refl, refl)
    | inr b ↦ rw (e, b) (tt, refl)
  ]
]

reconcile_confirmed-Run :
    (op : Text) (i : AssetTransferIntent) (w : World)
    → Inv w
    → i.id ≡ op
    → Run (Names op) w (reconcile_confirmed i w)
reconcile_confirmed-Run op i w v own =
    let (p, e) = reconcile_confirmed-Post i w in
    Run-unchanged (Names op) (reconcile_confirmed i) w v e
      (subst (λ x. Post (Names x) (reconcile_confirmed i w).0 w.store) own p)

reloaded-Run :
    (op : Text) (now : ℕ) (j : AssetTransferIntent) (w : World)
    → Inv w
    → j.id ≡ op
    → Run (Names op) w (reloaded now j w)
reloaded-Run op now j w v own = elim (Bool-cases (is_confirmed j.status)) [
  | inl e ↦ rw e (reconcile_confirmed-Run op j w v own)
  | inr e ↦ rw e (Run-still w _ v own)
]

-- The intent that is there, or an error.
found-Run :
    (op : Text) (o : Option AssetTransferIntent) (e : TransferError) (w : World)
    → Inv w
    → FoundUnder op o w.store
    → Run (λ i s. i.id ≡ op) w (or_raise o e w)
found-Run op none e w v q = Run-still w (err e) v tt
found-Run op (some i) e w v q = Run-still w (ok i) v q.1

same_transaction-Run :
    (op : Text) (i j : AssetTransferIntent) (w : World)
    → Inv w
    → j.id ≡ op
    → Run
        (λ i s. i.id ≡ op)
        w
        ((raise_if (not (text_eq j.txid i.txid)) (changed_transaction i.id) >> pure j) w)
same_transaction-Run op i j w v own = elim (Bool-cases (text_eq j.txid i.txid)) [
  | inl e ↦ rw e (Run-still w (ok j) v own)
  | inr e ↦ rw e (Run-still w (err (changed_transaction i.id)) v tt)
]

reload_intent-Run :
    (op : Text) (i : AssetTransferIntent) (w : World)
    → Inv w
    → i.id ≡ op
    → Run (λ j s. j.id ≡ op) w (reload_intent i w)
unfolding reload_intent
reload_intent-Run op i w v own = Run-bind w (get i.id) _ (get-Run i.id w v) (λ o u uv ux q.
    Run-bind u (or_raise o (disappeared i.id)) _ (found-Run i.id o (disappeared i.id) u uv q)
      (λ j t tv tx same. same_transaction-Run op i j t tv (same ∙ own)))

-- The reconciliation of an intent that was just confirmed.
abbrev confirmed_result : AssetTransferIntent → TransferReconciliation
confirmed_result c = record {
  operation_id = c.id;
  txid = c.txid;
  status = status_of confirmed;
  confirmed_round = c.confirmed_round;
}

reconcile_unconfirmed-Run :
    (op : Text) (g : Gateway) (i : AssetTransferIntent) (round : Option Value) (w : World)
    → Inv w
    → i.id ≡ op
    → Run (Names op) w (reconcile_unconfirmed g i round w)
unfolding reconcile_unconfirmed
reconcile_unconfirmed-Run op g i (some round) w v own =
    Run-bind w (mark_confirmed i.id i.txid round) (λ c. pure (confirmed_result c))
      (mark_confirmed-Run i.id i.txid round w v)
      (λ c u uv ux q. Run-still u (ok (confirmed_result c)) uv (q.0.1 ∙ own))
reconcile_unconfirmed-Run op g i none w v own = elim (Result-cases g.current_round) [
  | inr (x, e) ↦ rw e (Run-still w (err x) v tt)
  | inl (now, e) ↦ rw e (
      Run-bind w (reload_intent i) (reloaded now) (reload_intent-Run op i w v own)
        (λ j u uv ux same. reloaded-Run op now j u uv same))
]

known-Run :
    (op : Text) (g : Gateway) (i : AssetTransferIntent) (w : World)
    → Inv w
    → i.id ≡ op
    → Run (Names op) w (known g i w)
known-Run op g i w v own = elim (Bool-cases (is_confirmed i.status)) [
  | inl e ↦ rw e (reconcile_confirmed-Run op i w v own)
  | inr e ↦ elim (Result-cases (g.lookup_confirmed_round i.txid)) [
    | inr (x, f) ↦ rw (e, f) (Run-still w (err x) v tt)
    | inl (round, f) ↦ rw (e, f) (reconcile_unconfirmed-Run op g i round w v own)
  ]
]

-- Whatever the gateway answers and whatever other workers write between its calls, as long as they
-- keep what the repository keeps, `reconcile` broadcasts nothing; it keeps every persisted transfer and
-- signed transaction, and every confirmed intent unchanged; and what it returns names the operation
-- asked for.
pub reconcile-Run :
    (g : Gateway) (operation_id : Text) (w : World)
    → Inv w
    → Run (Names operation_id) w (reconcile g operation_id w)
      × ((reconcile g operation_id w).1.sent ≡ w.sent)
unfolding reconcile
reconcile-Run g op w v = (
  Run-bind w (get op) _ (get-Run op w v) (λ o u uv ux q.
      Run-bind u (or_raise o (unknown_transfer op)) (known g)
        (found-Run op o (unknown_transfer op) u uv q) (λ i t tv tx own. known-Run op g i t tv own)),
  reconcile-IsSilent g op w,
)
