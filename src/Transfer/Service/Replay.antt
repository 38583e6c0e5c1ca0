-- ===== src/Transfer/Service/Replay.antt =====
-- Calls of the service after one another and beside one another.
use cometa_backend.Base.{
  ◌≡◌, refl, sym, ap, ◌∙◌, true, Option, none, some, List, [], ◌∷◌, arith, All, Bool-cases, inl,
  inr,
}
use cometa_backend.Base.Exec.{err}
use cometa_backend.Base.Text.{Text, text_eq_iff}
use cometa_backend.Transfer.Model.{conflict, AssetTransferIntent, AssetTransferRequest}
use cometa_backend.Transfer.Repository.{Store, World, Broadcast, get, interfere}
use cometa_backend.Transfer.Run.{Inv, Behaves, IsBacked, Carries}
use cometa_backend.Transfer.Service.{Gateway, execute, obtain, proceed, same_transfer, note_eq}
use cometa_backend.Transfer.Service.Safety.{execute-Run}

-- What a worker that calls `execute` does to the collection.
abbrev pub worker : Gateway → AssetTransferRequest → Store → Store
worker g request s = (execute g request (record { store = s; others = []; sent = [] })).1.store

-- Another worker's whole call of `execute` is among the interference that a call tolerates: it keeps
-- every persisted transfer, every confirmed intent, and the keys.
pub worker-Behaves : (g : Gateway) (request : AssetTransferRequest) → Behaves (worker g request)
worker-Behaves g request = record {
  extends = λ s k.
      (execute-Run g request (record { store = s; others = []; sent = [] })
        (record { keyed = k; others = tt; backed = tt })).extends;
}

-- Calls of one process after one another; an exception of one does not stop the next.
pub serve : List (Gateway × AssetTransferRequest) → World → World
serve [] w = w
serve ((g, request) ∷ calls) w = serve calls (execute g request w).1

serve-Inv :
    (calls : List (Gateway × AssetTransferRequest)) (w : World) → Inv w → Inv (serve calls w)
unfolding serve
serve-Inv [] w v = v
serve-Inv ((g, request) ∷ calls) w v =
    serve-Inv calls (execute g request w).1 (execute-Run g request w v).inv

-- Two broadcasts under one operation ID carry the same signed transaction.
abbrev pub Agree : Broadcast → Broadcast → Type 0
Agree b c =
    b.operation_id ≡ c.operation_id
    → (b.transfer.signed_transaction ≡ c.transfer.signed_transaction)
      × (b.transfer.txid ≡ c.transfer.txid)

carried_agree :
    (b c : Broadcast) (o : Option AssetTransferIntent)
    → Carries b o
    → Carries c o
    → (b.transfer.signed_transaction ≡ c.transfer.signed_transaction)
      × (b.transfer.txid ≡ c.transfer.txid)
carried_agree b c none h k = elim h [ ]
carried_agree b c (some i) h k = (h.0 ∙ sym k.0, h.1 ∙ sym k.1)

Agree-All :
    (s : Store) (b : Broadcast) (cs : List Broadcast)
    → IsBacked s b
    → All (IsBacked s) cs
    → All (Agree b) cs
Agree-All s b [] h k = tt
Agree-All s b (c ∷ cs) h k =
    (λ e. carried_agree b c (s b.operation_id) h.carries (rw e k.0.carries), Agree-All s b cs h k.1)

All-Agree :
    (s : Store) (bs cs : List Broadcast)
    → All (IsBacked s) bs
    → All (IsBacked s) cs
    → All (λ b. All (Agree b) cs) bs
All-Agree s [] cs h k = tt
All-Agree s (b ∷ bs) cs h k = (Agree-All s b cs h.0 k, All-Agree s bs cs h.1 k)

-- However often, with whatever requests and gateways, and beside whatever other workers transfers
-- are executed: all broadcasts under one operation ID carry one and the same signed transaction.
pub serve-Agree :
    (calls : List (Gateway × AssetTransferRequest)) (w : World)
    → Inv w
    → All (λ b. All (Agree b) (serve calls w).sent) (serve calls w).sent
serve-Agree calls w v =
    let u = serve calls w in
    let i = serve-Inv calls w v in All-Agree u.store u.sent u.sent i.backed i.backed

-- The request asks for the transfer that is persisted.
pub record SameTransfer (i : AssetTransferIntent) (r : AssetTransferRequest) : Type 0 where
  pub receiver : i.receiver ≡ r.receiver
  pub asset_id : i.asset_id ≡ r.asset_id
  pub amount_micros : i.amount_micros ≡ r.amount_micros
  pub note : i.note ≡ r.note

note_eq_sound : (a b : Option Text) → note_eq a b ≡ true → a ≡ b
unfolding note_eq
note_eq_sound none none h = refl
note_eq_sound none (some b) h = cc
note_eq_sound (some a) none h = cc
note_eq_sound (some a) (some b) h = ap some ((text_eq_iff a b).0 h)

same_transfer_sound :
    (i : AssetTransferIntent) (r : AssetTransferRequest)
    → same_transfer i r ≡ true
    → SameTransfer i r
unfolding same_transfer
same_transfer_sound i r h =
    ground (arith, text_eq_iff i.receiver r.receiver, note_eq_sound i.note r.note)

-- An operation ID that is persisted for another receiver, asset, amount or note raises a conflict:
-- nothing is broadcast, and the call writes nothing.
pub execute-conflict :
    (g : Gateway) (request : AssetTransferRequest) (w : World) (i : AssetTransferIntent)
    → (interfere w).store request.operation_id ≡ some i
    → ¬ SameTransfer i request
    → execute g request w ≡ (err (conflict request.operation_id), interfere w)
unfolding execute get obtain proceed
execute-conflict g request w i e other = elim (Bool-cases (same_transfer i request)) [
  | inl same ↦ absurd (other (same_transfer_sound i request same))
  | inr differs ↦ rw (e, differs)
]
