-- ===== src/Lottery/Payout/Asked.antt =====
-- The request for a prize, from a document that is reserved for it.
use cometa_backend.Base.Text.{Text}
use cometa_backend.Base.{inr, inl, false, ◌∷◌, none, some, sym, ap, ◌∙◌, ℕ, true, Option, ◌≡◌}
use cometa_backend.Base.Exec.{Result-cases}
use cometa_backend.Base.Shared.{call, World}
use cometa_backend.Base.Rely.{Run-call, Behaves, Run}
use cometa_backend.Lottery.Protocol.{here}
use cometa_backend.Lottery.Keeps.{HeldIn-later, KeepsAll-refl, Extends, Names, Held, shared, HeldIn}
use cometa_backend.Lottery.Writes.{IsBacked-All}
use cometa_backend.Lottery.Payout.{TransferService, request_sent}
use cometa_backend.Transfer.Model.{AssetTransferRequest}
use cometa_backend.Lottery.Model.{
  is_protected, payout_operation, is_empty, Db, find_document, Draw, value,
}

-- The document is reserved for the payout of `prize` under the ID `id`.
pub record IsReserved (d : Draw) (id wallet : Text) (prize : ℕ) : Type 0 where
  pub named : d.id ≡ value id
  pub full : is_empty id ≡ false
  pub operation : d.payout_operation_id ≡ value (payout_operation id)
  pub owner : d.wallet ≡ wallet
  pub won : d.prize ≡ some prize

-- The request is the payout of `prize`.
abbrev pub IsPayout : AssetTransferRequest → Text → Text → ℕ → Type 0
IsPayout r id wallet prize =
    (r.operation_id ≡ payout_operation id)
    × (r.receiver ≡ wallet)
    × (r.asset_id ≡ prize)
    × (r.amount_micros ≡ 1)

Names-reserved :
    (r : AssetTransferRequest) (d : Draw) (id wallet : Text) (prize : ℕ) (o : Option Draw)
    → IsReserved d id wallet prize
    → IsPayout r id wallet prize
    → Held d o
    → Names r o
Names-reserved r d id wallet prize none s p h = elim h [ ]
Names-reserved r d id wallet prize (some e) s (op, receiver, asset, one) keeps = (
  id,
  keeps.id id s.named s.full,
  s.full,
  keeps.payout_operation_id (payout_operation id) s.operation,
  op,
  keeps.wallet ∙ (s.owner ∙ sym receiver),
  keeps.prize ∙ (s.won ∙ sym (ap some asset)),
  one,
)

requested :
    (r : AssetTransferRequest) (d : Draw) (id wallet : Text) (prize : ℕ) (db : Db)
    → IsReserved d id wallet prize
    → IsPayout r id wallet prize
    → HeldIn d db.draws
    → is_protected db.indexes ≡ true
    → Extends db (record db { requests = r ∷ db.requests })
unfolding HeldIn
requested r d id wallet prize db s p held protected =
    let after : Db = record db { requests = r ∷ db.requests } in
    record {
      draws = KeepsAll-refl db.draws;
      entitlements = λ k. here;
      installed = λ h. h;
      protected = λ h. h;
      valid = λ v. record {
        distinct = v.distinct;
        backed = (
          record {
            protected = protected;
            document_id = d.document_id;
            names =
                Names-reserved r d id wallet prize (find_document d.document_id db.draws) s p held;
          },
          IsBacked-All db after db.requests (KeepsAll-refl db.draws) (λ h. h) v.backed,
        );
      };
    }

pub request_sent-Run :
    (service : TransferService) (r : AssetTransferRequest) (d : Draw) (id wallet : Text) (prize : ℕ)
    (w : World Db)
    → Behaves shared w
    → IsReserved d id wallet prize
    → IsPayout r id wallet prize
    → HeldIn d w.db.draws
    → is_protected w.db.indexes ≡ true
    → Run shared (λ x db. Unit) w (call (request_sent service r) w)
unfolding request_sent
request_sent-Run service r d id wallet prize w b s p held protected =
    Run-call shared w (request_sent service r) b (λ db x.
      let step =
        requested r d id wallet prize db s p (HeldIn-later d w.db.draws db.draws held x.draws)
          (x.protected protected) in
      elim (Result-cases (service r)) [
        | inl (receipt, h) ↦ simp (request_sent, h) (step, tt)
        | inr (e, h) ↦ simp (request_sent, h) (step, tt)
      ])
