-- ===== src/Lottery/Agree.antt =====
-- Payouts under one operation ID, and the draw that a draw ID names.
use cometa_backend.Base.Text.{text, text_eq_refl, text_eq, Text}
use cometa_backend.Base.{
  Option, ℕ, ◌≡◌, refl, sym, ap, ◌∙◌, inl, inr, [], ◌∷◌, none, some, List, ◌++◌, true, false, All,
  arith, Bool-cases,
}
use cometa_backend.Lottery.Keeps.{Names, IsValid, IsBacked}
use cometa_backend.Lottery.Entitlement.Progress.{some_inj}
use cometa_backend.Lottery.Model.{
  repeated, is_empty, any_has_id, Db, duplicate_lottery_draw_ids, value, Draw, find_document,
}
use cometa_backend.Transfer.Model.{AssetTransferRequest}

-- Two requests under one operation ID pay the same amount of the same prize to the same wallet.
abbrev pub Agree : AssetTransferRequest → AssetTransferRequest → Type 0
Agree r s =
    r.operation_id ≡ s.operation_id
    → (r.receiver ≡ s.receiver) × (r.asset_id ≡ s.asset_id) × (r.amount_micros ≡ s.amount_micros)

found_any :
    (k t : Text) (ds : List Draw) (e : Draw)
    → find_document k ds ≡ some e
    → e.id ≡ value t
    → any_has_id t ds ≡ true
unfolding find_document
found_any k t [] e h own = cc
found_any k t (x ∷ ds) e h own = elim (Bool-cases (text_eq k x.document_id)) [
  | inl this ↦
      let same : x ≡ e = ground (arith, this, h) in
      rw (ap (λ (d : Draw). d.id) same ∙ own, text_eq_refl t) refl
  | inr later ↦
      let found : find_document k ds ≡ some e = ground (arith, later, h) in
      ground (arith, found_any k t ds e found own)
]

repeated_lem :
    (d : Draw) (t : Text) (ds : List Draw)
    → d.id ≡ value t
    → is_empty t ≡ false
    → any_has_id t ds ≡ true
    → repeated d ds ≡ true
repeated_lem d t ds own full any = rw (own, full, any) refl

-- A draw ID names one document.
named_once :
    (ds : List Draw) (j k t : Text) (d e : Draw)
    → duplicate_lottery_draw_ids ds ≡ false
    → find_document j ds ≡ some d
    → find_document k ds ≡ some e
    → d.id ≡ value t
    → e.id ≡ value t
    → is_empty t ≡ false
    → d ≡ e
unfolding find_document duplicate_lottery_draw_ids
named_once [] j k t d e once fd fe hd he full = cc
named_once (x ∷ ds) j k t d e once fd fe hd he full = elim (Bool-cases (text_eq j x.document_id)) [
  | inl jx ↦
      let xd : x ≡ d = ground (arith, jx, fd) in
      elim (Bool-cases (text_eq k x.document_id)) [
        | inl kx ↦ let xe : x ≡ e = ground (arith, kx, fe) in sym xd ∙ xe
        | inr kl ↦
            let found : find_document k ds ≡ some e = ground (arith, kl, fe) in
            let twice =
              repeated_lem x t ds (ap (λ (y : Draw). y.id) xd ∙ hd) full
                (found_any k t ds e found he) in
            absurd (ground (arith, once, twice))
      ]
  | inr jl ↦
      let found : find_document j ds ≡ some d = ground (arith, jl, fd) in
      elim (Bool-cases (text_eq k x.document_id)) [
        | inl kx ↦
            let xe : x ≡ e = ground (arith, kx, fe) in
            let twice =
              repeated_lem x t ds (ap (λ (y : Draw). y.id) xe ∙ he) full
                (found_any j t ds d found hd) in
            absurd (ground (arith, once, twice))
        | inr kl ↦
            let other : find_document k ds ≡ some e = ground (arith, kl, fe) in
            named_once ds j k t d e (ground (arith, once)) found other hd he full
      ]
]

append_cancel : (p a b : Text) → p ++ a ≡ p ++ b → a ≡ b
append_cancel [] a b h = h
append_cancel (c ∷ p) a b h = append_cancel p a b (tail_eq h)
  where
    tail_eq : {x y : ℕ} {xs ys : List ℕ} → x ∷ xs ≡ y ∷ ys → xs ≡ ys
    tail_eq {x} {y} {xs} {ys} e = cc

Names-Agree :
    (db : Db) (r s : AssetTransferRequest) (j k : Text) (o p : Option Draw)
    → duplicate_lottery_draw_ids db.draws ≡ false
    → find_document j db.draws ≡ o
    → find_document k db.draws ≡ p
    → Names r o
    → Names s p
    → Agree r s
Names-Agree db r s j k none p once fj fk nr ns same = elim nr [ ]
Names-Agree db r s j k (some d) none once fj fk nr ns same = elim ns [ ]
Names-Agree db r s j k (some d) (some e) once fj fk nr ns same =
    let (t, idr, full, opr, named, walletr, prizer, oner) = nr in
    let (u, ids, fulls, ops, nameds, wallets, prizes, ones) = ns in
    let tu : t ≡ u = append_cancel (text "nft:lottery:") t u (sym named ∙ (same ∙ nameds)) in
    let de : d ≡ e = named_once db.draws j k t d e once fj fk idr (ids ∙ ap value (sym tu)) full in
    (
      sym walletr ∙ (ap (λ (x : Draw). x.wallet) de ∙ wallets),
      some_inj (sym prizer ∙ (ap (λ (x : Draw). x.prize) de ∙ prizes)),
      oner ∙ sym ones,
    )

IsBacked-Agree :
    (db : Db) (r s : AssetTransferRequest) → IsValid db → IsBacked db r → IsBacked db s → Agree r s
IsBacked-Agree db r s v b c =
    Names-Agree db r s b.document_id c.document_id (find_document b.document_id db.draws)
      (find_document c.document_id db.draws) (v.distinct b.protected) refl refl b.names c.names

Agree-All :
    (db : Db) (r : AssetTransferRequest) (ss : List AssetTransferRequest)
    → IsValid db
    → IsBacked db r
    → All (IsBacked db) ss
    → All (Agree r) ss
Agree-All db r [] v b h = tt
Agree-All db r (s ∷ ss) v b h = (IsBacked-Agree db r s v b h.0, Agree-All db r ss v b h.1)

All-Agree :
    (db : Db) (rs ss : List AssetTransferRequest)
    → IsValid db
    → All (IsBacked db) rs
    → All (IsBacked db) ss
    → All (λ r. All (Agree r) ss) rs
All-Agree db [] ss v h k = tt
All-Agree db (r ∷ rs) ss v h k = (Agree-All db r ss v h.0 k, All-Agree db rs ss v h.1 k)

pub IsValid-Agree : (db : Db) → IsValid db → All (λ r. All (Agree r) db.requests) db.requests
IsValid-Agree db v = All-Agree db db.requests db.requests v v.backed v.backed
