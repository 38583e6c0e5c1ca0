-- ===== src/Lottery/Keeps.antt =====
-- What no worker may change in the collections of the lottery, and how the writes of draws keep it.
use mathlib.Core.Path.{subst}
use cometa_backend.Base.{
  ◌≡◌, refl, sym, ◌∙◌, true, false, Option, none, some, List, [], ◌∷◌, ◌++◌, arith, All, Bool-cases,
  inl, inr,
}
use cometa_backend.Base.Rely.{Relation}
use cometa_backend.Base.Text.{Text, text_eq, text_eq_iff, text_eq_refl}
use cometa_backend.Transfer.Model.{AssetTransferRequest}
use cometa_backend.Lottery.Model.{
  payout_operation, value, Draw, Db, nonempty_strings, is_lottery_draw_id_index, is_protected,
  is_empty, duplicate_lottery_draw_ids, find_document, replace_document,
}
use cometa_backend.Lottery.Protocol.{Reach, here, Reach-trans}

-- The document `e` is the document `d` at a later time: what was drawn stays, a draw ID and the
-- operation of its payout stay once they are set, and a claimed draw keeps its payout.
pub record Keeps (d e : Draw) : Type 0 where
  pub document_id : e.document_id ≡ d.document_id
  pub wallet : e.wallet ≡ d.wallet
  pub prize : e.prize ≡ d.prize
  pub timestamp : e.timestamp ≡ d.timestamp
  pub lottery_name : e.lottery_name ≡ d.lottery_name
  pub entitlement_id : e.entitlement_id ≡ d.entitlement_id
  pub entitlement_generation : e.entitlement_generation ≡ d.entitlement_generation
  pub id : (t : Text) → d.id ≡ value t → is_empty t ≡ false → e.id ≡ value t
  pub payout_operation_id :
      (t : Text) → d.payout_operation_id ≡ value t → e.payout_operation_id ≡ value t
  pub claimed :
      d.claimed ≡ value true
      → (e.claimed ≡ value true)
        × (e.payout_txid ≡ d.payout_txid)
        × (e.confirmed_round ≡ d.confirmed_round)

pub Keeps-refl : (d : Draw) → Keeps d d
Keeps-refl d = record {
  document_id = refl;
  wallet = refl;
  prize = refl;
  timestamp = refl;
  lottery_name = refl;
  entitlement_id = refl;
  entitlement_generation = refl;
  id = λ t h k. h;
  payout_operation_id = λ t h. h;
  claimed = λ h. (h, refl, refl);
}

pub Keeps-trans : (c d e : Draw) → Keeps c d → Keeps d e → Keeps c e
Keeps-trans c d e a b = record {
  document_id = b.document_id ∙ a.document_id;
  wallet = b.wallet ∙ a.wallet;
  prize = b.prize ∙ a.prize;
  timestamp = b.timestamp ∙ a.timestamp;
  lottery_name = b.lottery_name ∙ a.lottery_name;
  entitlement_id = b.entitlement_id ∙ a.entitlement_id;
  entitlement_generation = b.entitlement_generation ∙ a.entitlement_generation;
  id = λ t h k. b.id t (a.id t h k) k;
  payout_operation_id = λ t h. b.payout_operation_id t (a.payout_operation_id t h);
  claimed = λ h.
      let (c1, x1, r1) = a.claimed h in let (c2, x2, r2) = b.claimed c1 in (c2, x2 ∙ x1, r2 ∙ r1);
}

-- The document of `d`, as it is now.
abbrev pub Held : Draw → Option Draw → Type 0
Held d none = ⊥
Held d (some e) = Keeps d e

pub Held-trans : (d e : Draw) (o : Option Draw) → Keeps d e → Held e o → Held d o
Held-trans d e none a h = h
Held-trans d e (some f) a h = Keeps-trans d e f a h

unfoldable pub HeldIn : Draw → List Draw → Type 0
HeldIn d ds = Held d (find_document d.document_id ds)

-- Every document is still there.
unfoldable pub KeepsAll : List Draw → List Draw → Type 0
KeepsAll ds es = (k : Text) (d : Draw) → find_document k ds ≡ some d → Held d (find_document k es)

pub KeepsAll-refl : (ds : List Draw) → KeepsAll ds ds
unfolding KeepsAll
KeepsAll-refl ds k d e = rw e (Keeps-refl d)

Held-later :
    (d : Draw) (k : Text) (ds es : List Draw) (o : Option Draw)
    → find_document k ds ≡ o
    → Held d o
    → KeepsAll ds es
    → Held d (find_document k es)
unfolding KeepsAll
Held-later d k ds es none e h x = elim h [ ]
Held-later d k ds es (some f) e h x = Held-trans d f (find_document k es) h (x k f e)

pub KeepsAll-trans : (ds es fs : List Draw) → KeepsAll ds es → KeepsAll es fs → KeepsAll ds fs
unfolding KeepsAll
KeepsAll-trans ds es fs a b k d e = Held-later d k es fs (find_document k es) refl (a k d e) b

pub HeldIn-later : (d : Draw) (ds es : List Draw) → HeldIn d ds → KeepsAll ds es → HeldIn d es
unfolding HeldIn
HeldIn-later d ds es h x =
    Held-later d d.document_id ds es (find_document d.document_id ds) refl h x

pub find_document-document_id :
    (k : Text) (ds : List Draw) (d : Draw) → find_document k ds ≡ some d → d.document_id ≡ k
unfolding find_document
find_document-document_id k [] d h = cc
find_document-document_id k (x ∷ ds) d h =
    ground (arith, text_eq_iff k x.document_id, find_document-document_id k ds d)

pub HeldIn-found :
    (k : Text) (ds : List Draw) (d : Draw) → find_document k ds ≡ some d → HeldIn d ds
unfolding HeldIn
HeldIn-found k ds d e = simp (find_document-document_id k ds d e, e) (Keeps-refl d)

pub find_document-replace :
    (k : Text) (e : Draw) (ds : List Draw) (d : Draw)
    → find_document k ds ≡ some d
    → e.document_id ≡ k
    → find_document k (replace_document k e ds) ≡ some e
unfolding find_document replace_document
find_document-replace k e [] d h own = cc
find_document-replace k e (x ∷ ds) d h own =
    ground (arith, text_eq_iff k e.document_id, find_document-replace k e ds d)

KeepsAll-head : (x e : Draw) (ds : List Draw) → Keeps x e → KeepsAll (x ∷ ds) (e ∷ ds)
unfolding KeepsAll find_document
KeepsAll-head x e ds keeps j i g = elim (Bool-cases (text_eq j x.document_id)) [
  | inl this ↦
      let same : x ≡ i = ground (arith, this, g) in
      simp (keeps.document_id, this) (subst (λ (y : Draw). Keeps y e) same keeps)
  | inr other ↦
      let found : find_document j ds ≡ some i = ground (arith, other, g) in
      simp (keeps.document_id, other, found) (Keeps-refl i)
]

KeepsAll-tail : (x : Draw) (ds es : List Draw) → KeepsAll ds es → KeepsAll (x ∷ ds) (x ∷ es)
unfolding KeepsAll find_document
KeepsAll-tail x ds es keeps j i g = elim (Bool-cases (text_eq j x.document_id)) [
  | inl this ↦
      let same : x ≡ i = ground (arith, this, g) in
      rw this (subst (λ (y : Draw). Keeps i y) (sym same) (Keeps-refl i))
  | inr other ↦
      let found : find_document j ds ≡ some i = ground (arith, other, g) in
      rw other (keeps j i found)
]

pub KeepsAll-replace :
    (k : Text) (e : Draw) (ds : List Draw) (d : Draw)
    → find_document k ds ≡ some d
    → Keeps d e
    → KeepsAll ds (replace_document k e ds)
unfolding find_document replace_document
KeepsAll-replace k e [] d h keeps = cc
KeepsAll-replace k e (x ∷ ds) d h keeps = elim (Bool-cases (text_eq k x.document_id)) [
  | inl this ↦
      let same : d ≡ x = ground (arith, this, h) in
      rw this (KeepsAll-head x e ds (subst (λ (y : Draw). Keeps y e) same keeps))
  | inr other ↦
      let found : find_document k ds ≡ some d = ground (arith, other, h) in
      rw other
        (KeepsAll-tail x ds (replace_document k e ds) (KeepsAll-replace k e ds d found keeps))
]

pub find_document-append :
    (k : Text) (ds es : List Draw) (d : Draw)
    → find_document k ds ≡ some d
    → find_document k (ds ++ es) ≡ some d
unfolding find_document
find_document-append k [] es d h = cc
find_document-append k (x ∷ ds) es d h = ground (arith, find_document-append k ds es d)

pub find_document-insert :
    (ds : List Draw) (d : Draw)
    → find_document d.document_id ds ≡ none
    → find_document d.document_id (ds ++ d ∷ []) ≡ some d
unfolding find_document
find_document-insert [] d h = rw (text_eq_refl d.document_id)
find_document-insert (x ∷ ds) d h = ground (arith, find_document-insert ds d)

pub KeepsAll-append : (ds es : List Draw) → KeepsAll ds (ds ++ es)
unfolding KeepsAll
KeepsAll-append ds es k d h = rw (find_document-append k ds es d h) (Keeps-refl d)

-- A request for a payout names the draw under the document `o`: the operation that the draw is
-- reserved for, its wallet, and one unit of its prize.
abbrev pub Names : AssetTransferRequest → Option Draw → Type 0
Names r none = ⊥
Names r (some d) =
    (t : Text) × (d.id ≡ value t)
    × (is_empty t ≡ false)
    × (d.payout_operation_id ≡ value (payout_operation t))
    × (r.operation_id ≡ payout_operation t)
    × (d.wallet ≡ r.receiver)
    × (d.prize ≡ some r.asset_id)
    × (r.amount_micros ≡ 1)

pub record IsBacked (db : Db) (r : AssetTransferRequest) : Type 0 where
  pub protected : is_protected db.indexes ≡ true
  pub document_id : Text
  pub names : Names r (find_document document_id db.draws)

pub record IsValid (db : Db) : Type 0 where
  pub distinct : is_protected db.indexes ≡ true → duplicate_lottery_draw_ids db.draws ≡ false
  pub backed : All (IsBacked db) db.requests

-- What a worker relies on and guarantees: documents stay, an entitlement moves by its steps, a
-- unique index on draw IDs is never missing once there is one, and every payout that was requested
-- is that of a draw on record.
pub record Extends (d e : Db) : Type 0 where
  pub draws : KeepsAll d.draws e.draws
  pub entitlements : (k : Text) → Reach (d.entitlements k) (e.entitlements k)
  pub installed :
      is_lottery_draw_id_index nonempty_strings d.indexes.id_nonempty_unique ≡ true
      → is_lottery_draw_id_index nonempty_strings e.indexes.id_nonempty_unique ≡ true
  pub protected : is_protected d.indexes ≡ true → is_protected e.indexes ≡ true
  pub valid : IsValid d → IsValid e

pub Extends-refl : (d : Db) → Extends d d
Extends-refl d = record {
  draws = KeepsAll-refl d.draws;
  entitlements = λ k. here;
  installed = λ h. h;
  protected = λ h. h;
  valid = λ h. h;
}

pub Extends-trans : (d e f : Db) → Extends d e → Extends e f → Extends d f
Extends-trans d e f a b = record {
  draws = KeepsAll-trans d.draws e.draws f.draws a.draws b.draws;
  entitlements = λ k. Reach-trans (a.entitlements k) (b.entitlements k);
  installed = λ h. b.installed (a.installed h);
  protected = λ h. b.protected (a.protected h);
  valid = λ h. b.valid (a.valid h);
}

abbrev pub shared : Relation Db
shared = record { rel = Extends; same = Extends-refl; join = Extends-trans }
