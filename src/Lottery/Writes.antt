-- ===== src/Lottery/Writes.antt =====
-- The writes of the lottery's collections, and what they keep.
use mathlib.Core.Path.{subst}
use cometa_backend.Base.{
  ◌≡◌, refl, sym, ◌∙◌, Bool, true, false, ◌&&◌, Option, none, some, List, [], ◌∷◌, ◌++◌, arith, All,
  Bool-cases, inl, inr,
}
use cometa_backend.Base.Rely.{Behaves, Post-weaken, Post, Run, Run-call}
use cometa_backend.Base.Shared.{World, call}
use cometa_backend.Base.Text.{Text, text_eq, text_eq_iff}
use cometa_backend.Transfer.Model.{AssetTransferRequest}
use cometa_backend.Lottery.Model.{
  find_under, put, read, Draw, Entitlement, Db, is_protected, duplicate_lottery_draw_ids,
  find_document, replace_document, commit, update_document, insert_document,
}
use cometa_backend.Lottery.Protocol.{here, next, Step}
use cometa_backend.Lottery.Keeps.{
  HeldIn, HeldIn-later, HeldIn-found, Keeps-trans, Keeps, Held, KeepsAll, KeepsAll-refl,
  KeepsAll-replace, KeepsAll-append, find_document-replace, find_document-insert,
  find_document-document_id, Names, IsBacked, Extends, Extends-refl, shared,
}

Names-later :
    (r : AssetTransferRequest) (o p : Option Draw)
    → Names r o
    → ((d : Draw) → o ≡ some d → Held d p)
    → Names r p
Names-later r none p h k = elim h [ ]
Names-later r (some d) none h k = elim (k d refl) [ ]
Names-later r (some d) (some e) h k =
    let (t, id, full, op, named, wallet, prize, one) = h in
    let keeps : Keeps d e = k d refl in
    (
      t,
      keeps.id t id full,
      full,
      keeps.payout_operation_id _ op,
      named,
      cc (keeps.wallet, wallet),
      cc (keeps.prize, prize),
      one,
    )

pub IsBacked-later :
    (d e : Db) (r : AssetTransferRequest)
    → KeepsAll d.draws e.draws
    → (is_protected d.indexes ≡ true → is_protected e.indexes ≡ true)
    → IsBacked d r
    → IsBacked e r
unfolding KeepsAll
IsBacked-later d e r draws protected b = record {
  protected = protected b.protected;
  document_id = b.document_id;
  names =
      Names-later r (find_document b.document_id d.draws) (find_document b.document_id e.draws)
        b.names (draws b.document_id);
}

pub IsBacked-All :
    (d e : Db) (rs : List AssetTransferRequest)
    → KeepsAll d.draws e.draws
    → (is_protected d.indexes ≡ true → is_protected e.indexes ≡ true)
    → All (IsBacked d) rs
    → All (IsBacked e) rs
IsBacked-All d e [] draws protected h = tt
IsBacked-All d e (r ∷ rs) draws protected h =
    (IsBacked-later d e r draws protected h.0, IsBacked-All d e rs draws protected h.1)

-- A write of draws that keeps every document and leaves the IDs distinct where an index guards them.
Extends-draws :
    (db : Db) (ds : List Draw)
    → KeepsAll db.draws ds
    → (is_protected db.indexes ≡ true → duplicate_lottery_draw_ids ds ≡ false)
    → Extends db (record db { draws = ds })
Extends-draws db ds keeps distinct = record {
  draws = keeps;
  entitlements = λ k. here;
  installed = λ h. h;
  protected = λ h. h;
  valid = λ v. record {
    distinct = distinct;
    backed = IsBacked-All db (record db { draws = ds }) db.requests keeps (λ h. h) v.backed;
  };
}

commit_lem :
    {A : Type 0} (Q : A → Db → Type 0) (a : A) (ds : List Draw) (db : Db)
    → KeepsAll db.draws ds
    → Q a (record db { draws = ds })
    → Extends db (commit a ds db).1 × Post shared Q (commit a ds db).0 (commit a ds db).1
unfolding commit
commit_lem Q a ds db keeps q =
    elim (Bool-cases (is_protected db.indexes && duplicate_lottery_draw_ids ds)) [
      | inl refused ↦ rw (commit, refused) (Extends-refl db, tt)
      | inr accepted ↦
          rw (commit, accepted) (Extends-draws db ds keeps (λ h. ground (arith, h, accepted)), q)
    ]

-- What an update found, and what it wrote.
abbrev pub Changed : Text → (Draw → Bool) → (Draw → Draw) → Db → Option Draw → Db → Type 0
Changed k test change before none after = Unit
Changed k test change before (some e) after =
    (d : Draw) × (find_document k before.draws ≡ some d)
    × (test d ≡ true)
    × (e ≡ change d)
    × (find_document k after.draws ≡ some e)

abbrev pub IsUpdate : (Draw → Bool) → (Draw → Draw) → Type 0
IsUpdate test change = (d : Draw) → test d ≡ true → Keeps d (change d)

update_found :
    (k : Text) (test : Draw → Bool) (change : Draw → Draw) (db : Db) (o : Option Draw)
    → IsUpdate test change
    → find_document k db.draws ≡ o
    → Extends db (update_document k test change db).1
      × Post shared
          (Changed k test change db)
          (update_document k test change db).0
          (update_document k test change db).1
unfolding update_document
update_found k test change db none keeps e = rw (e, update_document) (Extends-refl db, tt)
update_found k test change db (some d) keeps e = elim (Bool-cases (test d)) [
  | inr other ↦ rw (e, update_document, other) (Extends-refl db, tt)
  | inl match ↦
      rw (e, update_document, match)
        (commit_lem (Changed k test change db) (some (change d))
          (replace_document k (change d) db.draws) db
          (KeepsAll-replace k (change d) db.draws d e (keeps d match))
          (
            d,
            e,
            match,
            refl,
            find_document-replace k (change d) db.draws d e
                ((keeps d match).document_id ∙ find_document-document_id k db.draws d e),
          ))
]

-- The same of the document `d` that was read before.
abbrev pub Updated : Draw → (Draw → Bool) → (Draw → Draw) → Option Draw → Db → Type 0
Updated d test change none db = Unit
Updated d test change (some e) db =
    Keeps d e × HeldIn e db.draws × ((b : Draw) × Keeps d b × (test b ≡ true) × (e ≡ change b))

pub update_document_lem :
    (k : Text) (test : Draw → Bool) (change : Draw → Draw) (db : Db)
    → IsUpdate test change
    → Extends db (update_document k test change db).1
      × Post shared
          (Changed k test change db)
          (update_document k test change db).0
          (update_document k test change db).1
update_document_lem k test change db keeps =
    update_found k test change db (find_document k db.draws) keeps refl

-- A document that was found or written is on record.
abbrev pub IsHeld : Option Draw → Db → Type 0
IsHeld none db = Unit
IsHeld (some d) db = HeldIn d db.draws

inserted :
    (d : Draw) (db : Db) (o : Option Draw)
    → find_document d.document_id db.draws ≡ o
    → Extends db (insert_document d db).1
      × Post shared IsHeld (insert_document d db).0 (insert_document d db).1
unfolding insert_document
inserted d db (some e) h = rw (h, insert_document) (Extends-refl db, tt)
inserted d db none h =
    let ds = db.draws ++ d ∷ [] in
    rw (h, insert_document)
      (commit_lem IsHeld (some d) ds db (KeepsAll-append db.draws (d ∷ []))
        (HeldIn-found d.document_id ds d (find_document-insert db.draws d h)))

pub insert_document_lem :
    (d : Draw) (db : Db)
    → Extends db (insert_document d db).1
      × Post shared IsHeld (insert_document d db).0 (insert_document d db).1
insert_document_lem d db = inserted d db (find_document d.document_id db.draws) refl

found_held : (k : Text) (db : Db) (o : Option Draw) → find_document k db.draws ≡ o → IsHeld o db
found_held k db none h = tt
found_held k db (some d) h = HeldIn-found k db.draws d h

pub find_under-IsHeld : (k : Option Text) (db : Db) → IsHeld (find_under k db.draws) db
find_under-IsHeld none db = tt
find_under-IsHeld (some k) db = found_held k db (find_document k db.draws) refl

-- A write of one entitlement, by a step.
pub Extends-entitlement :
    (db : Db) (id : Text) (p : Entitlement)
    → Step (db.entitlements id) (some p)
    → Extends db (record db { entitlements = put id (some p) db.entitlements })
Extends-entitlement db id p step = record {
  draws = KeepsAll-refl db.draws;
  entitlements = λ k. elim (Bool-cases (text_eq id k)) [
    | inl same ↦ rw same (next here (rw⁻¹ ((text_eq_iff id k).0 same) step))
    | inr other ↦ rw other here
  ];
  installed = λ h. h;
  protected = λ h. h;
  valid = λ v. record {
    distinct = v.distinct;
    backed =
        IsBacked-All db (record db { entitlements = put id (some p) db.entitlements }) db.requests
          (KeepsAll-refl db.draws) (λ h. h) v.backed;
  };
}

Held-some : (d : Draw) (o : Option Draw) (e : Draw) → Held d o → o ≡ some e → Keeps d e
Held-some d none e h k = elim h [ ]
Held-some d (some f) e h k = subst (λ (x : Option Draw). Held d x) k h

-- What a document was before, where it is found again.
pub HeldIn-again :
    (d : Draw) (ds es : List Draw) (e : Draw)
    → HeldIn d ds
    → KeepsAll ds es
    → find_document d.document_id es ≡ some e
    → Keeps d e
unfolding HeldIn
HeldIn-again d ds es e h x found =
    Held-some d (find_document d.document_id es) e (HeldIn-later d ds es h x) found

-- A document that is read again by its ID.
abbrev pub Found : Draw → Option Draw → Db → Type 0
Found d none db = Unit
Found d (some e) db = Keeps d e × HeldIn e db.draws

found_lem :
    (d : Draw) (ds : List Draw) (db : Db) (o : Option Draw)
    → HeldIn d ds
    → KeepsAll ds db.draws
    → find_document d.document_id db.draws ≡ o
    → Found d o db
found_lem d ds db none h x e = tt
found_lem d ds db (some f) h x e =
    (HeldIn-again d ds db.draws f h x e, HeldIn-found d.document_id db.draws f e)

pub find_again-Run :
    (d : Draw) (w : World Db)
    → Behaves shared w
    → HeldIn d w.db.draws
    → Run shared (Found d) w (call (read (λ db. find_document d.document_id db.draws)) w)
find_again-Run d w b h =
    Run-call shared w (read (λ db. find_document d.document_id db.draws)) b (λ db r. (
      Extends-refl db,
      found_lem d w.db.draws db (find_document d.document_id db.draws) h r.draws refl,
    ))

updated_lem :
    (d : Draw) (test : Draw → Bool) (change : Draw → Draw) (ds : List Draw) (db after : Db)
    (o : Option Draw)
    → HeldIn d ds
    → KeepsAll ds db.draws
    → IsUpdate test change
    → Changed d.document_id test change db o after
    → Updated d test change o after
updated_lem d test change ds db after none h x keeps c = tt
updated_lem d test change ds db after (some e) h x keeps (b, found, match, same, now) =
    let before = HeldIn-again d ds db.draws b h x found in
    let step : Keeps b e = subst (λ (y : Draw). Keeps b y) (sym same) (keeps b match) in
    (
      Keeps-trans d b e before step,
      HeldIn-found d.document_id after.draws e now,
      (b, before, match, same),
    )

-- An update of a document by its ID, where the fields that the filter names allow the change.
pub update-Run :
    (d : Draw) (test : Draw → Bool) (change : Draw → Draw) (w : World Db)
    → Behaves shared w
    → HeldIn d w.db.draws
    → IsUpdate test change
    → Run shared (Updated d test change) w (call (update_document d.document_id test change) w)
update-Run d test change w b h keeps =
    Run-call shared w (update_document d.document_id test change) b (λ db r.
      let out = update_document d.document_id test change db in
      let (x, p) = update_document_lem d.document_id test change db keeps in
      (
        x,
        Post-weaken shared (Changed d.document_id test change db) (Updated d test change) out.0
            out.1 p (λ o. updated_lem d test change w.db.draws db out.1 o h r.draws keeps),
      ))
