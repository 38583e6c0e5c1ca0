-- ===== src/Transfer/Keeps.antt =====
-- What no worker may change in a persisted intent, and that every write of the repository keeps it.
use cometa_backend.Base.{◌≡◌, refl, ap, ◌∙◌, Option, none, some, arith, Bool-cases, inl, inr}
use cometa_backend.Base.Text.{Text, text_eq, text_eq_iff}
use cometa_backend.Transfer.Model.{confirmed, AssetTransferIntent}
use cometa_backend.Transfer.Repository.{Store, put}

-- The transfer and its signed transaction stay as they are, and a confirmed intent does not change
-- at all.
pub record Keeps (i j : AssetTransferIntent) : Type 0 where
  pub id : j.id ≡ i.id
  pub receiver : j.receiver ≡ i.receiver
  pub asset_id : j.asset_id ≡ i.asset_id
  pub amount_micros : j.amount_micros ≡ i.amount_micros
  pub note : j.note ≡ i.note
  pub signed_transaction : j.signed_transaction ≡ i.signed_transaction
  pub txid : j.txid ≡ i.txid
  pub first_valid_round : j.first_valid_round ≡ i.first_valid_round
  pub last_valid_round : j.last_valid_round ≡ i.last_valid_round
  pub terminal : i.status ≡ confirmed → j ≡ i

pub Keeps-refl : (i : AssetTransferIntent) → Keeps i i
Keeps-refl i = record {
  id = refl;
  receiver = refl;
  asset_id = refl;
  amount_micros = refl;
  note = refl;
  signed_transaction = refl;
  txid = refl;
  first_valid_round = refl;
  last_valid_round = refl;
  terminal = λ h. refl;
}

pub Keeps-trans : (i j k : AssetTransferIntent) → Keeps i j → Keeps j k → Keeps i k
Keeps-trans i j k a b = record {
  id = b.id ∙ a.id;
  receiver = b.receiver ∙ a.receiver;
  asset_id = b.asset_id ∙ a.asset_id;
  amount_micros = b.amount_micros ∙ a.amount_micros;
  note = b.note ∙ a.note;
  signed_transaction = b.signed_transaction ∙ a.signed_transaction;
  txid = b.txid ∙ a.txid;
  first_valid_round = b.first_valid_round ∙ a.first_valid_round;
  last_valid_round = b.last_valid_round ∙ a.last_valid_round;
  terminal = λ h.
      b.terminal (ap (λ (x : AssetTransferIntent). x.status) (a.terminal h) ∙ h) ∙ a.terminal h;
}

-- The document of `i`, as it is now.
abbrev pub Held : AssetTransferIntent → Option AssetTransferIntent → Type 0
Held i none = ⊥
Held i (some j) = Keeps i j

pub Held-trans :
    (i j : AssetTransferIntent) (o : Option AssetTransferIntent) → Keeps i j → Held j o → Held i o
Held-trans i j none a h = h
Held-trans i j (some k) a h = Keeps-trans i j k a h

-- `t` still has every intent of `s`, and each document stands under its own ID.
pub record Extends (s t : Store) : Type 0 where
  pub keyed : (k : Text) (j : AssetTransferIntent) → t k ≡ some j → j.id ≡ k
  pub held : (k : Text) (i : AssetTransferIntent) → s k ≡ some i → Held i (t k)

abbrev pub Keyed : Store → Type 0
Keyed s = (k : Text) (j : AssetTransferIntent) → s k ≡ some j → j.id ≡ k

Held-eq : (i : AssetTransferIntent) (o p : Option AssetTransferIntent) → o ≡ p → Held i o → Held i p
Held-eq i o p e h = rw e at h

pub Extends-refl : (s : Store) → Keyed s → Extends s s
Extends-refl s h = record { keyed = h; held = λ k i e. rw e (Keeps-refl i) }

Held-later :
    (s t : Store) (k : Text) (i : AssetTransferIntent) (o : Option AssetTransferIntent)
    → s k ≡ o
    → Held i o
    → Extends s t
    → Held i (t k)
Held-later s t k i none e h x = elim h [ ]
Held-later s t k i (some j) e h x = Held-trans i j (t k) h (x.held k j e)

-- An intent that is held stays held.
pub Held-Extends :
    (s t : Store) (k : Text) (i : AssetTransferIntent) → Held i (s k) → Extends s t → Held i (t k)
Held-Extends s t k i h x = Held-later s t k i (s k) refl h x

pub Extends-trans : (s t u : Store) → Extends s t → Extends t u → Extends s u
Extends-trans s t u a b = record {
  keyed = b.keyed;
  held = λ k i e. Held-Extends t u k i (a.held k i e) b;
}

-- Writing a document that keeps the one that is there, or a first one, under its own ID.
pub Extends-put :
    (s : Store) (id : Text) (i : AssetTransferIntent)
    → Keyed s
    → i.id ≡ id
    → ((j : AssetTransferIntent) → s id ≡ some j → Keeps j i)
    → Extends s (put id i s)
Extends-put s id i keyed own keeps = record {
  keyed = λ k j e. elim (Bool-cases (text_eq id k)) [
    | inl same ↦ ground (arith, text_eq_iff id k)
    | inr other ↦ ground (arith, keyed k j)
  ];
  held = λ k j e. elim (Bool-cases (text_eq id k)) [
    | inl same ↦ rw same (keeps j (ap s ((text_eq_iff id k).0 same) ∙ e))
    | inr other ↦ rw (other, e) (Keeps-refl j)
  ];
}
