-- ===== src/Transfer/Repository/Writes.antt =====
-- What every action of the repository guarantees, however it ends and whatever other workers do
-- meanwhile.
use mathlib.Core.Path.{subst}
use cometa_backend.Base.{
  take, ◌+◌, ℕ, ◌≡◌, refl, sym, ◌∙◌, true, false, Option, none, some, arith, Bool-cases, inl, inr,
}
use cometa_backend.Base.Exec.{Result, Result-cases, ok, err}
use cometa_backend.Base.Text.{Text, text_eq_iff}
use cometa_backend.Base.Value.{Value}
use cometa_backend.Uint64.{require_algorand_uint64}
use cometa_backend.Transfer.Model.{
  TransferError, persistence, AssetTransferIntent, TransferStatus, submitted, confirmed,
}
use cometa_backend.Transfer.Repository.{
  Store, World, call, put, get, reserve, find_intent, upsert, find_and_update, non_terminal,
  update_non_terminal, settle_update, already_confirmed, with_attempt, with_submission,
  with_confirmation, with_error, record_attempt, mark_submitted, mark_confirmed, record_error,
  same_confirmation, settle_confirmation, confirm_round,
}
use cometa_backend.Transfer.Keeps.{
  Keeps, Keeps-refl, Held, Extends, Extends-refl, Extends-put, Keyed,
}
use cometa_backend.Transfer.Run.{Run, Run-weaken, Run-bind, Run-still, Run-call, Inv, Post}

-- The intent is the persisted one under its ID.
abbrev pub Persisted : AssetTransferIntent → Store → Type 0
Persisted i s = Held i (s i.id)

-- The result of a write names the transfer asked for.
abbrev pub Written : Text → Text → AssetTransferIntent → Store → Type 0
Written id txid i s = Persisted i s × (i.id ≡ id) × (i.txid ≡ txid)

abbrev pub FoundUnder : Text → Option AssetTransferIntent → Store → Type 0
FoundUnder id none s = Unit
FoundUnder id (some i) s = Persisted i s × (i.id ≡ id)

Persisted-at :
    (id : Text) (s : Store) (i : AssetTransferIntent) → i.id ≡ id → s id ≡ some i → Persisted i s
Persisted-at id s i own e = simp (own, e) (Keeps-refl i)

found_under :
    (id : Text) (s : Store) (o : Option AssetTransferIntent)
    → Keyed s
    → s id ≡ o
    → FoundUnder id o s
found_under id s none k e = tt
found_under id s (some i) k e = let own = k id i e in (simp (own, e) (Keeps-refl i), own)

pub get-Run : (id : Text) (w : World) → Inv w → Run (FoundUnder id) w (get id w)
unfolding get
get-Run id w i =
    Run-call w (find_intent id) i (λ s k x. (Extends-refl s k, found_under id s (s id) k refl))

-- A document that was just written is the persisted one.
held_after_put :
    (i : AssetTransferIntent) (id : Text) (s : Store) → i.id ≡ id → Persisted i (put id i s)
held_after_put i id s own = rw ((text_eq_iff id i.id).1 (sym own)) (Keeps-refl i)

abbrev pub Reserved : Text → AssetTransferIntent → Store → Type 0
Reserved id j s = Persisted j s × (j.id ≡ id)

upsert_lem :
    (i : AssetTransferIntent) (s : Store) (o : Option AssetTransferIntent)
    → Keyed s
    → s i.id ≡ o
    → Extends s (upsert i s).1 × Post (Reserved i.id) (upsert i s).0 (upsert i s).1
unfolding upsert
upsert_lem i s none k e =
    rw (e, upsert)
      (Extends-put s i.id i k refl (λ j h. cc (e, h)), (held_after_put i i.id s refl, refl))
upsert_lem i s (some j) k e = rw (e, upsert) (Extends-refl s k, found_under i.id s (some j) k e)

pub reserve-Run :
    (i : AssetTransferIntent) (w : World) → Inv w → Run (Reserved i.id) w (reserve i w)
unfolding reserve
reserve-Run i w v = Run-call w (upsert i) v (λ s k x. upsert_lem i s (s i.id) k refl)

non_terminal_lem :
    (txid : Text) (i : AssetTransferIntent)
    → non_terminal txid i ≡ true
    → (i.txid ≡ txid) × ¬ (i.status ≡ confirmed)
non_terminal_lem txid i h =
    (ground (arith, text_eq_iff i.txid txid), λ e. ground (arith, text_eq_iff i.txid txid))

-- An update of a transfer that is not confirmed: it leaves what `Keeps` names.
abbrev IsUpdate : (AssetTransferIntent → AssetTransferIntent) → Type 0
IsUpdate f = (i : AssetTransferIntent) → ¬ (i.status ≡ confirmed) → Keeps i (f i)

abbrev Found :
    Text → Text → (AssetTransferIntent → Type 0) → Option AssetTransferIntent → Store → Type 0
Found id txid P none s = Unit
Found id txid P (some i) s = Written id txid i s × P i

live_update :
    (i : AssetTransferIntent) (status : TransferStatus) (count : ℕ) (round : Option ℕ)
    (error : Option Text)
    → ¬ (i.status ≡ confirmed)
    → Keeps i (record i {
      status = status;
      attempt_count = count;
      confirmed_round = round;
      last_error = error;
    })
live_update i status count round error live = record {
  id = refl;
  receiver = refl;
  asset_id = refl;
  amount_micros = refl;
  note = refl;
  signed_transaction = refl;
  txid = refl;
  first_valid_round = refl;
  last_valid_round = refl;
  terminal = λ h. absurd (live h);
}

find_and_update_lem :
    (id txid : Text) (f : AssetTransferIntent → AssetTransferIntent)
    (P : AssetTransferIntent → Type 0) (s : Store) (o : Option AssetTransferIntent)
    → IsUpdate f
    → ((i : AssetTransferIntent) → P (f i))
    → Keyed s
    → s id ≡ o
    → Extends s (find_and_update id txid f s).1
      × Post (Found id txid P) (find_and_update id txid f s).0 (find_and_update id txid f s).1
unfolding find_and_update
find_and_update_lem id txid f P s none keeps holds k e =
    rw (e, find_and_update) (Extends-refl s k, tt)
find_and_update_lem id txid f P s (some i) keeps holds k e =
    elim (Bool-cases (non_terminal txid i)) [
      | inr other ↦ rw (e, find_and_update, other) (Extends-refl s k, tt)
      | inl match ↦
          let (same_tx, live) = non_terminal_lem txid i match in
          let kept : Keeps i (f i) = keeps i live in
          let own : (f i).id ≡ id = kept.id ∙ k id i e in
          rw (e, find_and_update, match)
            (
              Extends-put s id (f i) k own (λ j h.
                  let same : i ≡ j = cc (e, h) in
                  subst (λ (x : AssetTransferIntent). Keeps x (f i)) same kept),
              ((held_after_put (f i) id s own, own, kept.txid ∙ same_tx), holds i),
            )
    ]

-- Any outcome of a call that reads one document and raises unless it satisfies `P`.
settled_lem :
    (id txid : Text) (P : AssetTransferIntent → Type 0)
    (check : Option AssetTransferIntent → Result TransferError AssetTransferIntent) (s : Store)
    (o : Option AssetTransferIntent)
    → ((p : Option AssetTransferIntent) (i : AssetTransferIntent)
        → check p ≡ ok i
        → (p ≡ some i) × (i.txid ≡ txid) × P i)
    → Keyed s
    → s id ≡ o
    → Post (λ i t. Written id txid i t × P i) (check o) s
settled_lem id txid P check s o good k e = elim (Result-cases (check o)) [
  | inr (x, h) ↦ rw h tt
  | inl (i, h) ↦
      let (found, same_tx, p) = good o i h in
      let at : s id ≡ some i = e ∙ found in
      let own : i.id ≡ id = k id i at in rw h ((Persisted-at id s i own at, own, same_tx), p)
]

already_confirmed_lem :
    (txid : Text) (o : Option AssetTransferIntent) (i : AssetTransferIntent)
    → already_confirmed txid o ≡ ok i
    → (o ≡ some i) × (i.txid ≡ txid) × Unit {0}
unfolding already_confirmed
already_confirmed_lem txid none i h = cc
already_confirmed_lem txid (some j) i h =
    (ground (arith, text_eq_iff j.txid txid), ground (arith, text_eq_iff j.txid txid), tt)

settle_update-Run :
    (id txid : Text) (o : Option AssetTransferIntent) (w : World)
    → Inv w
    → Found id txid (λ i. Unit) o w.store
    → Run (Written id txid) w (settle_update id txid o w)
unfolding settle_update
settle_update-Run id txid (some i) w v q = Run-still w (ok i) v q.0
settle_update-Run id txid none w v q =
    Run-weaken w _ (λ i t h. h.0)
      (Run-call w (λ s. (already_confirmed txid (s id), s)) v
        (λ s k x. (
          Extends-refl s k,
          settled_lem id txid (λ i. Unit) (already_confirmed txid) s (s id)
              (already_confirmed_lem txid) k refl,
        )))

update_non_terminal-Run :
    (id txid : Text) (f : AssetTransferIntent → AssetTransferIntent) (w : World)
    → IsUpdate f
    → Inv w
    → Run (Written id txid) w (update_non_terminal id txid f w)
unfolding update_non_terminal
update_non_terminal-Run id txid f w keeps v =
    Run-bind w (call (find_and_update id txid f)) (settle_update id txid)
      (Run-call w (find_and_update id txid f) v
        (λ s k x. find_and_update_lem id txid f (λ i. Unit) s (s id) keeps (λ i. tt) k refl))
      (λ o u uv ux q. settle_update-Run id txid o u uv q)

pub record_attempt-Run :
    (id txid : Text) (w : World) → Inv w → Run (Written id txid) w (record_attempt id txid w)
unfolding record_attempt
record_attempt-Run id txid w v =
    update_non_terminal-Run id txid with_attempt w
      (λ i live. live_update i i.status (i.attempt_count + 1) i.confirmed_round i.last_error live) v

pub mark_submitted-Run :
    (id txid : Text) (w : World) → Inv w → Run (Written id txid) w (mark_submitted id txid w)
unfolding mark_submitted
mark_submitted-Run id txid w v =
    update_non_terminal-Run id txid with_submission w
      (λ i live. live_update i submitted i.attempt_count i.confirmed_round none live) v

pub record_error-Run :
    (id txid e : Text) (w : World) → Inv w → Run (Written id txid) w (record_error id txid e w)
unfolding record_error
record_error-Run id txid e w v =
    update_non_terminal-Run id txid (with_error e) w
      (λ i live. live_update i i.status i.attempt_count i.confirmed_round (some (take 500 e)) live)
      v

-- A confirmation that went through: the intent is confirmed in that round.
abbrev pub ConfirmedIn : ℕ → AssetTransferIntent → Type 0
ConfirmedIn r i = (i.status ≡ confirmed) × (i.confirmed_round ≡ some r)

same_confirmation_lem :
    (txid : Text) (r : ℕ) (o : Option AssetTransferIntent) (i : AssetTransferIntent)
    → same_confirmation txid r o ≡ ok i
    → (o ≡ some i) × (i.txid ≡ txid) × ConfirmedIn r i
unfolding same_confirmation
same_confirmation_lem txid r none i h = cc
same_confirmation_lem txid r (some j) i h = ground (arith, text_eq_iff j.txid txid)

settle_confirmation-Run :
    (id txid : Text) (r : ℕ) (o : Option AssetTransferIntent) (w : World)
    → Inv w
    → Found id txid (ConfirmedIn r) o w.store
    → Run (λ i t. Written id txid i t × ConfirmedIn r i) w (settle_confirmation id txid r o w)
unfolding settle_confirmation
settle_confirmation-Run id txid r (some i) w v q = Run-still w (ok i) v q
settle_confirmation-Run id txid r none w v q =
    Run-call w (λ s. (same_confirmation txid r (s id), s)) v
      (λ s k x. (
        Extends-refl s k,
        settled_lem id txid (ConfirmedIn r) (same_confirmation txid r) s (s id)
            (same_confirmation_lem txid r) k refl,
      ))

abbrev pub IsConfirmed : AssetTransferIntent → Type 0
IsConfirmed i = i.status ≡ confirmed

confirm_round-Run :
    (id txid : Text) (o : Option ℕ) (w : World)
    → Inv w
    → Run (λ i t. Written id txid i t × IsConfirmed i) w (confirm_round id txid o w)
unfolding confirm_round
confirm_round-Run id txid none w v = Run-still w (err persistence) v tt
confirm_round-Run id txid (some r) w v =
    Run-bind w (call (find_and_update id txid (with_confirmation r)))
      (λ o u. settle_confirmation id txid r o u)
      (Run-call w (find_and_update id txid (with_confirmation r)) v (λ s k x.
        find_and_update_lem id txid (with_confirmation r) (ConfirmedIn r) s (s id)
          (λ i live. live_update i confirmed i.attempt_count (some r) none live) (λ i. (refl, refl))
          k refl))
      (λ o u uv ux q.
        Run-weaken u _ (λ i t h. (h.0, h.1.0)) (settle_confirmation-Run id txid r o u uv q))

pub mark_confirmed-Run :
    (id txid : Text) (round : Value) (w : World)
    → Inv w
    → Run (λ i t. Written id txid i t × IsConfirmed i) w (mark_confirmed id txid round w)
unfolding mark_confirmed
mark_confirmed-Run id txid round w v =
    confirm_round-Run id txid (require_algorand_uint64 round false) w v
