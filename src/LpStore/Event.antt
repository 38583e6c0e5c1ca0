-- ===== src/LpStore/Event.antt =====
-- flex/db/model/liquidity_pools.py: the construction of an LpTransaction.
mod Tests
use cometa_backend.Base.{
  ℕ, ◌≤◌, ◌≡◌, refl, ap, ◌∙◌, sym, inl, inr, Bool, true, false, ◌&&◌, leb, leb→le, Bool-cases,
  Option, none, some, Option-cases, if◌then◌else◌, arith,
}
use cometa_backend.Base.Exec.{Result, Result-cases, ok, err}
use cometa_backend.Base.Int.{ℤ, pos, pos_part, neg_part}
use cometa_backend.Base.Text.{Text, text_eq, text_eq_iff}
use cometa_backend.Base.Value.{Value, bool, int, other}
use cometa_backend.Uint64.{max_algorand_uint, require_algorand_uint64, require_algorand_uint64_iff}
use cometa_backend.LpCursor.{LpProjectionError, lp_event_order}
use cometa_backend.LpStore.{LpTransaction}

pub data EventError : Type 0 where
  bad_field bad_delta_amount wrong_event_order : EventError
  no_order : LpProjectionError → EventError

-- the test on `delta_amount_micros`
pub signed_delta : Value → Option ℤ
signed_delta (int d) =
    if leb (pos_part d) max_algorand_uint && leb (neg_part d) max_algorand_uint
    then some d
    else none
signed_delta _ = none

-- the last step: an order that is given is the expected one
pub with_order :
    LpTransaction → Option Text → Result LpProjectionError Text → Result EventError LpTransaction
with_order t given (err e) = err (no_order e)
with_order t none (ok o) = ok (record t { event_order = some o })
with_order t (some g) (ok o) =
    if text_eq g o then ok (record t { event_order = some g }) else err wrong_event_order

-- `LpTransaction.__post_init__`, with the record that it lets through
pub create_transaction :
    Text
    → Text
    → Text
    → Value
    → Value
    → Value
    → Value
    → Option Text
    → Result EventError LpTransaction
create_transaction id pool user asa_id delta confirmed_round event_position event_order =
    elim (require_algorand_uint64 asa_id false) [
      | none ↦ err bad_field
      | some a ↦ elim (require_algorand_uint64 confirmed_round false) [
        | none ↦ err bad_field
        | some r ↦ elim (require_algorand_uint64 event_position false) [
          | none ↦ err bad_field
          | some p ↦ elim (signed_delta delta) [
            | none ↦ err bad_delta_amount
            | some d ↦
                with_order
                  (record {
                    id = id;
                    pool_address = pool;
                    user_address = user;
                    asa_id = a;
                    delta_amount_micros = d;
                    confirmed_round = r;
                    event_position = p;
                    event_order = none;
                  })
                  event_order (lp_event_order confirmed_round id event_position)
          ]
        ]
      ]
    ]

-- The order of an event is that of its own round, ID and position, and its integers fit.
abbrev pub IsEvent : LpTransaction → Type 0
IsEvent t =
    (o : Text) × (t.event_order ≡ some o)
    × (lp_event_order (int (pos t.confirmed_round)) t.id (int (pos t.event_position)) ≡ ok o)
    × (t.asa_id ≤ max_algorand_uint)
    × (t.confirmed_round ≤ max_algorand_uint)
    × (t.event_position ≤ max_algorand_uint)
    × (pos_part t.delta_amount_micros ≤ max_algorand_uint)
    × (neg_part t.delta_amount_micros ≤ max_algorand_uint)

signed_delta-bounds :
    (v : Value) (d : ℤ)
    → signed_delta v ≡ some d
    → (pos_part d ≤ max_algorand_uint) × (neg_part d ≤ max_algorand_uint)
unfolding signed_delta
signed_delta-bounds (int e) d h = ground (arith, h)
signed_delta-bounds (bool b) d h = ground (arith, h)
signed_delta-bounds other d h = ground (arith, h)

with_order-event_order :
    (t u : LpTransaction) (given : Option Text) (r : Result LpProjectionError Text)
    → with_order t given r ≡ ok u
    → (o : Text) × (r ≡ ok o) × (u ≡ record t { event_order = some o })
unfolding with_order
with_order-event_order t u given (err e) h = ground (arith, h)
with_order-event_order t u none (ok o) h = (o, refl, ground (arith, h))
with_order-event_order t u (some g) (ok o) h = (o, refl, ground (arith, h, text_eq_iff g o))

ordered-IsEvent :
    (made t : LpTransaction) (round position : Value) (given : Option Text)
    → made.asa_id ≤ max_algorand_uint
    → (round ≡ int (pos made.confirmed_round))
      × (0 ≤ made.confirmed_round)
      × (made.confirmed_round ≤ max_algorand_uint)
    → (position ≡ int (pos made.event_position))
      × (0 ≤ made.event_position)
      × (made.event_position ≤ max_algorand_uint)
    → (pos_part made.delta_amount_micros ≤ max_algorand_uint)
      × (neg_part made.delta_amount_micros ≤ max_algorand_uint)
    → with_order made given (lp_event_order round made.id position) ≡ ok t
    → IsEvent t
ordered-IsEvent made t round position given a (er, _, r) (ep, _, p) (u, v) h =
    let (o, e, same) =
      with_order-event_order made t given (lp_event_order round made.id position) h in
    let order : lp_event_order (int (pos made.confirmed_round)) made.id
          (int (pos made.event_position))
        ≡ ok o =
      ap (λ x. lp_event_order x made.id (int (pos made.event_position))) (sym er)
      ∙ ap (λ x. lp_event_order round made.id x) (sym ep)
      ∙ e in
    rw same (o, refl, order, a, r, p, u, v)

-- Whatever is passed, a transaction that is constructed is an event in its own order: its order is the
-- one of its round, ID and position, whether it was given or not, and its integers fit a uint64, the
-- delta on either side of zero.
pub create_transaction-IsEvent :
    (id pool user : Text) (asa_id delta confirmed_round event_position : Value)
    (event_order : Option Text) (t : LpTransaction)
    → create_transaction id pool user asa_id delta confirmed_round event_position event_order ≡ ok t
    → IsEvent t
unfolding create_transaction
create_transaction-IsEvent id pool user asa_id delta confirmed_round event_position event_order t
      h =
    elim (Option-cases (require_algorand_uint64 asa_id false)) [
      | inl a ↦ ground (arith, h, a)
      | inr (a, ea) ↦ elim (Option-cases (require_algorand_uint64 confirmed_round false)) [
        | inl r ↦ ground (arith, h, ea, r)
        | inr (r, er) ↦ elim (Option-cases (require_algorand_uint64 event_position false)) [
          | inl p ↦ ground (arith, h, ea, er, p)
          | inr (p, ep) ↦ elim (Option-cases (signed_delta delta)) [
            | inl d ↦ ground (arith, h, ea, er, ep, d)
            | inr (d, ed) ↦
                let made : LpTransaction = record {
                  id = id;
                  pool_address = pool;
                  user_address = user;
                  asa_id = a;
                  delta_amount_micros = d;
                  confirmed_round = r;
                  event_position = p;
                  event_order = none;
                } in
                ordered-IsEvent made t confirmed_round event_position event_order
                  ((require_algorand_uint64_iff asa_id false a).0 ea).2
                  ((require_algorand_uint64_iff confirmed_round false r).0 er)
                  ((require_algorand_uint64_iff event_position false p).0 ep)
                  (signed_delta-bounds delta d ed) (ground (arith, h, ea, er, ep, ed))
          ]
        ]
      ]
    ]
