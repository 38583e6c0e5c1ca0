-- ===== src/LpStore/States.antt =====
-- flex/db/lp_projection.py: the store's documents under an update of one, and the calls of a worker
-- that no other worker interrupts.
use cometa_backend.Base.{
  ℕ, ◌≡◌, refl, ◌≢◌, inl, inr, Bool, Option, none, some, List, [], ◌∷◌, if◌then◌else◌, arith,
}
use cometa_backend.Base.Text.{Text, text_eq, text_eq_refl}
use cometa_backend.Base.Value.{int}
use cometa_backend.Base.Exec.{Result-cases, ok}
use cometa_backend.LpCursor.{lp_balance_delta, LpBalanceDelta}
use cometa_backend.LpStore.{
  LpState, LpTransaction, Db, World, LpProjectionOutcome, find_state, update_state, find_event,
  get_state, legacy_alias, advance, after_delta, apply_delta, apply_delta_db, from_delta,
  record_event, upsert_event, assert_event, accepts_delta, with_delta, applied, put_event,
}

-- A world in which no other worker writes.
abbrev pub quiet : Db → World
quiet d = record { db = d; others = [] }

-- The first alias, but the ID itself, that has a marker.
abbrev pub marked_alias : Text → (Text → Option LpTransaction) → List Text → Option Text
marked_alias id events [] = none
marked_alias id events (a ∷ aliases) =
    if text_eq a id
    then marked_alias id events aliases
    else elim (events a) [ some _ ↦ some a | none ↦ marked_alias id events aliases ]

pub legacy_alias-quiet :
    (id : Text) (aliases : List Text) (d : Db)
    → legacy_alias id aliases (quiet d) ≡ (ok (marked_alias id d.events aliases), quiet d)
unfolding legacy_alias find_event
legacy_alias-quiet id [] d = refl
legacy_alias-quiet id (a ∷ aliases) d = ground (arith, legacy_alias-quiet id aliases d)

-- An update that finds no document changes nothing.
pub update_state-none :
    (token : ℕ) (q : LpState → Bool) (f : LpState → LpState) (ss : List LpState)
    → (update_state token q f ss).0 ≡ none
    → (update_state token q f ss).1 ≡ ss
unfolding update_state
update_state-none token q f [] h = refl
update_state-none token q f (s ∷ ss) h = ground (arith, update_state-none token q f ss)

-- An update that is refused is seen by a worker that is alone: the balances cannot take the delta.
pub advance-quiet :
    (t : LpTransaction) (order : Text) (s : LpState) (cursor : Text) (d : Db)
    → find_state t.pool_address d.states ≡ some s
    → s.last_event_order ≡ some cursor
    → (advance t order s cursor (quiet d)).0 ≢ ok none
unfolding advance from_delta get_state after_delta apply_delta apply_delta_db record_event
    assert_event
advance-quiet t order s cursor d h k =
    let delta =
      lp_balance_delta s.token_id s.asset1_id s.asset2_id t.asa_id (int t.delta_amount_micros) in
    elim (Result-cases delta) [
      | inl (x, e) ↦
          let q = accepts_delta cursor x in
          let u = with_delta order t.confirmed_round x in
          ground (arith, e, update_state-none s.token_id q u d.states, text_eq_refl cursor)
      | inr (x, e) ↦ ground (arith, e)
    ]

-- What a worker that is alone leaves when it applies a delta.
abbrev pub IsApplied :
    LpTransaction → Text → LpState → Text → Db → LpProjectionOutcome → Db → Type 0
IsApplied t order s cursor d o d' =
    (x : LpBalanceDelta) × (lp_balance_delta s.token_id s.asset1_id s.asset2_id t.asa_id
        (int t.delta_amount_micros)
      ≡ ok x)
    × ((apply_delta_db s cursor order t.confirmed_round x d).0 ≡ some o.state)
    × (o.result ≡ applied)
    × (d' ≡ record (apply_delta_db s cursor order t.confirmed_round x d).1 {
      events = put_event t d.events;
    })

pub advance-IsApplied :
    (t : LpTransaction) (order : Text) (s : LpState) (cursor : Text) (d d' : Db)
    (o : LpProjectionOutcome)
    → d.events t.id ≡ none
    → advance t order s cursor (quiet d) ≡ (ok (some o), quiet d')
    → IsApplied t order s cursor d o d'
unfolding advance from_delta get_state after_delta apply_delta record_event assert_event
    upsert_event apply_delta_db
advance-IsApplied t order s cursor d d' o h k =
    let delta =
      lp_balance_delta s.token_id s.asset1_id s.asset2_id t.asa_id (int t.delta_amount_micros) in
    elim (Result-cases delta) [
      | inl (x, e) ↦
          (x, e, ground (arith, e, h, k), ground (arith, e, h, k), ground (arith, e, h, k))
      | inr (x, e) ↦ ground (arith, e)
    ]
