-- ===== src/LpStore/Quiet.antt =====
-- flex/db/lp_projection.py: one round of `project` in a worker that no other worker interrupts.
use cometa_backend.Base.{◌≡◌, ◌≢◌, inl, inr, true, Option, none, some, Option-cases, List, arith}
use cometa_backend.Base.Text.{Text}
use cometa_backend.Base.Exec.{Result-cases, ok}
use cometa_backend.EventId.{event_id_aliases}
use cometa_backend.LpStore.{
  LpState, LpTransaction, Db, World, LpProjectionOutcome, find_state, find_event, get_state,
  check_canonical, from_aliases, recorded, unrecorded, project_once, project_at, with_marker,
  classify, record_event, upsert_event, assert_event, same_event,
}
use cometa_backend.LpStore.States.{quiet, marked_alias, legacy_alias-quiet, advance-quiet}

-- What a round of `project` reads before it decides.
pub record Reads (t : LpTransaction) (d : Db) : Type 0 where
  pub state : LpState
  pub order : Text
  pub cursor : Text
  pub aliases : List Text
  pub finds : find_state t.pool_address d.states ≡ some state
  pub has_order : t.event_order ≡ some order
  pub has_aliases : event_id_aliases t.id ≡ ok aliases
  pub unmarked : marked_alias t.id d.events aliases ≡ none
  pub has_cursor : state.last_event_order ≡ some cursor

-- A round decides on what it reads.
pub project_once-unrecorded :
    (t : LpTransaction) (d : Db) (r : Reads t d)
    → d.events t.id ≡ none
    → project_once t (quiet d) ≡ unrecorded t r.order r.state r.cursor (quiet d)
unfolding project_once project_at with_marker classify get_state find_event check_canonical
    from_aliases
project_once-unrecorded t d r h = ground (
  arith,
  h,
  r.finds,
  r.has_order,
  r.has_aliases,
  r.unmarked,
  r.has_cursor,
  legacy_alias-quiet t.id r.aliases d,
)

pub project_once-recorded :
    (t e : LpTransaction) (d : Db) (r : Reads t d)
    → d.events t.id ≡ some e
    → same_event e t ≡ true
    → project_once t (quiet d) ≡ recorded t r.order r.state r.cursor (quiet d)
unfolding project_once project_at with_marker classify get_state find_event check_canonical
    from_aliases assert_event
project_once-recorded t e d r h k = ground (
  arith,
  h,
  k,
  r.finds,
  r.has_order,
  r.has_aliases,
  r.unmarked,
  r.has_cursor,
  legacy_alias-quiet t.id r.aliases d,
)

-- A round that does not raise has read all of it.
pub project_once-Reads :
    (t : LpTransaction) (d : Db) (w : World) (o : Option LpProjectionOutcome)
    → project_once t (quiet d) ≡ (ok o, w)
    → Reads t d
unfolding project_once project_at with_marker classify get_state find_event check_canonical
    from_aliases assert_event
project_once-Reads t d w o h = elim (Option-cases (find_state t.pool_address d.states)) [
  | inl f ↦ ground (arith, h, f)
  | inr (s, f) ↦ elim (Option-cases t.event_order) [
    | inl g ↦ ground (arith, h, f, g)
    | inr (order, g) ↦ elim (Result-cases (event_id_aliases t.id)) [
      | inr (e, a) ↦ ground (arith, h, f, g, a)
      | inl (aliases, a) ↦
          let l = legacy_alias-quiet t.id aliases d in
          elim (Option-cases (marked_alias t.id d.events aliases)) [
            | inr (m, b) ↦ ground (arith, h, f, g, a, b, l)
            | inl b ↦ elim (Option-cases s.last_event_order) [
              | inl c ↦ ground (arith, h, f, g, a, b, c, l)
              | inr (cursor, c) ↦ record {
                state = s;
                order = order;
                cursor = cursor;
                aliases = aliases;
                finds = f;
                has_order = g;
                has_aliases = a;
                unmarked = b;
                has_cursor = c;
              }
            ]
          ]
    ]
  ]
]

-- A marker that it has read is the event's.
pub project_once-same_event :
    (t e : LpTransaction) (d : Db) (w : World) (o : Option LpProjectionOutcome)
    → project_once t (quiet d) ≡ (ok o, w)
    → d.events t.id ≡ some e
    → same_event e t ≡ true
unfolding project_once project_at with_marker classify get_state find_event check_canonical
    from_aliases assert_event
project_once-same_event t e d w o h k = ground (arith, h, k)

-- Alone, no round is repeated.
pub project_once-quiet :
    (t : LpTransaction) (d : Db) (w : World) → project_once t (quiet d) ≢ (ok none, w)
unfolding recorded unrecorded get_state record_event upsert_event assert_event
project_once-quiet t d w h =
    let r = project_once-Reads t d w none h in
    elim (Option-cases (d.events t.id)) [
      | inl e ↦ ground (
        arith,
        h,
        project_once-unrecorded t d r e,
        advance-quiet t r.order r.state r.cursor d r.finds r.has_cursor,
      )
      | inr (e, k) ↦
          ground
            (arith, h, project_once-recorded t e d r k (project_once-same_event t e d w none h k))
    ]
