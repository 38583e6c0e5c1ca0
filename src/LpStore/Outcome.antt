-- ===== src/LpStore/Outcome.antt =====
-- flex/db/lp_projection.py: the outcomes of `project` in a worker that no other worker interrupts.
use mathlib.Core.Path.{subst}
use cometa_backend.Base.{
  Option, sym, ap, ◌∙◌, ℕ, zero, suc, ◌≡◌, refl, ◌≢◌, ◌⊎◌, inl, inr, Bool, true, false, ◌&&◌, none,
  some, Option-cases, arith,
}
use cometa_backend.Base.Text.{Text, text_eq, text_lt, text_eq_iff, text_eq_refl, text_lt_total}
use cometa_backend.Base.Exec.{Result-cases, ok}
use cometa_backend.Base.Value.{int}
use cometa_backend.LpStore.Moved.{IsMoved, with_delta-IsMoved}
use cometa_backend.LpCursor.{LpBalanceDelta, lp_balance_delta}
use cometa_backend.LpStore.{
  LpState, LpTransaction, Db, World, LpProjectionOutcome, LpProjectionResult, applied,
  already_applied, snapshot_covered, find_state, get_state, recorded, unrecorded, advance, project,
  project_once, record_event, upsert_event, assert_event, put_event, apply_delta_db, balance,
  in_bounds, with_delta, accepts_delta,
}
use cometa_backend.LpStore.Unique.{
  IsUnique, with_delta-IsKeyed, update_state-some, update_state-other,
}
use cometa_backend.LpStore.States.{quiet, advance-IsApplied}
use cometa_backend.LpStore.Quiet.{
  Reads, project_once-Reads, project_once-recorded, project_once-unrecorded,
  project_once-same_event, project_once-quiet,
}

pub project-project_once :
    (fuel : ℕ) (t : LpTransaction) (d : Db) (w : World) (o : LpProjectionOutcome)
    → project fuel t (quiet d) ≡ (ok o, w)
    → project_once t (quiet d) ≡ (ok (some o), w)
unfolding project
project-project_once zero t d w o h = cc
project-project_once (suc fuel) t d w o h = elim (Result-cases (project_once t (quiet d)).0) [
  | inr (x, e) ↦ ground (arith, e, h)
  | inl (some a, e) ↦ ground (arith, e, h)
  | inl (none, e) ↦
      elim (project_once-quiet t d (project_once t (quiet d)).1 (ground (arith, e))) [ ]
]

-- Without a marker, a round takes one of three ways by the cursor.
pub unrecorded-cases :
    (t : LpTransaction) (d : Db) (r : Reads t d)
    → (text_eq r.cursor r.order ≡ true)
      ⊎ ((text_eq r.cursor r.order ≡ false) × (text_lt r.order r.cursor ≡ true))
      ⊎ ((text_eq r.cursor r.order ≡ false)
          × (text_lt r.order r.cursor ≡ false)
          × (text_lt r.cursor r.order ≡ true))
unrecorded-cases t d r =
    ground (arith, text_eq_iff r.cursor r.order, text_lt_total r.cursor r.order)

-- An outcome that changes balances comes from `advance`, with a cursor before the event.
pub applied-advance :
    (t : LpTransaction) (d : Db) (w : World) (o : LpProjectionOutcome) (r : Reads t d)
    → project_once t (quiet d) ≡ (ok (some o), w)
    → o.result ≡ applied
    → (d.events t.id ≡ none)
      × (text_lt r.cursor r.order ≡ true)
      × (advance t r.order r.state r.cursor (quiet d) ≡ (ok (some o), w))
unfolding unrecorded recorded record_event upsert_event assert_event get_state
applied-advance t d w o r h k = elim (Option-cases (d.events t.id)) [
  | inl e ↦ ground (arith, h, k, e, project_once-unrecorded t d r e, unrecorded-cases t d r)
  | inr (e, f) ↦ ground (
    arith,
    h,
    k,
    f,
    project_once-recorded t e d r f (project_once-same_event t e d w (some o) h f),
  )
]

and_right : (a b : Bool) → (a && b) ≡ true → b ≡ true
and_right a b h = ground (arith, h)

accepts_delta-in_bounds :
    (cursor : Text) (x : LpBalanceDelta) (s : LpState)
    → accepts_delta cursor x s ≡ true
    → in_bounds x.amount (balance x.field s) ≡ true
accepts_delta-in_bounds cursor x s h =
    and_right (elim s.last_event_order [ none ↦ false | some c ↦ text_eq c cursor ])
      (in_bounds x.amount (balance x.field s)) h

put_event-other :
    (t : LpTransaction) (events : Text → Option LpTransaction) (k : Text)
    → t.id ≢ k
    → put_event t events k ≡ events k
put_event-other t events k other = ground (arith, other, text_eq_iff t.id k)

-- The pool's state with the event's delta, and the event's marker.
abbrev pub HasDelta : LpTransaction → Db → LpProjectionOutcome → Db → Type 0
HasDelta t d o d' =
    (order cursor : Text) × (s : LpState) × (x : LpBalanceDelta) × (t.event_order ≡ some order)
    × (find_state t.pool_address d.states ≡ some s)
    × (s.last_event_order ≡ some cursor)
    × (text_lt cursor order ≡ true)
    × (lp_balance_delta s.token_id s.asset1_id s.asset2_id t.asa_id (int t.delta_amount_micros)
        ≡ ok x)
    × (in_bounds x.amount (balance x.field s) ≡ true)
    × (o.state ≡ with_delta order t.confirmed_round x s)
    × (find_state t.pool_address d'.states ≡ some o.state)
    × (d.events t.id ≡ none)
    × (d'.events ≡ put_event t d.events)

-- An applied event, by the update of the code.
pub project-delta :
    (fuel : ℕ) (t : LpTransaction) (d d' : Db) (o : LpProjectionOutcome)
    → IsUnique d.states
    → project fuel t (quiet d) ≡ (ok o, quiet d')
    → o.result ≡ applied
    → HasDelta t d o d'
unfolding apply_delta_db
project-delta fuel t d d' o n h k =
    let g = project-project_once fuel t d (quiet d') o h in
    let r = project_once-Reads t d (quiet d') (some o) g in
    let (e, l, a) = applied-advance t d (quiet d') o r g k in
    let (x, b, u, _, c) = advance-IsApplied t r.order r.state r.cursor d d' o e a in
    let q = accepts_delta r.cursor x in
    let f = with_delta r.order t.confirmed_round x in
    let (m, v, w) =
      update_state-some r.state.token_id q f t.pool_address d.states r.state o.state n
        (with_delta-IsKeyed r.order t.confirmed_round x) r.finds refl u in
    (
      r.order,
      r.cursor,
      r.state,
      x,
      r.has_order,
      r.finds,
      r.has_cursor,
      l,
      b,
      accepts_delta-in_bounds r.cursor x r.state m,
      v,
      rw c w,
      e,
      rw c refl,
    )

-- The pool's state and the markers after the event, told by the event.
abbrev pub IsProjected : LpTransaction → Db → LpProjectionOutcome → Db → Type 0
IsProjected t d o d' =
    (order cursor : Text) × (s : LpState) × (t.event_order ≡ some order)
    × (find_state t.pool_address d.states ≡ some s)
    × (s.last_event_order ≡ some cursor)
    × (text_lt cursor order ≡ true)
    × IsMoved t order s o.state
    × (find_state t.pool_address d'.states ≡ some o.state)
    × (d.events t.id ≡ none)
    × (d'.events t.id ≡ some t)
    × ((k : Text) → t.id ≢ k → d'.events k ≡ d.events k)

-- With unique states and no other worker, an applied event lies after the pool's cursor and had no
-- marker. One balance of the pool's state changes: for the pool's own token, the tokens held outside
-- fall by the transfer, and for another asset of the pool or the algo, its balance grows by it, within
-- the uint64s. The state gets the event's cursor and its round and keeps all else, and of the markers
-- only the event's is written.
pub project-applied :
    (fuel : ℕ) (t : LpTransaction) (d d' : Db) (o : LpProjectionOutcome)
    → IsUnique d.states
    → project fuel t (quiet d) ≡ (ok o, quiet d')
    → o.result ≡ applied
    → IsProjected t d o d'
project-applied fuel t d d' o n h k =
    let (order, cursor, s, x, p, f, c, l, delta, fits, v, w, m, e) =
      project-delta fuel t d d' o n h k in
    (
      order,
      cursor,
      s,
      p,
      f,
      c,
      l,
      subst (λ r. IsMoved t order s r) (sym v) (with_delta-IsMoved t order s x delta fits),
      w,
      m,
      ap (λ z. z t.id) e ∙ rw (text_eq_refl t.id) refl,
      λ j other. ap (λ z. z j) e ∙ put_event-other t d.events j other,
    )

-- Without other workers, an outcome that is not an application leaves every state, and carries the
-- pool's state.
pub project-kept :
    (fuel : ℕ) (t : LpTransaction) (d d' : Db) (o : LpProjectionOutcome)
    → project fuel t (quiet d) ≡ (ok o, quiet d')
    → o.result ≢ applied
    → (d'.states ≡ d.states) × (find_state t.pool_address d.states ≡ some o.state)
unfolding unrecorded recorded record_event upsert_event assert_event get_state
project-kept fuel t d d' o h k =
    let g = project-project_once fuel t d (quiet d') o h in
    let r = project_once-Reads t d (quiet d') (some o) g in
    elim (Option-cases (d.events t.id)) [
      | inr (e, f) ↦
          let y =
            project_once-recorded t e d r f
              (project_once-same_event t e d (quiet d') (some o) g f) in
          (ground (arith, g, y, f), ground (arith, g, y, f, r.finds))
      | inl e ↦
          let y = project_once-unrecorded t d r e in
          elim (unrecorded-cases t d r) [
            | inl c ↦ (ground (arith, g, y, e, c), ground (arith, g, y, e, c, r.finds))
            | inr (inl c) ↦ (ground (arith, g, y, e, c), ground (arith, g, y, e, c, r.finds))
            | inr (inr c) ↦
                let (_, _, _, z, _) =
                  advance-IsApplied t r.order r.state r.cursor d d' o e
                    (ground (arith, g, y, e, c)) in
                elim (k z) [ ]
          ]
    ]

-- Such an outcome leaves the store, or writes the marker that a cursor at the event asks for.
pub project-kept-events :
    (t : LpTransaction) (d d' : Db) (o : LpProjectionOutcome) (r : Reads t d)
    → project_once t (quiet d) ≡ (ok (some o), quiet d')
    → o.result ≢ applied
    → (d' ≡ d)
      ⊎ ((text_eq r.cursor r.order ≡ true)
          × (d' ≡ record d { events = put_event t d.events })
          × (o.state ≡ r.state))
unfolding unrecorded recorded record_event upsert_event assert_event get_state
project-kept-events t d d' o r g k = elim (Option-cases (d.events t.id)) [
  | inr (e, f) ↦
      let y =
        project_once-recorded t e d r f (project_once-same_event t e d (quiet d') (some o) g f) in
      inl (ground (arith, g, y, f))
  | inl e ↦
      let y = project_once-unrecorded t d r e in
      elim (unrecorded-cases t d r) [
        | inl c ↦ inr (c, ground (arith, g, y, e, c), ground (arith, g, y, e, c))
        | inr (inl c) ↦ inl (ground (arith, g, y, e, c))
        | inr (inr c) ↦
            let (_, _, _, z, _) =
              advance-IsApplied t r.order r.state r.cursor d d' o e (ground (arith, g, y, e, c)) in
            elim (k z) [ ]
      ]
]

pub applied-cases : (r : LpProjectionResult) → (r ≡ applied) ⊎ (r ≢ applied)
applied-cases applied = inl refl
applied-cases already_applied = inr (λ k. cc)
applied-cases snapshot_covered = inr (λ k. cc)

-- Whatever its outcome, and without other workers, `project` changes the state of no other pool. The
-- states are unique.
pub project-other :
    (fuel : ℕ) (t : LpTransaction) (d d' : Db) (o : LpProjectionOutcome) (address : Text)
    → IsUnique d.states
    → project fuel t (quiet d) ≡ (ok o, quiet d')
    → address ≢ t.pool_address
    → find_state address d'.states ≡ find_state address d.states
unfolding apply_delta_db
project-other fuel t d d' o address n h b = elim (applied-cases o.result) [
  | inr k ↦ rw (project-kept fuel t d d' o h k).0 refl
  | inl k ↦
      let g = project-project_once fuel t d (quiet d') o h in
      let r = project_once-Reads t d (quiet d') (some o) g in
      let (e, l, a) = applied-advance t d (quiet d') o r g k in
      let (x, _, u, _, c) = advance-IsApplied t r.order r.state r.cursor d d' o e a in
      let q = accepts_delta r.cursor x in
      let f = with_delta r.order t.confirmed_round x in
      let v =
        update_state-other r.state.token_id q f t.pool_address address d.states r.state n
          (with_delta-IsKeyed r.order t.confirmed_round x) r.finds refl b in
      rw c v
]
