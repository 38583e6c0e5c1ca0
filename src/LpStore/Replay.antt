-- ===== src/LpStore/Replay.antt =====
-- flex/db/lp_projection.py: a replay of `project`, after all of it or where a worker ended.
use mathlib.Core.Path.{subst}
use cometa_backend.Base.{
  ℕ, ◌≡◌, refl, sym, ap, ◌≢◌, ◌∙◌, inl, inr, true, false, Option, none, some, List, [], ◌∷◌, arith,
}
use cometa_backend.Base.Text.{Text, text_eq, text_lt, text_eq_iff, text_eq_refl, text_lt_irrefl}
use cometa_backend.Base.Value.{int}
use cometa_backend.Base.Exec.{ok, err}
use cometa_backend.LpCursor.{LpBalanceDelta, lp_balance_delta}
use cometa_backend.LpStore.Halt.{halting}
use cometa_backend.LpStore.Halt.Project.{Halts-project}
use cometa_backend.EventId.{event_id_aliases}
use cometa_backend.LpStore.{
  LpState, LpTransaction, Db, LpProjectionOutcome, applied, already_applied, changed_balances,
  find_state, recorded, unrecorded, advance, apply_delta_db, stopped, World, project, project_once,
  record_event, upsert_event, assert_event, same_event, put_event, opt_text_eq, int_eq,
}
use cometa_backend.LpStore.Outcome.{
  project-project_once, applied-cases, project-delta, project-kept-events,
}
use cometa_backend.LpStore.Unique.{IsUnique}
use cometa_backend.LpStore.States.{quiet, marked_alias, advance-IsApplied}
use cometa_backend.LpStore.Quiet.{
  Reads, project_once-Reads, project_once-recorded, project_once-unrecorded,
}

opt_text_eq_refl : (a : Option Text) → opt_text_eq a a ≡ true
unfolding opt_text_eq
opt_text_eq_refl none = refl
opt_text_eq_refl (some a) = text_eq_refl a

same_event_refl : (t : LpTransaction) → same_event t t ≡ true
unfolding same_event opt_text_eq int_eq
same_event_refl t =
    let o = opt_text_eq_refl t.event_order in
    ground (arith, text_eq_refl t.pool_address, text_eq_refl t.user_address, o)

marked_alias-put_event :
    (t : LpTransaction) (events : Text → Option LpTransaction) (aliases : List Text)
    → marked_alias t.id (put_event t events) aliases ≡ marked_alias t.id events aliases
marked_alias-put_event t events [] = refl
marked_alias-put_event t events (a ∷ aliases) =
    ground (arith, marked_alias-put_event t events aliases, text_eq_iff t.id a, text_eq_iff a t.id)

-- The store once an event's marker stands beside a cursor that has reached it.
project_once-marked :
    (t e : LpTransaction) (d : Db) (r : Reads t d)
    → d.events t.id ≡ some e
    → same_event e t ≡ true
    → text_lt r.cursor r.order ≡ false
    → project_once t (quiet d)
      ≡ (ok (some (record { state = r.state; result = already_applied })), quiet d)
unfolding recorded
project_once-marked t e d r h k l = ground (arith, project_once-recorded t e d r h k, l)

-- A replay over the written marker and a cursor at the event.
project_once-written :
    (t : LpTransaction) (d d' : Db) (aliases : List Text) (order : Text) (s : LpState)
    → t.event_order ≡ some order
    → event_id_aliases t.id ≡ ok aliases
    → marked_alias t.id d.events aliases ≡ none
    → find_state t.pool_address d'.states ≡ some s
    → s.last_event_order ≡ some order
    → d'.events ≡ put_event t d.events
    → project_once t (quiet d')
      ≡ (ok (some (record { state = s; result = already_applied })), quiet d')
project_once-written t d d' aliases order s g a m f c e =
    let r : Reads t d' = record {
      state = s;
      order = order;
      cursor = order;
      aliases = aliases;
      finds = f;
      has_order = g;
      has_aliases = a;
      has_cursor = c;
      unmarked =
          ap (λ v. marked_alias t.id v aliases) e ∙ marked_alias-put_event t d.events aliases ∙ m;
    } in
    let here : d'.events t.id ≡ some t = ap (λ v. v t.id) e ∙ rw (text_eq_refl t.id) refl in
    project_once-marked t t d' r here (same_event_refl t) (text_lt_irrefl order)

applied-changed : (o : LpProjectionOutcome) → o.result ≢ applied → changed_balances o ≡ false
applied-changed o k = ground (arith, k)

pub project-once :
    (t : LpTransaction) (d d' : Db) (o : LpProjectionOutcome)
    → project_once t (quiet d) ≡ (ok (some o), quiet d')
    → project 1 t (quiet d) ≡ (ok o, quiet d')
unfolding project
project-once t d d' o h = ground (arith, h)

-- With unique states and no other worker, a replay of a projected event is accepted, and writes
-- nothing at all: it returns the state of the first run, and says that no balance was changed.
pub project-again :
    (fuel : ℕ) (t : LpTransaction) (d d' : Db) (o : LpProjectionOutcome)
    → IsUnique d.states
    → project fuel t (quiet d) ≡ (ok o, quiet d')
    → (again : LpProjectionOutcome) × (project 1 t (quiet d') ≡ (ok again, quiet d'))
      × (again.state ≡ o.state)
      × (changed_balances again ≡ false)
project-again fuel t d d' o n h =
    let g = project-project_once fuel t d (quiet d') o h in
    let r = project_once-Reads t d (quiet d') (some o) g in
    let again : LpProjectionOutcome = record { state = o.state; result = already_applied } in
    elim (applied-cases o.result) [
      | inl k ↦
          let (order, cursor, s, x, p, _, _, _, _, _, v, w, _, e) =
            project-delta fuel t d d' o n h k in
          let c = ap (λ z. z.last_event_order) v in
          let y =
            project_once-written t d d' r.aliases order o.state p r.has_aliases r.unmarked w c e in
          (again, project-once t d' d' again y, refl, refl)
      | inr k ↦ elim (project-kept-events t d d' o r g k) [
        | inl e ↦ (
          o,
          rw e (project-once t d d o (g ∙ ap (λ z. (ok (some o), quiet z)) e)),
          refl,
          applied-changed o k,
        )
        | inr (c, e, q) ↦
            let same = (text_eq_iff r.cursor r.order).0 c in
            let f = ap (λ z. find_state t.pool_address z.states) e ∙ r.finds ∙ ap some (sym q) in
            let a = ap (λ z. z.last_event_order) q ∙ r.has_cursor ∙ ap some same in
            let y =
              project_once-written t d d' r.aliases r.order o.state r.has_order r.has_aliases
                r.unmarked f a (ap (λ z. z.events) e) in
            (again, project-once t d' d' again y, refl, refl)
      ]
    ]

-- Where the balances are written and the marker is not, a replay writes the marker alone.
project-unmarked :
    (fuel : ℕ) (t : LpTransaction) (d d' : Db) (o : LpProjectionOutcome)
    → IsUnique d.states
    → project fuel t (quiet d) ≡ (ok o, quiet d')
    → o.result ≡ applied
    → project 1 t (quiet (record d' { events = d.events }))
      ≡ (ok (record { state = o.state; result = already_applied }), quiet d')
unfolding unrecorded record_event upsert_event assert_event
project-unmarked fuel t d d' o n h k =
    let r0 =
      project_once-Reads t d (quiet d') (some o) (project-project_once fuel t d (quiet d') o h) in
    let (order, cursor, s, x, p, _, _, _, _, _, v, w, m, e) = project-delta fuel t d d' o n h k in
    let halfway : Db = record d' { events = d.events } in
    let r : Reads t halfway = record {
      state = o.state;
      order = order;
      cursor = order;
      aliases = r0.aliases;
      finds = w;
      has_order = p;
      has_aliases = r0.has_aliases;
      unmarked = r0.unmarked;
      has_cursor = ap (λ z. z.last_event_order) v;
    } in
    let y = project_once-unrecorded t halfway r m in
    project-once t halfway d' (record { state = o.state; result = already_applied })
      (ground (arith, y, m, text_eq_refl order, same_event_refl t, e))

-- The replay from a store that the worker left ends with the store and the state of the whole run.
abbrev Heals : LpTransaction → LpProjectionOutcome → Db → Db → Type 0
Heals t o d' x =
    (again : LpProjectionOutcome) × (project 1 t (quiet x) ≡ (ok again, quiet d'))
    × (again.state ≡ o.state)

-- A store between the writes of a run that applies the event.
between-Heals :
    (fuel : ℕ) (t : LpTransaction) (d d' : Db) (o : LpProjectionOutcome) (r : Reads t d)
    (x : LpBalanceDelta)
    → IsUnique d.states
    → project fuel t (quiet d) ≡ (ok o, quiet d')
    → d.events t.id ≡ none
    → text_eq r.cursor r.order ≡ false
    → text_lt r.order r.cursor ≡ false
    → lp_balance_delta r.state.token_id r.state.asset1_id r.state.asset2_id t.asa_id
        (int t.delta_amount_micros)
      ≡ ok x
    → Heals t o d' (apply_delta_db r.state r.cursor r.order t.confirmed_round x d).1
unfolding unrecorded apply_delta_db
between-Heals fuel t d d' o r x n h e away behind delta =
    let g = project-project_once fuel t d (quiet d') o h in
    let y : advance t r.order r.state r.cursor (quiet d) ≡ (ok (some o), quiet d') =
      ground (arith, away, behind, project_once-unrecorded t d r e, g) in
    let (z, same, _, k, left) = advance-IsApplied t r.order r.state r.cursor d d' o e y in
    let zx : z ≡ x = ground (arith, same, delta) in
    let left_x : record d' { events = d.events }
        ≡ (apply_delta_db r.state r.cursor r.order t.confirmed_round x d).1 =
      ap (λ (v : Db). record v { events = d.events }) left
      ∙ ap (λ v. (apply_delta_db r.state r.cursor r.order t.confirmed_round v d).1) zx in
    subst (λ v. Heals t o d' v) left_x
      (
        record { state = o.state; result = already_applied },
        project-unmarked fuel t d d' o n h k,
        refl,
      )

-- With unique states and no other worker: wherever a worker ends before one of its calls of the
-- database, between its writes too, a replay on the store that it left ends with the very store and the
-- very state of a run that did not end, so that the balances change once.
pub project-heals :
    (fuel n : ℕ) (t : LpTransaction) (d d' : Db) (o : LpProjectionOutcome) (w : World)
    → IsUnique d.states
    → project fuel t (quiet d) ≡ (ok o, quiet d')
    → project fuel t (halting n d) ≡ (err stopped, w)
    → (again : LpProjectionOutcome) × (project 1 t (quiet w.db) ≡ (ok again, quiet d'))
      × (again.state ≡ o.state)
project-heals fuel n t d d' o w u h end =
    let g = project-project_once fuel t d (quiet d') o h in
    let r = project_once-Reads t d (quiet d') (some o) g in
    let ends =
      Halts-project (Heals t o d') fuel t d (o, project-once t d d' o g, refl)
        (λ s order cursor f p c e x away behind delta.
          between-Heals fuel t d d' o
            (record {
              state = s;
              order = order;
              cursor = cursor;
              aliases = r.aliases;
              finds = f;
              has_order = p;
              has_aliases = r.has_aliases;
              unmarked = r.unmarked;
              has_cursor = c;
            })
            x u h e away behind delta) in
    elim (ends n) [
      | inl (e, heals) ↦ subst (λ v. Heals t o d' v) (ap (λ y. y.1.db) end) heals
      | inr (k, d1, e, _) ↦
          absurd (through (sym (ap (λ y. y.0) end) ∙ ap (λ y. y.0) e ∙ ap (λ y. y.0) h))
    ]
  where
    through : {a : LpProjectionOutcome} → ¬ (err stopped ≡ ok a)
    through {a} k = cc
