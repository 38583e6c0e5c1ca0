-- ===== src/LpStore/Fuel.antt =====
-- flex/db/lp_projection.py: how long `project` runs. Every round calls the database, and only what
-- another worker wrote meanwhile makes a round begin again.
use cometa_backend.Base.{
  ℕ, zero, suc, ◌-◌, ◌≤◌, ◌<◌, ◌≡◌, refl, ◌≢◌, inl, inr, Bool, true, false, not, Option, none, some,
  Option-cases, List, [], ◌∷◌, length, arith,
}
use cometa_backend.Base.Text.{Text}
use cometa_backend.Base.Exec.{Result, Result-cases, ok, err, ◌>>=◌, pure, raise_if, or_raise, lift}
use cometa_backend.Base.Value.{int}
use cometa_backend.EventId.{event_id_aliases}
use cometa_backend.LpCursor.{lp_balance_delta, LpBalanceDelta}
use cometa_backend.LpStore.{
  LpState, LpTransaction, Db, World, LpPersistenceError, out_of_fuel, state_not_found,
  conflicting_event, Action, call, Interference, writes, stops, find_state, find_event, get_state,
  legacy_alias, check_canonical, from_aliases, recorded, unrecorded, advance, project_once,
  project_at, with_marker, classify, missing_order, record_event, upsert_event, assert_event,
  same_event, apply_delta, apply_delta_db, after_delta, from_delta, project,
}
use cometa_backend.LpStore.States.{quiet}
use cometa_backend.LpStore.Quiet.{project_once-quiet}

-- An action that writes no step of another worker, and never reports the end of the fuel.
abbrev pub IsCalm : {A : Type 0} → Action A → Type 0
IsCalm m = (w : World) → (length (m w).1.others ≤ length w.others) × ((m w).0 ≢ err out_of_fuel)

bind-IsCalm :
    {A B : Type 0} (m : Action A) (f : A → Action B)
    → IsCalm m
    → ((a : A) → IsCalm (f a))
    → IsCalm (m >>= f)
bind-IsCalm m f p q w = elim (Result-cases (m w).0) [
  | inl (a, e) ↦ ground (arith, e, p w, q a (m w).1)
  | inr (x, e) ↦ ground (arith, e, p w)
]

pure-IsCalm : {A : Type 0} (a : A) → IsCalm (pure a)
pure-IsCalm a w = ground arith

raise_if-IsCalm : (b : Bool) (e : LpPersistenceError) → e ≢ out_of_fuel → IsCalm (raise_if b e)
raise_if-IsCalm true e h w = ground arith
raise_if-IsCalm false e h w = ground arith

or_raise-IsCalm :
    {A : Type 0} (o : Option A) (e : LpPersistenceError) → e ≢ out_of_fuel → IsCalm (or_raise o e)
or_raise-IsCalm none e h w = ground arith
or_raise-IsCalm (some a) e h w = ground arith

-- A call uses up one step of the others, while there is one.
call-length :
    {A : Type 0} (f : Db → Result LpPersistenceError A × Db) (others : List Interference) (d : Db)
    → length (call f (record { db = d; others = others })).1.others ≡ length others - 1
call-length f [] d = refl
call-length f (writes g ∷ gs) d = omega arith
call-length f (stops ∷ gs) d = omega arith

call-fine :
    {A : Type 0} (f : Db → Result LpPersistenceError A × Db) (others : List Interference) (d : Db)
    → ((x : Db) → (f x).0 ≢ err out_of_fuel)
    → (call f (record { db = d; others = others })).0 ≢ err out_of_fuel
call-fine f [] d h = h d
call-fine f (writes g ∷ gs) d h = h (g d)
call-fine f (stops ∷ gs) d h = λ k. cc

call-IsCalm :
    {A : Type 0} (f : Db → Result LpPersistenceError A × Db)
    → ((d : Db) → (f d).0 ≢ err out_of_fuel)
    → IsCalm (call f)
call-IsCalm f h w = (omega (arith, call-length f w.others w.db), call-fine f w.others w.db h)

get_state-IsCalm : (a : Text) → IsCalm (get_state a)
unfolding get_state
get_state-IsCalm a =
    bind-IsCalm (call (λ d. (ok (find_state a d.states), d))) (λ s. or_raise s state_not_found)
      (call-IsCalm (λ d. (ok (find_state a d.states), d)) (λ d k. cc))
      (λ s. or_raise-IsCalm s state_not_found (λ k. cc))

find_event-IsCalm : (id : Text) → IsCalm (find_event id)
unfolding find_event
find_event-IsCalm id = call-IsCalm (λ d. (ok (d.events id), d)) (λ d k. cc)

upsert_event-fine : (t : LpTransaction) (d : Db) → (upsert_event t d).0 ≢ err out_of_fuel
unfolding upsert_event
upsert_event-fine t d h = ground (arith, h)

record_event-IsCalm : (t : LpTransaction) → IsCalm (record_event t)
unfolding record_event assert_event
record_event-IsCalm t =
    bind-IsCalm (call (upsert_event t)) (λ e. assert_event e t)
      (call-IsCalm (upsert_event t) (upsert_event-fine t))
      (λ e. raise_if-IsCalm (not (same_event e t)) conflicting_event (λ k. cc))

legacy_alias-IsCalm : (id : Text) (aliases : List Text) → IsCalm (legacy_alias id aliases)
unfolding legacy_alias
legacy_alias-IsCalm id [] w = ground arith
legacy_alias-IsCalm id (a ∷ aliases) w = ground (
  arith,
  find_event-IsCalm a w,
  legacy_alias-IsCalm id aliases w,
  legacy_alias-IsCalm id aliases (find_event a w).1,
)

recorded-IsCalm :
    (t : LpTransaction) (order : Text) (s : LpState) (cursor : Text)
    → IsCalm (recorded t order s cursor)
unfolding recorded
recorded-IsCalm t order s cursor w = ground (arith, get_state-IsCalm t.pool_address w)

apply_delta-IsCalm :
    (s : LpState) (cursor order : Text) (round : ℕ) (x : LpBalanceDelta)
    → IsCalm (apply_delta s cursor order round x)
unfolding apply_delta
apply_delta-IsCalm s cursor order round x =
    call-IsCalm (λ d. let (found, d') = apply_delta_db s cursor order round x d in (ok found, d'))
      (λ d k. cc)

after_delta-IsCalm :
    (t : LpTransaction) (cursor : Text) (found : Option LpState)
    → IsCalm (after_delta t cursor found)
unfolding after_delta
after_delta-IsCalm t cursor none w = ground (arith, get_state-IsCalm t.pool_address w)
after_delta-IsCalm t cursor (some u) w = ground (arith, record_event-IsCalm t w)

advance-IsCalm :
    (t : LpTransaction) (order : Text) (s : LpState) (cursor : Text)
    → IsCalm (advance t order s cursor)
unfolding advance from_delta
advance-IsCalm t order s cursor w =
    let delta =
      lp_balance_delta s.token_id s.asset1_id s.asset2_id t.asa_id (int t.delta_amount_micros) in
    elim (Result-cases delta) [
      | inl (x, e) ↦ ground (
        arith,
        e,
        bind-IsCalm (apply_delta s cursor order t.confirmed_round x) (after_delta t cursor)
            (apply_delta-IsCalm s cursor order t.confirmed_round x) (after_delta-IsCalm t cursor) w,
      )
      | inr (x, e) ↦ ground (arith, e)
    ]

unrecorded-IsCalm :
    (t : LpTransaction) (order : Text) (s : LpState) (cursor : Text)
    → IsCalm (unrecorded t order s cursor)
unfolding unrecorded
unrecorded-IsCalm t order s cursor w =
    ground (arith, record_event-IsCalm t w, advance-IsCalm t order s cursor w)

check_canonical-IsCalm :
    (t : LpTransaction) (canonical : Option LpTransaction) → IsCalm (check_canonical t canonical)
unfolding check_canonical assert_event
check_canonical-IsCalm t none w = ground arith
check_canonical-IsCalm t (some e) w = ground arith

classify-IsCalm :
    (t : LpTransaction) (order : Text) (s : LpState) (canonical : Option LpTransaction)
    (legacy : Option Text)
    → IsCalm (classify t order s canonical legacy)
unfolding classify
classify-IsCalm t order s canonical (some a) w = ground arith
classify-IsCalm t order s (some e) none w = elim (Option-cases s.last_event_order) [
  | inl c ↦ ground (arith, c)
  | inr (cursor, c) ↦ ground (arith, c, recorded-IsCalm t order s cursor w)
]
classify-IsCalm t order s none none w = elim (Option-cases s.last_event_order) [
  | inl c ↦ ground (arith, c)
  | inr (cursor, c) ↦ ground (arith, c, unrecorded-IsCalm t order s cursor w)
]

with_marker-IsCalm :
    (t : LpTransaction) (order : Text) (s : LpState) (canonical : Option LpTransaction)
    → IsCalm (with_marker t order s canonical)
unfolding with_marker from_aliases
with_marker-IsCalm t order s canonical =
    bind-IsCalm (check_canonical t canonical)
      (λ _. lift (from_aliases (event_id_aliases t.id)) >>= λ aliases.
        legacy_alias t.id aliases >>= classify t order s canonical)
      (check_canonical-IsCalm t canonical)
      (λ _ w. elim (Result-cases (event_id_aliases t.id)) [
        | inr (x, a) ↦ ground (arith, a)
        | inl (aliases, a) ↦ ground (
          arith,
          a,
          bind-IsCalm (legacy_alias t.id aliases) (classify t order s canonical)
              (legacy_alias-IsCalm t.id aliases) (classify-IsCalm t order s canonical) w,
        )
      ])

project_at-IsCalm : (t : LpTransaction) (s : LpState) → IsCalm (project_at t s)
unfolding project_at
project_at-IsCalm t s =
    bind-IsCalm (or_raise t.event_order missing_order)
      (λ order. find_event t.id >>= with_marker t order s)
      (or_raise-IsCalm t.event_order missing_order (λ k. cc))
      (λ order.
        bind-IsCalm (find_event t.id) (with_marker t order s) (find_event-IsCalm t.id)
          (with_marker-IsCalm t order s))

project_once-IsCalm : (t : LpTransaction) → IsCalm (project_once t)
unfolding project_once
project_once-IsCalm t =
    bind-IsCalm (get_state t.pool_address) (project_at t) (get_state-IsCalm t.pool_address)
      (project_at-IsCalm t)

get_state-length_at :
    (a : Text) (others : List Interference) (d : Db)
    → length (get_state a (record { db = d; others = others })).1.others ≡ length others - 1
unfolding get_state
get_state-length_at a [] d = ground arith
get_state-length_at a (writes g ∷ gs) d = ground arith
get_state-length_at a (stops ∷ gs) d = ground arith

get_state-length : (a : Text) (w : World) → length (get_state a w).1.others ≡ length w.others - 1
get_state-length a w = get_state-length_at a w.others w.db

project_once-length :
    (t : LpTransaction) (w : World) → length (project_once t w).1.others ≤ length w.others - 1
unfolding project_once
project_once-length t w = elim (Result-cases (get_state t.pool_address w).0) [
  | inl (s, e) ↦ ground (
    arith,
    e,
    get_state-length t.pool_address w,
    project_at-IsCalm t s (get_state t.pool_address w).1,
  )
  | inr (x, e) ↦ ground (arith, e, get_state-length t.pool_address w)
]

-- Only a round that another worker stepped into begins again, so fewer steps are left.
again-length :
    (t : LpTransaction) (others : List Interference) (d : Db)
    → (project_once t (record { db = d; others = others })).0 ≡ ok none
    → length (project_once t (record { db = d; others = others })).1.others < length others
again-length t [] d h = elim (project_once-quiet t d (project_once t (quiet d)).1 (rw h refl)) [ ]
again-length t (f ∷ fs) d h =
    omega (arith, project_once-length t (record { db = d; others = f ∷ fs }))

-- With more units of fuel than steps before its calls, writes of other workers or its own end,
-- `project` ends: it returns an outcome, or it raises an error other than the end of the fuel, whatever
-- those steps write and wherever they fall.
pub project-ends :
    (fuel : ℕ) (t : LpTransaction) (w : World)
    → length w.others < fuel
    → (project fuel t w).0 ≢ err out_of_fuel
unfolding project
project-ends zero t w h k = omega arith
project-ends (suc fuel) t w h k =
    let w' = (project_once t w).1 in
    elim (Result-cases (project_once t w).0) [
      | inr (x, e) ↦ ground (arith, e, k, project_once-IsCalm t w)
      | inl (none, e) ↦
          project-ends fuel t w' (omega (arith, again-length t w.others w.db e))
            (ground (arith, e, k))
      | inl (some o, e) ↦ ground (arith, e, k)
    ]
