-- ===== src/LpStore/Halt.antt =====
-- flex/db/lp_projection.py: actions of a worker that ends before one of its calls of the database.
pub mod Reads
pub mod Project
use mathlib.Core.Path.{subst}
use cometa_backend.Base.{
  ℕ, zero, suc, ◌≡◌, ◌≢◌, refl, sym, ap, ◌∙◌, ◌⊎◌, inl, inr, Bool, true, false, not, Bool-cases,
  Option, none, some, Option-cases, List, [], ◌∷◌, arith, if◌then◌else◌,
}
use cometa_backend.Base.Text.{Text, text_eq, text_lt}
use cometa_backend.Base.Exec.{
  Result, Result-cases, ok, err, ◌>>=◌, ◌>>◌, pure, raise, raise_if, or_raise, lift,
}
use cometa_backend.Base.Value.{int}
use cometa_backend.EventId.{event_id_aliases}
use cometa_backend.LpCursor.{lp_balance_delta, LpBalanceDelta, snapshot_covers_event}
use cometa_backend.LpStore.{
  LpState, LpTransaction, Db, World, Interference, writes, stops, LpPersistenceError, stopped,
  state_not_found, conflicting_event, Action, call, find_state, find_event, get_state, legacy_alias,
  check_canonical, check_legacy, from_aliases, recorded, unrecorded, advance, project_once,
  project_at, with_marker, classify, missing_order, missing_cursor, legacy_marker, record_event,
  upsert_event, assert_event, same_event, apply_delta, apply_delta_db, after_delta, from_delta,
  project, LpProjectionOutcome, outcome, applied, already_applied, snapshot_covered, at_least,
  marker_ahead, advanced_past, out_of_bounds, out_of_fuel,
}
use cometa_backend.LpStore.States.{quiet, legacy_alias-quiet}
use cometa_backend.LpStore.Quiet.{project_once-quiet}

-- Nothing comes before the next `n` calls, and the worker ends before the one after them.
abbrev pub ends_after : ℕ → List Interference
ends_after zero = stops ∷ []
ends_after (suc n) = writes (λ d. d) ∷ ends_after n

abbrev pub halting : ℕ → Db → World
halting n d = record { db = d; others = ends_after n }

-- Wherever the worker ends, it ends on a store of `P`, or `m` is already through, as in a worker that
-- does not end.
abbrev pub Halts : {A : Type 0} → (Db → Type 0) → Action A → Db → Type 0
Halts P m d =
    (n : ℕ)
    → (((m (halting n d)).0 ≡ err stopped) × P (m (halting n d)).1.db)
      ⊎ ((k : ℕ) × (d' : Db) × (m (halting n d) ≡ ((m (quiet d)).0, halting k d'))
          × ((m (quiet d)).1 ≡ quiet d'))

-- What `>>=` does with a result.
abbrev and_then :
    {A B : Type 0}
    → (A → Action B)
    → Result LpPersistenceError A × World
    → Result LpPersistenceError B × World
and_then f p = elim p.0 [ ok a ↦ f a p.1 | err e ↦ (err e, p.1) ]

bind-ok :
    {A B : Type 0} (m : Action A) (f : A → Action B) (w u : World) (a : A)
    → m w ≡ (ok a, u)
    → (m >>= f) w ≡ f a u
bind-ok m f w u a h = ap (and_then f) h

bind-err :
    {A B : Type 0} (m : Action A) (f : A → Action B) (w u : World) (x : LpPersistenceError)
    → m w ≡ (err x, u)
    → (m >>= f) w ≡ (err x, u)
bind-err m f w u x h = ap (and_then f) h

module _ (P : Db → Type 0) where
  pub Halts-bind :
      {A B : Type 0} (m : Action A) (f : A → Action B) (d : Db)
      → Halts P m d
      → ((a : A) (d' : Db) → m (quiet d) ≡ (ok a, quiet d') → Halts P (f a) d')
      → Halts P (m >>= f) d
  Halts-bind m f d p q n = elim (p n) [
    | inl (e, k) ↦
        let u = (m (halting n d)).1 in
        let h = bind-err m f (halting n d) u stopped (ap (λ y. (y, u)) e) in inl (rw h (refl, k))
    | inr (k, d', e, w) ↦ elim (Result-cases (m (quiet d)).0) [
      | inr (x, r) ↦
          let h = bind-err m f (halting n d) (halting k d') x (e ∙ ap (λ y. (y, halting k d')) r) in
          let s =
            bind-err m f (quiet d) (quiet d') x
              (ap (λ y. (y, (m (quiet d)).1)) r ∙ ap (λ y. (err x, y)) w) in
          inr (k, d', h ∙ ap (λ y. (y.0, halting k d')) (sym s), ap (λ y. y.1) s)
      | inl (a, r) ↦
          let alone = ap (λ y. (y, (m (quiet d)).1)) r ∙ ap (λ y. (ok a, y)) w in
          let h = bind-ok m f (halting n d) (halting k d') a (e ∙ ap (λ y. (y, halting k d')) r) in
          let s = bind-ok m f (quiet d) (quiet d') a alone in rw (h, s) (q a d' alone k)
    ]
  ]

  pub Halts-still :
      {A : Type 0} (m : Action A) (r : Result LpPersistenceError A) (d : Db)
      → ((w : World) → m w ≡ (r, w))
      → Halts P m d
  Halts-still m r d h n = inr (
    n,
    d,
    h (halting n d) ∙ ap (λ x. (x.0, halting n d)) (sym (h (quiet d))),
    ap (λ x. x.1) (h (quiet d)),
  )

  pub Halts-call :
      {A : Type 0} (f : Db → Result LpPersistenceError A × Db) (d : Db) → P d → Halts P (call f) d
  Halts-call f d p zero = inl (refl, p)
  Halts-call f d p (suc n) = inr (n, (f d).1, refl, refl)

  pub Halts-or_raise :
      {A : Type 0} (o : Option A) (e : LpPersistenceError) (d : Db) → Halts P (or_raise o e) d
  Halts-or_raise none e d = Halts-still (or_raise none e) (err e) d (λ w. refl)
  Halts-or_raise (some a) e d = Halts-still (or_raise (some a) e) (ok a) d (λ w. refl)

  pub Halts-raise_if : (b : Bool) (e : LpPersistenceError) (d : Db) → Halts P (raise_if b e) d
  Halts-raise_if true e d = Halts-still (raise_if true e) (err e) d (λ w. refl)
  Halts-raise_if false e d = Halts-still (raise_if false e) (ok tt) d (λ w. refl)

  pub Halts-pure : {A : Type 0} (a : A) (d : Db) → Halts P (pure a) d
  Halts-pure a d = Halts-still (pure a) (ok a) d (λ w. refl)

  pub Halts-raise : {A : Type 0} (e : LpPersistenceError) (d : Db) → Halts P (raise {A = A} e) d
  Halts-raise e d = Halts-still (raise e) (err e) d (λ w. refl)
