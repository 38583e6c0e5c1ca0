-- ===== src/LpStore/Halt/Reads.antt =====
-- flex/db/lp_projection.py: the reads and the marker of `project` of a worker that ends.
use mathlib.Core.Path.{subst}
use cometa_backend.Base.{
  ℕ, ◌≡◌, ap, inl, inr, not, Bool-cases, Option, none, some, Option-cases, List, [], ◌∷◌, arith,
}
use cometa_backend.Base.Text.{Text, text_eq}
use cometa_backend.Base.Exec.{ok, pure, or_raise}
use cometa_backend.LpCursor.{LpBalanceDelta}
use cometa_backend.LpStore.{
  LpState, LpTransaction, Db, LpPersistenceError, state_not_found, conflicting_event, call,
  find_state, find_event, get_state, legacy_alias, check_canonical, check_legacy, record_event,
  upsert_event, assert_event, same_event, apply_delta, apply_delta_db,
}
use cometa_backend.LpStore.States.{quiet}
use cometa_backend.LpStore.Halt.{
  Halts, Halts-bind, Halts-call, Halts-or_raise, Halts-raise_if, Halts-pure,
}

pub apply_delta-left :
    (s : LpState) (cursor order : Text) (round : ℕ) (x : LpBalanceDelta) (found : Option LpState)
    (d d' : Db)
    → apply_delta s cursor order round x (quiet d) ≡ (ok found, quiet d')
    → (apply_delta_db s cursor order round x d).1 ≡ d'
unfolding apply_delta
apply_delta-left s cursor order round x found d d' h = ap (λ y. y.1.db) h

pub get_state_lem :
    (a : Text) (d d' : Db) (s : LpState)
    → get_state a (quiet d) ≡ (ok s, quiet d')
    → (find_state a d.states ≡ some s) × (d ≡ d')
unfolding get_state
get_state_lem a d d' s h = elim (Option-cases (find_state a d.states)) [
  | inl e ↦ ground (arith, e, h)
  | inr (x, e) ↦ (ground (arith, e, h), ground (arith, e, h))
]

pub or_raise_lem :
    {A : Type 0} (o : Option A) (e : LpPersistenceError) (d d' : Db) (a : A)
    → or_raise o e (quiet d) ≡ (ok a, quiet d')
    → (o ≡ some a) × (d ≡ d')
or_raise_lem none e d d' a h = cc
or_raise_lem (some x) e d d' a h = (cc, ap (λ y. y.1.db) h)

pub check_legacy-left :
    (legacy : Option Text) (u : Unit {0}) (d d' : Db)
    → check_legacy legacy (quiet d) ≡ (ok u, quiet d')
    → d ≡ d'
check_legacy-left none u d d' h = ap (λ y. y.1.db) h
check_legacy-left (some a) u d d' h = ap (λ y. y.1.db) h

pub check_canonical-left :
    (t : LpTransaction) (canonical : Option LpTransaction) (u : Unit {0}) (d d' : Db)
    → check_canonical t canonical (quiet d) ≡ (ok u, quiet d')
    → d ≡ d'
unfolding check_canonical assert_event
check_canonical-left t none u d d' h = ap (λ y. y.1.db) h
check_canonical-left t (some e) u d d' h = elim (Bool-cases (same_event e t)) [
  | inl same ↦ ground (arith, same, h)
  | inr other ↦ ground (arith, other, h)
]

module _ (P : Db → Type 0) where
  pub Halts-get_state : (a : Text) (d : Db) → P d → Halts P (get_state a) d
  unfolding get_state
  Halts-get_state a d p =
      Halts-bind P (call (λ d. (ok (find_state a d.states), d))) (λ s. or_raise s state_not_found) d
        (Halts-call P (λ d. (ok (find_state a d.states), d)) d p)
        (λ s d' h. Halts-or_raise P s state_not_found d')

  pub Halts-find_event : (id : Text) (d : Db) → P d → Halts P (find_event id) d
  unfolding find_event
  Halts-find_event id d p = Halts-call P (λ d. (ok (d.events id), d)) d p

  pub Halts-assert_event : (e t : LpTransaction) (d : Db) → Halts P (assert_event e t) d
  unfolding assert_event
  Halts-assert_event e t d = Halts-raise_if P (not (same_event e t)) conflicting_event d

  pub Halts-record_event : (t : LpTransaction) (d : Db) → P d → Halts P (record_event t) d
  unfolding record_event
  Halts-record_event t d p =
      Halts-bind P (call (upsert_event t)) (λ e. assert_event e t) d
        (Halts-call P (upsert_event t) d p) (λ e d' h. Halts-assert_event e t d')

  Halts-alias_found :
      (id a : Text) (aliases : List Text) (found : Option LpTransaction) (d : Db)
      → ((x : Db) → P x → Halts P (legacy_alias id aliases) x)
      → P d
      → Halts P (elim found [ some _ ↦ pure (some a) | none ↦ legacy_alias id aliases ]) d
  Halts-alias_found id a aliases none d rest p = rest d p
  Halts-alias_found id a aliases (some e) d rest p = Halts-pure P (some a) d

  pub Halts-legacy_alias :
      (id : Text) (aliases : List Text) (d : Db) → P d → Halts P (legacy_alias id aliases) d
  unfolding legacy_alias find_event
  Halts-legacy_alias id [] d p n = Halts-pure P none d n
  Halts-legacy_alias id (a ∷ aliases) d p n = elim (Bool-cases (text_eq a id)) [
    | inl same ↦ rw same (Halts-legacy_alias id aliases d p n)
    | inr other ↦ rw other (
        Halts-bind P (find_event a)
          (λ found. elim found [ some _ ↦ pure (some a) | none ↦ legacy_alias id aliases ]) d
          (Halts-find_event a d p)
          (λ found d' h.
            Halts-alias_found id a aliases found d' (λ x. Halts-legacy_alias id aliases x)
              (subst P (ap (λ y. y.1.db) h) p))
          n)
  ]
