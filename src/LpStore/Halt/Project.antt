-- ===== src/LpStore/Halt/Project.antt =====
-- flex/db/lp_projection.py: `project` of a worker that ends before one of its calls of the database.
use mathlib.Core.Path.{subst}
use cometa_backend.Base.{
  ℕ, zero, suc, ◌≡◌, refl, sym, ap, ◌∙◌, inl, inr, Bool, false, not, Bool-cases, Option, none, some,
}
use cometa_backend.Base.Text.{Text, text_eq, text_lt}
use cometa_backend.Base.Exec.{Result-cases, ok, ◌>>=◌, ◌>>◌, pure, raise_if, or_raise, lift}
use cometa_backend.Base.Value.{int}
use cometa_backend.EventId.{event_id_aliases}
use cometa_backend.LpCursor.{lp_balance_delta, LpBalanceDelta, snapshot_covers_event}
use cometa_backend.LpStore.{
  LpState, LpTransaction, Db, Action, find_state, find_event, get_state, legacy_alias,
  check_canonical, check_legacy, from_aliases, recorded, unrecorded, advance, project_once,
  project_at, with_marker, classify, missing_order, missing_cursor, legacy_marker, record_event,
  apply_delta, apply_delta_db, after_delta, from_delta, project, LpProjectionOutcome, outcome,
  applied, already_applied, snapshot_covered, at_least, marker_ahead, advanced_past, out_of_bounds,
  out_of_fuel,
}
use cometa_backend.LpStore.States.{quiet, legacy_alias-quiet}
use cometa_backend.LpStore.Quiet.{project_once-quiet}
use cometa_backend.LpStore.Halt.{
  Halts, Halts-bind, Halts-still, Halts-call, Halts-or_raise, Halts-raise_if, Halts-pure,
  Halts-raise,
}
use cometa_backend.LpStore.Halt.Reads.{
  Halts-get_state, Halts-find_event, Halts-assert_event, Halts-record_event, Halts-legacy_alias,
  apply_delta-left, get_state_lem, or_raise_lem, check_legacy-left, check_canonical-left,
}

module _ (P : Db → Type 0) where
  Halts-recorded :
      (t : LpTransaction) (order : Text) (s : LpState) (cursor : Text) (d : Db)
      → P d
      → Halts P (recorded t order s cursor) d
  unfolding recorded
  Halts-recorded t order s cursor d p = elim (Bool-cases (text_lt cursor order)) [
    | inl behind ↦ rw behind (
        Halts-bind P (get_state t.pool_address)
          (λ again.
            raise_if (not (at_least again.last_event_order order)) marker_ahead
            >> pure (outcome already_applied again))
          d (Halts-get_state P t.pool_address d p)
          (λ again d' h.
            Halts-bind P (raise_if (not (at_least again.last_event_order order)) marker_ahead)
              (λ _. pure (outcome already_applied again)) d'
              (Halts-raise_if P (not (at_least again.last_event_order order)) marker_ahead d')
              (λ _ d2 k. Halts-pure P (outcome already_applied again) d2)))
    | inr past ↦ rw past (Halts-pure P (outcome already_applied s) d)
  ]

  Halts-after_delta :
      (t : LpTransaction) (cursor : Text) (found : Option LpState) (d : Db)
      → P d
      → Halts P (after_delta t cursor found) d
  unfolding after_delta
  Halts-after_delta t cursor (some u) d p =
      Halts-bind P (record_event t) (λ _. pure (outcome applied u)) d (Halts-record_event P t d p)
        (λ _ d' h. Halts-pure P (outcome applied u) d')
  Halts-after_delta t cursor none d p =
      Halts-bind P (get_state t.pool_address)
        (λ latest.
          raise_if (elim latest.last_event_order [ none ↦ false | some c ↦ text_eq c cursor ])
            out_of_bounds
          >> pure none)
        d (Halts-get_state P t.pool_address d p)
        (λ latest d' h.
          let test : Bool = elim latest.last_event_order [
            | none ↦ false
            | some c ↦ text_eq c cursor
          ] in
          Halts-bind P (raise_if test out_of_bounds) (λ _. pure none) d'
            (Halts-raise_if P test out_of_bounds d') (λ _ d2 k. Halts-pure P none d2))

  -- The store between the two writes is one of `P`.
  abbrev pub Between : LpTransaction → Text → LpState → Text → Db → Type 0
  Between t order s cursor d =
      (x : LpBalanceDelta)
      → text_eq cursor order ≡ false
      → text_lt order cursor ≡ false
      → lp_balance_delta s.token_id s.asset1_id s.asset2_id t.asa_id (int t.delta_amount_micros)
        ≡ ok x
      → P (apply_delta_db s cursor order t.confirmed_round x d).1

  Halts-apply_delta :
      (s : LpState) (cursor order : Text) (round : ℕ) (x : LpBalanceDelta) (d : Db)
      → P d
      → Halts P (apply_delta s cursor order round x) d
  unfolding apply_delta
  Halts-apply_delta s cursor order round x d p =
      Halts-call P
        (λ d. let (found, d') = apply_delta_db s cursor order round x d in (ok found, d')) d p

  Halts-advance :
      (t : LpTransaction) (order : Text) (s : LpState) (cursor : Text) (d : Db)
      → P d
      → text_eq cursor order ≡ false
      → text_lt order cursor ≡ false
      → Between t order s cursor d
      → Halts P (advance t order s cursor) d
  unfolding advance from_delta
  Halts-advance t order s cursor d p away ahead between =
      let delta =
        lp_balance_delta s.token_id s.asset1_id s.asset2_id t.asa_id (int t.delta_amount_micros) in
      elim (Result-cases delta) [
        | inr (x, e) ↦ rw e (Halts-still P _ _ d (λ w. refl))
        | inl (x, e) ↦ rw e (
            Halts-bind P (apply_delta s cursor order t.confirmed_round x) (after_delta t cursor) d
              (Halts-apply_delta s cursor order t.confirmed_round x d p)
              (λ found d' h. Halts-after_delta t cursor found d' (
                subst P (apply_delta-left s cursor order t.confirmed_round x found d d' h)
                  (between x away ahead e))))
      ]

  Halts-unrecorded :
      (t : LpTransaction) (order : Text) (s : LpState) (cursor : Text) (d : Db)
      → P d
      → Between t order s cursor d
      → Halts P (unrecorded t order s cursor) d
  unfolding unrecorded
  Halts-unrecorded t order s cursor d p between = elim (Bool-cases (text_eq cursor order)) [
    | inl at ↦ rw at (
        Halts-bind P (record_event t) (λ _. pure (outcome already_applied s)) d
          (Halts-record_event P t d p) (λ _ d' h. Halts-pure P (outcome already_applied s) d'))
    | inr away ↦ elim (Bool-cases (text_lt order cursor)) [
      | inr behind ↦ rw (away, behind) (Halts-advance t order s cursor d p away behind between)
      | inl ahead ↦ elim (Bool-cases (snapshot_covers_event cursor t.confirmed_round)) [
        | inl covered ↦ rw (away, ahead, covered) (Halts-pure P (outcome snapshot_covered s) d)
        | inr other ↦ rw (away, ahead, other) (Halts-raise P advanced_past d)
      ]
    ]
  ]

  Halts-check_canonical :
      (t : LpTransaction) (canonical : Option LpTransaction) (d : Db)
      → Halts P (check_canonical t canonical) d
  unfolding check_canonical
  Halts-check_canonical t none d = Halts-pure P tt d
  Halts-check_canonical t (some e) d = Halts-assert_event P e t d

  Halts-check_legacy : (legacy : Option Text) (d : Db) → Halts P (check_legacy legacy) d
  Halts-check_legacy none d = Halts-pure P tt d
  Halts-check_legacy (some a) d = Halts-raise P (legacy_marker a) d

  Halts-marked :
      (t : LpTransaction) (order : Text) (s : LpState) (canonical : Option LpTransaction)
      (cursor : Text) (d : Db)
      → P d
      → (canonical ≡ none → Between t order s cursor d)
      → Halts P
          (elim canonical [
            | some _ ↦ recorded t order s cursor
            | none ↦ unrecorded t order s cursor
          ])
          d
  Halts-marked t order s (some e) cursor d p between = Halts-recorded t order s cursor d p
  Halts-marked t order s none cursor d p between =
      Halts-unrecorded t order s cursor d p (between refl)

  Halts-classify :
      (t : LpTransaction) (order : Text) (s : LpState) (canonical : Option LpTransaction)
      (legacy : Option Text) (d : Db)
      → P d
      → ((cursor : Text)
          → s.last_event_order ≡ some cursor
          → canonical ≡ none
          → Between t order s cursor d)
      → Halts P (classify t order s canonical legacy) d
  unfolding classify
  Halts-classify t order s canonical legacy d p between =
      let decide : Text → Action (Option LpProjectionOutcome) = λ cursor. elim canonical [
        | some _ ↦ recorded t order s cursor
        | none ↦ unrecorded t order s cursor
      ] in
      Halts-bind P (check_legacy legacy)
        (λ _. or_raise s.last_event_order missing_cursor >>= decide) d (Halts-check_legacy legacy d)
        (λ u d1 h.
          Halts-bind P (or_raise s.last_event_order missing_cursor) decide d1
            (Halts-or_raise P s.last_event_order missing_cursor d1)
            (λ cursor d2 k.
              let (c, same) = or_raise_lem s.last_event_order missing_cursor d1 d2 cursor k in
              subst (λ x. Halts P (decide cursor) x) (check_legacy-left legacy u d d1 h ∙ same)
                (Halts-marked t order s canonical cursor d p (between cursor c))))

  Halts-with_marker :
      (t : LpTransaction) (order : Text) (s : LpState) (canonical : Option LpTransaction) (d : Db)
      → P d
      → ((cursor : Text)
          → s.last_event_order ≡ some cursor
          → canonical ≡ none
          → Between t order s cursor d)
      → Halts P (with_marker t order s canonical) d
  unfolding with_marker
  Halts-with_marker t order s canonical d p between =
      let ids = from_aliases (event_id_aliases t.id) in
      Halts-bind P (check_canonical t canonical)
        (λ _. lift ids >>= λ aliases. legacy_alias t.id aliases >>= classify t order s canonical) d
        (Halts-check_canonical t canonical d)
        (λ u d1 h.
          Halts-bind P (lift ids)
            (λ aliases. legacy_alias t.id aliases >>= classify t order s canonical) d1
            (Halts-still P (lift ids) ids d1 (λ w. refl))
            (λ aliases d2 k.
              subst (λ x. Halts P (legacy_alias t.id aliases >>= classify t order s canonical) x)
                (check_canonical-left t canonical u d d1 h ∙ ap (λ y. y.1.db) k)
                (Halts-bind P (legacy_alias t.id aliases) (classify t order s canonical) d
                  (Halts-legacy_alias P t.id aliases d p)
                  (λ legacy d3 l.
                    subst (λ x. Halts P (classify t order s canonical legacy) x)
                      (ap (λ y. y.1.db) (sym (legacy_alias-quiet t.id aliases d) ∙ l))
                      (Halts-classify t order s canonical legacy d p between)))))

  Halts-project_at :
      (t : LpTransaction) (s : LpState) (d : Db)
      → P d
      → ((order cursor : Text)
          → t.event_order ≡ some order
          → s.last_event_order ≡ some cursor
          → d.events t.id ≡ none
          → Between t order s cursor d)
      → Halts P (project_at t s) d
  unfolding project_at find_event
  Halts-project_at t s d p between =
      Halts-bind P (or_raise t.event_order missing_order)
        (λ order. find_event t.id >>= with_marker t order s) d
        (Halts-or_raise P t.event_order missing_order d)
        (λ order d1 h.
          let (o, same) = or_raise_lem t.event_order missing_order d d1 order h in
          subst (λ x. Halts P (find_event t.id >>= with_marker t order s) x) same
            (Halts-bind P (find_event t.id) (with_marker t order s) d (Halts-find_event P t.id d p)
              (λ canonical d2 k.
                subst (λ x. Halts P (with_marker t order s canonical) x) (ap (λ y. y.1.db) k)
                  (Halts-with_marker t order s canonical d p
                    (λ cursor c m. between order cursor o c (found_lem d d2 canonical k ∙ m))))))
    where
      found_lem :
          (d d2 : Db) (canonical : Option LpTransaction)
          → find_event t.id (quiet d) ≡ (ok canonical, quiet d2)
          → d.events t.id ≡ canonical
      found_lem d d2 canonical k = cc

  -- A round alone is not repeated.
  Halts-done :
      (fuel : ℕ) (t : LpTransaction) (done : Option LpProjectionOutcome) (d d' : Db)
      → project_once t (quiet d) ≡ (ok done, quiet d')
      → Halts P (elim done [ some o ↦ pure o | none ↦ project fuel t ]) d'
  Halts-done fuel t (some o) d d' h = Halts-pure P o d'
  Halts-done fuel t none d d' h = elim (project_once-quiet t d (quiet d') h) [ ]

  -- Wherever the worker ends, `project` ends on the store at its start or on one between its writes.
  pub Halts-project :
      (fuel : ℕ) (t : LpTransaction) (d : Db)
      → P d
      → ((s : LpState) (order cursor : Text)
          → find_state t.pool_address d.states ≡ some s
          → t.event_order ≡ some order
          → s.last_event_order ≡ some cursor
          → d.events t.id ≡ none
          → Between t order s cursor d)
      → Halts P (project fuel t) d
  unfolding project project_once
  Halts-project zero t d p between = Halts-raise P out_of_fuel d
  Halts-project (suc fuel) t d p between =
      Halts-bind P (project_once t) (λ done. elim done [ some o ↦ pure o | none ↦ project fuel t ])
        d
        (Halts-bind P (get_state t.pool_address) (project_at t) d
          (Halts-get_state P t.pool_address d p)
          (λ s d1 h.
            let (f, same) = get_state_lem t.pool_address d d1 s h in
            subst (λ x. Halts P (project_at t s) x) same
              (Halts-project_at t s d p (λ order cursor. between s order cursor f))))
        (λ done d1 h. Halts-done fuel t done d d1 h)
