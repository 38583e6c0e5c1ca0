-- ===== src/LpStore/Snapshot/Cover.antt =====
-- flex/db/lp_projection.py: `replace_snapshot` of a worker that no other worker interrupts, and the
-- events that the snapshot covers.
use cometa_backend.Base.{
  ℕ, ◌≤◌, ◌≡◌, refl, ap, sym, ◌∙◌, ◌⊎◌, inl, inr, true, false, ◌&&◌, not, Bool-cases, Option, none,
  some, Option-cases, List, if◌then◌else◌, le→leb, arith,
}
use cometa_backend.Base.Text.{Text, text_lt, text_eq_iff, text_lt_irrefl}
use cometa_backend.Base.Exec.{Result-cases, ok, err}
use cometa_backend.Base.Int.{pos}
use cometa_backend.Base.Value.{Value, int}
use cometa_backend.LpCursor.{lp_event_order, lp_round_end_order}
use cometa_backend.LpStore.{
  LpState, LpTransaction, Db, find_state, update_state, get_state, opt_text_eq, project, unrecorded,
  snapshot_covered, conflicting_snapshot,
}
use cometa_backend.LpStore.Unique.{IsUnique, IsKeyed, update_state-some, update_state-refused}
use cometa_backend.LpStore.States.{quiet, marked_alias, update_state-none}
use cometa_backend.LpStore.Quiet.{Reads, project_once-unrecorded}
use cometa_backend.LpStore.Replay.{project-once}
use cometa_backend.LpCursor.Order.{lp_round_end_order-separates}
use cometa_backend.LpCursor.Coverage.{lp_round_end_order-covers}
use cometa_backend.EventId.{event_id_aliases}
use cometa_backend.Uint64.{max_algorand_uint, require_algorand_uint64, require_algorand_uint64_iff}
use cometa_backend.LpStore.Snapshot.{
  snapshot_fields_valid, snapshot_is_newer, with_snapshot, balances_eq, snapshot_order_of,
  kept_snapshot, update_snapshot, replace_snapshot,
}

with_snapshot-IsKeyed :
    (state : LpState) (round : ℕ) (order : Text) → IsKeyed (with_snapshot state round order)
with_snapshot-IsKeyed state round order s = (refl, refl)

-- The cursor before, if there is one, is older.
abbrev pub OlderThan : Text → Option Text → Type 0
OlderThan order none = Unit
OlderThan order (some c) = text_lt c order ≡ true

-- The state `r` has the four balances of the snapshot, its round and its cursor, and is else `s`.
abbrev pub IsReplaced : LpState → ℕ → Text → LpState → LpState → Type 0
IsReplaced state round order s r =
    OlderThan order s.last_event_order
    × (r ≡ record s {
      asset1_reserve_micros = state.asset1_reserve_micros;
      asset2_reserve_micros = state.asset2_reserve_micros;
      total_tokens_micros = state.total_tokens_micros;
      operational_algo_balance_micros = state.operational_algo_balance_micros;
      last_updated_round = round;
      last_event_order = some order;
    })

abbrev pub SameBalances : LpState → LpState → Type 0
SameBalances s state =
    (s.asset1_reserve_micros ≡ state.asset1_reserve_micros)
    × (s.asset2_reserve_micros ≡ state.asset2_reserve_micros)
    × (s.total_tokens_micros ≡ state.total_tokens_micros)
    × (s.operational_algo_balance_micros ≡ state.operational_algo_balance_micros)

-- The state is the one before, whose cursor is not older, and at the snapshot's own cursor its four
-- balances are those of the snapshot.
abbrev pub IsKept : LpState → Text → LpState → LpState → Type 0
IsKept state order s r =
    (c : Text) × (s.last_event_order ≡ some c)
    × (text_lt c order ≡ false)
    × (r ≡ s)
    × (c ≡ order → SameBalances s state)

-- The pool's state after a snapshot at the end of a round.
abbrev pub IsNewest : LpState → Value → LpState → Db → LpState → Db → Type 0
IsNewest state v s d r d' =
    (round : ℕ) × (order : Text) × (v ≡ int (pos round))
    × (lp_round_end_order (int (pos round)) ≡ ok order)
    × (find_state state.address d'.states ≡ some r)
    × (d'.events ≡ d.events)
    × (IsReplaced state round order s r ⊎ (IsKept state order s r × (d' ≡ d)))

-- The round and the cursor of a snapshot.
snapshot_order_of_lem :
    (v : Value) (round : ℕ) (order : Text)
    → snapshot_order_of v ≡ ok (round, order)
    → (v ≡ int (pos round)) × (lp_round_end_order (int (pos round)) ≡ ok order)
unfolding snapshot_order_of
snapshot_order_of_lem v round order h = elim (Option-cases (require_algorand_uint64 v false)) [
  | inl n ↦ ground (arith, h, n)
  | inr (r, e) ↦ elim (Result-cases (lp_round_end_order (int (pos r)))) [
    | inr (x, f) ↦ ground (arith, h, e, f)
    | inl (o, f) ↦
        let same : r ≡ round = ground (arith, h, e, f) in
        let written : o ≡ order = ground (arith, h, e, f) in
        (
          ((require_algorand_uint64_iff v false r).0 e).0 ∙ ap (λ n. int (pos n)) same,
          ap (λ n. lp_round_end_order (int (pos n))) (sym same) ∙ f ∙ ap ok written,
        )
  ]
]

newer-OlderThan :
    (order : Text) (s : LpState)
    → snapshot_is_newer order s ≡ true
    → OlderThan order s.last_event_order
newer-OlderThan order s h = elim (Option-cases s.last_event_order) [
  | inl e ↦ rw e tt
  | inr (c, e) ↦ rw e (ground (arith, h, e))
]

balances_eq_sound : (s state : LpState) → balances_eq s state ≡ true → SameBalances s state
unfolding balances_eq
balances_eq_sound s state h =
    (ground (arith, h), ground (arith, h), ground (arith, h), ground (arith, h))

snapshot_is_newer-IsKept :
    (state s r : LpState) (order : Text)
    → snapshot_is_newer order s ≡ false
    → r ≡ s
    → (opt_text_eq s.last_event_order (some order) && not (balances_eq s state)) ≡ false
    → IsKept state order s r
unfolding opt_text_eq
snapshot_is_newer-IsKept state s r order p k agrees = elim (Option-cases s.last_event_order) [
  | inl e ↦ ground (arith, p, e)
  | inr (c, e) ↦ (
    c,
    e,
    ground (arith, p, e),
    k,
    λ same. balances_eq_sound s state (ground (arith, agrees, e, (text_eq_iff c order).1 same)),
  )
]

-- A snapshot that no document takes reads the state again.
refused-quiet :
    (state : LpState) (v : Value) (round : ℕ) (order : Text) (d : Db)
    → snapshot_fields_valid state ≡ true
    → snapshot_order_of v ≡ ok (round, order)
    → (update_state state.token_id
        (snapshot_is_newer order)
        (with_snapshot state round order)
        d.states).0
      ≡ none
    → replace_snapshot state v (quiet d) ≡ kept_snapshot state order (quiet d)
unfolding replace_snapshot update_snapshot update_state kept_snapshot
refused-quiet state v round order d b c u =
    let q = snapshot_is_newer order in
    let w = with_snapshot state round order in
    rw (b, c, u, update_state-none state.token_id q w d.states u) refl

kept_snapshot-quiet :
    (state s : LpState) (order : Text) (d : Db)
    → find_state state.address d.states ≡ some s
    → kept_snapshot state order (quiet d) ≡ (
        if opt_text_eq s.last_event_order (some order) && not (balances_eq s state)
        then (err conflicting_snapshot, quiet d)
        else (ok s, quiet d))
unfolding kept_snapshot get_state
kept_snapshot-quiet state s order d f = ground (arith, f)

-- With unique states, the pool there under the snapshot's token, and no other worker, a snapshot that
-- returns leaves the markers. If the pool's cursor was older than the end of its round or absent, the
-- pool's state gets the snapshot's four balances, its round and its cursor, and nothing else changes
-- in it. Otherwise the store is unchanged, and at the same cursor the four balances agree.
pub replace_snapshot-IsNewest :
    (state s r : LpState) (v : Value) (d d' : Db)
    → IsUnique d.states
    → find_state state.address d.states ≡ some s
    → s.token_id ≡ state.token_id
    → replace_snapshot state v (quiet d) ≡ (ok r, quiet d')
    → IsNewest state v s d r d'
unfolding replace_snapshot update_snapshot kept_snapshot get_state
replace_snapshot-IsNewest state s r v d d' n f e h =
    elim (Bool-cases (snapshot_fields_valid state)) [
      | inr b ↦ ground (arith, h, b)
      | inl b ↦ elim (Result-cases (snapshot_order_of v)) [
        | inr (x, c) ↦ ground (arith, h, b, c)
        | inl ((round, order), c) ↦
            let q = snapshot_is_newer order in
            let w = with_snapshot state round order in
            elim (Option-cases (update_state state.token_id q w d.states).0) [
              | inl u ↦
                  let k =
                    sym (kept_snapshot-quiet state s order d f)
                    ∙ sym (refused-quiet state v round order d b c u)
                    ∙ h in
                  let p =
                    update_state-refused state.token_id q w state.address d.states s n f e u in
                  let same : d' ≡ d = ground (arith, k) in
                  let kept : r ≡ s = ground (arith, k) in
                  let agrees : (opt_text_eq s.last_event_order (some order)
                        && not (balances_eq s state))
                      ≡ false =
                    ground (arith, k) in
                  let (own, ends) = snapshot_order_of_lem v round order c in
                  (
                    round,
                    order,
                    own,
                    ends,
                    ap (λ x. find_state state.address x.states) same ∙ f ∙ ap some (sym kept),
                    ap (λ x. x.events) same,
                    inr (snapshot_is_newer-IsKept state s r order p kept agrees, same),
                  )
              | inr (y, u) ↦
                  let (p, z, g) =
                    update_state-some state.token_id q w state.address d.states s y n
                      (with_snapshot-IsKeyed state round order) f e u in
                  let same : d'
                      ≡ record d { states = (update_state state.token_id q w d.states).1 } =
                    ground (arith, h, b, c, u) in
                  let new : y ≡ r = ground (arith, h, b, c, u) in
                  let (own, ends) = snapshot_order_of_lem v round order c in
                  (
                    round,
                    order,
                    own,
                    ends,
                    ap (λ x. find_state state.address x.states) same ∙ g ∙ ap some new,
                    ap (λ x. x.events) same,
                    inl (newer-OlderThan order s p, sym new ∙ z),
                  )
            ]
      ]
    ]

-- Once a snapshot of round `e` has been taken, and the pool's state carries its cursor, an event of
-- that round or an earlier one that has no marker, under its ID or an alias, is not applied again:
-- `project` finds it covered by the snapshot, and writes nothing. The states are unique, the event has
-- its own order, and no other worker writes.
pub replace_snapshot-covers :
    (state s r : LpState) (e : ℕ) (c o : Text) (t : LpTransaction) (aliases : List Text) (d d' : Db)
    → IsUnique d.states
    → find_state state.address d.states ≡ some s
    → s.token_id ≡ state.token_id
    → e ≤ max_algorand_uint
    → lp_round_end_order (int (pos e)) ≡ ok c
    → replace_snapshot state (int (pos e)) (quiet d) ≡ (ok r, quiet d')
    → r.last_event_order ≡ some c
    → t.pool_address ≡ state.address
    → t.event_order ≡ some o
    → lp_event_order (int (pos t.confirmed_round)) t.id (int (pos t.event_position)) ≡ ok o
    → t.confirmed_round ≤ e
    → d.events t.id ≡ none
    → event_id_aliases t.id ≡ ok aliases
    → marked_alias t.id d.events aliases ≡ none
    → project 1 t (quiet d') ≡ (ok (record { state = r; result = snapshot_covered }), quiet d')
unfolding unrecorded
replace_snapshot-covers state s r e c o t aliases d d' n f k b hc h q a p ho l m g u =
    let (_, _, _, _, v, w, _) = replace_snapshot-IsNewest state s r (int (pos e)) d d' n f k h in
    let reads : Reads t d' = record {
      state = r;
      order = o;
      cursor = c;
      aliases = aliases;
      has_order = p;
      has_aliases = g;
      has_cursor = q;
      finds = ap (λ x. find_state x d'.states) a ∙ v;
      unmarked = ap (λ x. marked_alias t.id x aliases) w ∙ u;
    } in
    let y = project_once-unrecorded t d' reads (ap (λ x. x t.id) w ∙ m) in
    let before =
      (lp_round_end_order-separates t.confirmed_round t.event_position e t.id o c ho b hc).0
      ∙ le→leb t.confirmed_round e l in
    let covers =
      (lp_round_end_order-covers e t.confirmed_round c b hc).0 ∙ le→leb t.confirmed_round e l in
    project-once t d' d' (record { state = r; result = snapshot_covered })
      (ground (arith, y, before, covers, text_eq_iff c o, text_lt_irrefl o))
