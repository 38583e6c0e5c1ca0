-- ===== src/LpBatch.antt =====
-- flex/data/lp_states.py: the batch of a block's pool events, checked as a whole and then projected in
-- their order.
--
-- The dict of canonical events is a list in insertion order. Every call of `project` gets the same
-- fuel; asyncio.to_thread runs a call to its end.
pub mod Preflight
mod Tests
use cometa_backend.Base.{
  ℕ, ◌≡◌, Bool, true, false, not, ◌||◌, Option, none, some, List, [], ◌∷◌, ◌++◌, ◌==◌,
  if◌then◌else◌,
}
use cometa_backend.Base.Exec.{Result, ok, err, Exec, ◌>>=◌, ◌>>◌, pure, lift}
use cometa_backend.Base.Text.{Text, text_eq, text_lt}
use cometa_backend.LpStore.{
  LpState, LpTransaction, LpPersistenceError, World, Action, same_event, project, get_state,
  changed_balances,
}

pub data BatchError : Type 0 where
  foreign_round missing_event_order conflicting_data : BatchError
  persistence : LpPersistenceError → BatchError

-- `canonical_by_id.get`
pub find_id : Text → List LpTransaction → Option LpTransaction
find_id id [] = none
find_id id (c ∷ cs) = if text_eq c.id id then some c else find_id id cs

-- the loop
pub canonicalize :
    ℕ → List LpTransaction → List LpTransaction → Result BatchError (List LpTransaction)
canonicalize round canonical [] = ok canonical
canonicalize round canonical (t ∷ ts) =
    let added = canonicalize round (canonical ++ t ∷ []) ts in
    let kept = canonicalize round canonical ts in
    if not (t.confirmed_round == round) then err foreign_round else elim t.event_order [
      | none ↦ err missing_event_order
      | some _ ↦ elim (find_id t.id canonical) [
        | none ↦ added
        | some e ↦ if same_event e t then kept else err conflicting_data
      ]
    ]

-- `item.event_order or ""`
abbrev pub order_key : LpTransaction → Text
order_key t = elim t.event_order [ some o ↦ o | none ↦ [] ]

-- `sorted`, which keeps the order of equal keys
pub insert_by_order : LpTransaction → List LpTransaction → List LpTransaction
insert_by_order t [] = t ∷ []
insert_by_order t (x ∷ xs) =
    let rest = insert_by_order t xs in
    if text_lt (order_key x) (order_key t) then x ∷ rest else t ∷ x ∷ xs

pub sorted_by_order : List LpTransaction → List LpTransaction
sorted_by_order [] = []
sorted_by_order (t ∷ ts) = insert_by_order t (sorted_by_order ts)

-- `_preflight_lp_transactions`
pub preflight : ℕ → List LpTransaction → Result BatchError (List LpTransaction)
preflight expected_round transactions = elim (canonicalize expected_round [] transactions) [
  | ok canonical ↦ ok (sorted_by_order canonical)
  | err e ↦ err e
]

abbrev pub Batch : Type 0 → Type 0
Batch A = Exec World BatchError A

pub persisting : {A : Type 0} → Action A → Batch A
persisting m w =
    let (r, w') = m w in elim r [ ok a ↦ (ok a, w') | err e ↦ (err (persistence e), w') ]

-- A set of addresses, in their order.
pub add_address : Text → List Text → List Text
add_address a [] = a ∷ []
add_address a (x ∷ xs) =
    let rest = add_address a xs in
    if text_eq a x then x ∷ xs else if text_lt a x then a ∷ x ∷ xs else x ∷ rest

-- the loop of `project`, with the addresses whose balances changed
pub project_all : ℕ → List Text → List LpTransaction → Batch (List Text)
project_all fuel changed [] = pure changed
project_all fuel changed (t ∷ ts) = do
  o ← persisting (project fuel t)
  project_all fuel (if changed_balances o then add_address t.pool_address changed else changed) ts

pub get_states : List Text → Batch (List LpState)
get_states [] = pure []
get_states (a ∷ addresses) = do
  s ← persisting (get_state a)
  ss ← get_states addresses
  pure (s ∷ ss)

pub update_lp_states_with_transactions : ℕ → ℕ → List LpTransaction → Batch (List LpState)
update_lp_states_with_transactions fuel expected_round [] = pure []
update_lp_states_with_transactions fuel expected_round (t ∷ ts) = do
  transactions ← lift (preflight expected_round (t ∷ ts))
  changed ← project_all fuel [] transactions
  get_states changed
