-- ===== src/EventId.antt =====
-- flex/domain/transactions.py: the event IDs of flattened transactions, their legacy aliases, and
-- the IDs of events projected into a scope.
use cometa_backend.Base.{
  ℕ, ◌≡◌, Bool, true, false, ◌&&◌, ◌||◌, not, List, [], ◌∷◌, ◌++◌, arith, if◌then◌else◌,
}
use cometa_backend.Base.Exec.{Result, ok, err}
use cometa_backend.Base.Text.{Text, text_eq, partition, partition-append, contains}

-- `TransactionShapeError`, by its cause
pub data ShapeError : Type 0 where
  empty_event_id empty_scope reserved_separator : ShapeError

-- `PROJECTION_SEPARATOR`, "@", and "#" between the parts of an inner event's ID
abbrev pub projection_separator : ℕ
projection_separator = 64

abbrev pub path_separator : ℕ
path_separator = 35

abbrev pub mem_text : Text → List Text → Bool
mem_text x [] = false
mem_text x (y ∷ ys) = if text_eq x y then true else mem_text x ys

-- `aliases.append(x)` under a test
abbrev pub append_if : Bool → Text → List Text → List Text
append_if true x xs = xs ++ x ∷ []
append_if false x xs = xs

abbrev is_empty_text : Text → Bool
is_empty_text [] = true
is_empty_text (_ ∷ _) = false

unfoldable pub event_id_aliases : Text → Result ShapeError (List Text)
event_id_aliases event_id =
    let chain = partition projection_separator event_id in
    let root = partition path_separator chain.before in
    let aliases = append_if chain.found chain.before (event_id ∷ []) in
    if is_empty_text event_id
    then err empty_event_id
    else ok (append_if (root.found && not (mem_text root.before aliases)) root.before aliases)

-- `projection_event_id`
unfoldable pub projection_event_id : Text → Text → Result ShapeError Text
projection_event_id event_id scope =
    if is_empty_text event_id
    then err empty_event_id
    else if is_empty_text scope
    then err empty_scope
    else if contains projection_separator event_id || contains projection_separator scope
    then err reserved_separator
    else ok (event_id ++ projection_separator ∷ scope)

-- A projected event keeps its chain event as an alias: the ID itself comes first, then the chain ID
-- before the separator, then the root transaction of an inner event; a root transaction has no third.
pub event_id_aliases-projection_event_id :
    (event_id scope p : Text)
    → projection_event_id event_id scope ≡ ok p
    → event_id_aliases p
      ≡ ok (
          let root = partition path_separator event_id in
          append_if
            (root.found && not (mem_text root.before (p ∷ event_id ∷ [])))
            root.before
            (p ∷ event_id ∷ []))
unfolding projection_event_id event_id_aliases
event_id_aliases-projection_event_id [] scope p h = cc
event_id_aliases-projection_event_id (c ∷ cs) scope p h =
    ground (arith, partition-append projection_separator (c ∷ cs) scope)
