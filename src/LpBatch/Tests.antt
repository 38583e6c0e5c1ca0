-- ===== src/LpBatch/Tests.antt =====
-- A batch of two events, in the wrong order, and one with an event of another round.
use cometa_backend.Base.{ℕ, ◌≡◌, refl, inl, inr, none, some, List, [], ◌∷◌, arith}
use cometa_backend.Base.Text.{Text, text, text_eq, text_lt}
use cometa_backend.Base.Exec.{ok, err}
use cometa_backend.Base.Int.{pos}
use cometa_backend.LpStore.{LpTransaction, World}
use cometa_backend.LpBatch.{
  BatchError, preflight, canonicalize, find_id, sorted_by_order, insert_by_order,
  update_lp_states_with_transactions,
}
use cometa_backend.LpBatch.Preflight.{update_lp_states_with_transactions-foreign}

abbrev event : Text → ℕ → LpTransaction
event id round = record {
  id = id;
  pool_address = text "P";
  user_address = text "U";
  asa_id = 20;
  delta_amount_micros = pos 100;
  confirmed_round = round;
  event_position = 2;
  event_order = some id;
}

abbrev batch : List LpTransaction
batch = event (text "B") 7 ∷ event (text "A") 7 ∷ []

abbrev ordered : List LpTransaction
ordered = event (text "A") 7 ∷ event (text "B") 7 ∷ []

abbrev mixed : List LpTransaction
mixed = event (text "A") 7 ∷ event (text "B") 8 ∷ []

abbrev empty : World
empty = record { db = record { states = []; events = λ _. none }; others = [] }

in_order : preflight 7 batch ≡ ok ordered
unfolding preflight canonicalize find_id text_eq sorted_by_order insert_by_order text_lt
in_order = refl

update_lp_states_with_transactions-foreign_example :
    (e : BatchError) × (update_lp_states_with_transactions 1 7 mixed empty ≡ (err e, empty))
update_lp_states_with_transactions-foreign_example =
    update_lp_states_with_transactions-foreign 1 7 mixed (event (text "B") 8) empty (inr (inl refl))
      (λ n. omega (arith, n))
