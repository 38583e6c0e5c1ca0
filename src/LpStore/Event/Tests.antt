-- ===== src/LpStore/Event/Tests.antt =====
-- An event whose order is not given.
use cometa_backend.Base.{◌≡◌, refl, none}
use cometa_backend.Base.Digits.{fixed_decimal}
use cometa_backend.Base.Exec.{ok}
use cometa_backend.Base.Int.{pos}
use cometa_backend.Base.Text.{text, contains}
use cometa_backend.Base.Value.{int}
use cometa_backend.Uint64.{require_algorand_uint64}
use cometa_backend.LpCursor.{lp_event_order}
use cometa_backend.LpStore.Tests.{deposit}
use cometa_backend.LpStore.Event.{
  create_transaction, signed_delta, with_order, IsEvent, create_transaction-IsEvent,
}

deposit_made :
    create_transaction
      (text "TX")
      (text "P")
      (text "U")
      (int (pos 20))
      (int (pos 100))
      (int (pos 7))
      (int (pos 2))
      none
    ≡ ok deposit
unfolding create_transaction signed_delta with_order require_algorand_uint64 lp_event_order contains
    fixed_decimal
deposit_made = refl

create_transaction-IsEvent_example : IsEvent deposit
create_transaction-IsEvent_example =
    create_transaction-IsEvent (text "TX") (text "P") (text "U") (int (pos 20)) (int (pos 100))
      (int (pos 7)) (int (pos 2)) none deposit deposit_made
