-- ===== src/Transfer/Request.antt =====
-- What an accepted transfer request asks for.
use cometa_backend.Base.{ℕ, ◌≡◌, Option, arith}
use cometa_backend.Base.Exec.{ok}
use cometa_backend.Base.Int.{pos}
use cometa_backend.Base.Text.{Text}
use cometa_backend.Base.Value.{int}
use cometa_backend.Uint64.{require_algorand_uint64}
use cometa_backend.Transfer.Model.{AssetTransferRequest, create_request}

pub create_request_lem :
    (operation_id receiver : Text) (asset amount : ℕ) (memo : Option Text)
    (r : AssetTransferRequest)
    → create_request operation_id receiver (int (pos asset)) (int (pos amount)) memo ≡ ok r
    → (r.operation_id ≡ operation_id)
      × (r.receiver ≡ receiver)
      × (r.asset_id ≡ asset)
      × (r.amount_micros ≡ amount)
unfolding create_request require_algorand_uint64
create_request_lem operation_id receiver asset amount memo r h = ground (arith, h)
