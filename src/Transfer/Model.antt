-- ===== src/Transfer/Model.antt =====
-- The value objects of flex/application/asset_transfers.py and the persisted intent of
-- flex/db/model/transfers.py. The audit times of an intent are left out: no code reads them. Its
-- decimal strings `asset_id` and `amount_micros` are kept as the numbers that they spell.
use cometa_backend.Base.{
  ℕ, ◌+◌, Bool, true, false, ◌&&◌, ◌||◌, Option, none, some, [], ◌∷◌, ltb, leb, ◌==◌, if◌then◌else◌,
}
use cometa_backend.Base.Exec.{Result, ok, err}
use cometa_backend.Base.Text.{Text, text}
use cometa_backend.Base.Value.{Value}
use cometa_backend.Uint64.{max_algorand_uint, require_algorand_uint64}

pub data TransferStatus : Type 0 where
  prepared submitted confirmed : TransferStatus

abbrev pub is_confirmed : TransferStatus → Bool
is_confirmed confirmed = true
is_confirmed _ = false

-- The exceptions of the service, of the repository and of the gateway; the gateway's carry the name
-- of their type, which the service writes into an intent's `last_error`.
pub data TransferError : Type 0 where
  conflict : Text → TransferError
  pending expired : Text → Text → TransferError
  missing_round different_txid : TransferError
  unknown_transfer disappeared changed_transaction : Text → TransferError
  persistence invalid_window : TransferError
  gateway_error : Text → TransferError

-- `type(exc).__name__`
unfoldable pub type_name : TransferError → Text
type_name (conflict op) = text "AssetTransferConflictError"
type_name (pending op txid) = text "AssetTransferPendingError"
type_name (expired op txid) = text "AssetTransferExpiredError"
type_name persistence = text "TransferIntentPersistenceError"
type_name invalid_window = text "InvalidAssetTransferError"
type_name (gateway_error name) = name
type_name _ = text "AssetTransferError"

pub record AssetTransferRequest : Type 0 where
  pub operation_id : Text
  pub receiver : Text
  pub asset_id : ℕ
  pub amount_micros : ℕ
  pub note : Option Text

-- `InvalidAssetTransferError`, by the field that it names
pub data RequestError : Type 0 where
  bad_operation_id long_operation_id bad_receiver bad_asset_id bad_amount long_note : RequestError

-- `str.isspace` of one character
is_space : ℕ → Bool
is_space c =
    (leb 9 c && leb c 13)
    || ((leb 28 c && leb c 32)
        || (c == 133
            || (c == 160
                || (c == 5760
                    || ((leb 8192 c && leb c 8202)
                        || (c == 8232
                            || (c == 8233 || (c == 8239 || (c == 8287 || c == 12288)))))))))

-- `not s.strip()`
is_blank : Text → Bool
unfolding is_space
is_blank [] = true
is_blank (c ∷ cs) = is_space c && is_blank cs

-- the bytes of one character in UTF-8
encoded_size : ℕ → ℕ
encoded_size c = if ltb c 128 then 1 else if ltb c 2048 then 2 else if ltb c 65536 then 3 else 4

-- `len(s.encode())`
unfoldable pub byte_length : Text → ℕ
unfolding encoded_size
byte_length [] = 0
byte_length (c ∷ cs) = encoded_size c + byte_length cs

long_note_text : Option Text → Bool
long_note_text none = false
long_note_text (some note) = ltb 1000 (byte_length note)

-- `AssetTransferRequest(...)`, whose text fields are texts.
unfoldable pub create_request :
    Text → Text → Value → Value → Option Text → Result RequestError AssetTransferRequest
unfolding is_blank long_note_text
create_request operation_id receiver asset_id amount_micros note =
    if is_blank operation_id
    then err bad_operation_id
    else if ltb 200 (byte_length operation_id)
    then err long_operation_id
    else if is_blank receiver
    then err bad_receiver
    else elim (require_algorand_uint64 asset_id true) [
      | none ↦ err bad_asset_id
      | some asset ↦ elim (require_algorand_uint64 amount_micros true) [
        | none ↦ err bad_amount
        | some amount ↦
            if long_note_text note
            then err long_note
            else ok (record {
              operation_id = operation_id;
              receiver = receiver;
              asset_id = asset;
              amount_micros = amount;
              note = note;
            })
      ]
    ]

-- A round window of the protocol: two uint64 rounds in order.
abbrev pub valid_window : ℕ → ℕ → Bool
valid_window first last =
    leb first max_algorand_uint && (leb last max_algorand_uint && leb first last)

-- What the gateway prepares; its `__post_init__` is `valid_window`.
pub record PreparedAssetTransfer : Type 0 where
  pub signed_transaction : Text
  pub txid : Text
  pub first_valid_round : ℕ
  pub last_valid_round : ℕ

pub record AssetTransferReceipt : Type 0 where
  pub operation_id : Text
  pub txid : Text
  pub confirmed_round : ℕ
  pub already_confirmed : Bool

pub record AssetTransferIntent : Type 0 where
  pub id : Text
  pub receiver : Text
  pub asset_id : ℕ
  pub amount_micros : ℕ
  pub note : Option Text
  pub signed_transaction : Text
  pub txid : Text
  pub first_valid_round : ℕ
  pub last_valid_round : ℕ
  pub status : TransferStatus
  pub attempt_count : ℕ
  pub confirmed_round : Option ℕ
  pub last_error : Option Text

-- `AssetTransferIntent(...)` as `execute` builds it
abbrev pub new_intent : AssetTransferRequest → PreparedAssetTransfer → AssetTransferIntent
new_intent r p = record {
  id = r.operation_id;
  receiver = r.receiver;
  asset_id = r.asset_id;
  amount_micros = r.amount_micros;
  note = r.note;
  signed_transaction = p.signed_transaction;
  txid = p.txid;
  first_valid_round = p.first_valid_round;
  last_valid_round = p.last_valid_round;
  status = prepared;
  attempt_count = 0;
  confirmed_round = none;
  last_error = none;
}
