-- ===== src/Transfer/Repository/Silent.antt =====
-- flex/db/asset_transfer_intents.py: the repository broadcasts nothing.
use cometa_backend.Base.{ℕ, ◌≡◌, refl, false, inl, inr, Option, none, some, List, [], ◌∷◌, arith}
use cometa_backend.Base.Exec.{Result, Result-cases, ◌>>=◌}
use cometa_backend.Base.Text.{Text}
use cometa_backend.Base.Value.{Value}
use cometa_backend.Uint64.{require_algorand_uint64}
use cometa_backend.Transfer.Model.{TransferError, AssetTransferIntent}
use cometa_backend.Transfer.Repository.{
  Store, World, Action, acted, call, get, find_intent, find_and_update, with_confirmation,
  settle_confirmation, same_confirmation, confirm_round, mark_confirmed,
}

-- An action that logs no broadcast.
abbrev pub IsSilent : {A : Type 0} → Action A → Type 0
IsSilent m = (w : World) → (m w).1.sent ≡ w.sent

pub bind-IsSilent :
    {A B : Type 0} (m : Action A) (f : A → Action B)
    → IsSilent m
    → ((a : A) → IsSilent (f a))
    → IsSilent (m >>= f)
bind-IsSilent m f p q w = elim (Result-cases (m w).0) [
  | inl (a, e) ↦ ground (arith, e, p w, q a (m w).1)
  | inr (x, e) ↦ ground (arith, e, p w)
]

acted-sent : (fs : List (Store → Store)) (w : World) → (acted fs w).sent ≡ w.sent
acted-sent [] w = refl
acted-sent (f ∷ fs) w = refl

call-IsSilent : {A : Type 0} (f : Store → Result TransferError A × Store) → IsSilent (call f)
call-IsSilent f w = acted-sent w.others w

pub get-IsSilent : (id : Text) → IsSilent (get id)
unfolding get
get-IsSilent id = call-IsSilent (find_intent id)

settle_confirmation-IsSilent :
    (id txid : Text) (r : ℕ) (o : Option AssetTransferIntent)
    → IsSilent (settle_confirmation id txid r o)
unfolding settle_confirmation
settle_confirmation-IsSilent id txid r (some i) w = refl
settle_confirmation-IsSilent id txid r none w =
    call-IsSilent (λ s. (same_confirmation txid r (s id), s)) w

confirm_round-IsSilent : (id txid : Text) (r : Option ℕ) → IsSilent (confirm_round id txid r)
unfolding confirm_round
confirm_round-IsSilent id txid none w = refl
confirm_round-IsSilent id txid (some r) w =
    bind-IsSilent (call (find_and_update id txid (with_confirmation r)))
      (settle_confirmation id txid r)
      (call-IsSilent (find_and_update id txid (with_confirmation r)))
      (settle_confirmation-IsSilent id txid r) w

pub mark_confirmed-IsSilent :
    (id txid : Text) (round : Value) → IsSilent (mark_confirmed id txid round)
unfolding mark_confirmed
mark_confirmed-IsSilent id txid round =
    confirm_round-IsSilent id txid (require_algorand_uint64 round false)
