-- ===== src/Uint64.antt =====
-- flex/domain/algorand.py: the integers that the Algorand protocol can hold.
use cometa_backend.Base.{
  ℕ, ◌-◌, ◌^◌, ◌≤◌, ◌≡◌, Bool, true, false, ◌||◌, Option, none, some, arith, if◌then◌else◌,
}
use cometa_backend.Base.Int.{pos, pos_part, ltb_ℤ}
use cometa_backend.Base.Value.{Value, bool, int, other}

abbrev pub max_algorand_uint : ℕ
max_algorand_uint = 2 ^ 64 - 1

-- `int(positive)`
abbrev pub least : Bool → ℕ
least true = 1
least false = 0

-- `none` is the `ValueError`, whose text is not kept.
unfoldable pub require_algorand_uint64 : Value → Bool → Option ℕ
require_algorand_uint64 (bool b) positive = none
require_algorand_uint64 (int n) positive =
    if ltb_ℤ n (pos (least positive)) || ltb_ℤ (pos max_algorand_uint) n
    then none
    else some (pos_part n)
require_algorand_uint64 other positive = none

-- A value passes exactly if it is an `int` that is no `bool`, at most 2^64 - 1, and at least 0, or 1
-- where a positive one is asked for; and what passes comes back unchanged.
pub require_algorand_uint64_iff :
    (v : Value) (positive : Bool) (n : ℕ)
    → ((require_algorand_uint64 v positive ≡ some n)
        → (v ≡ int (pos n)) × (least positive ≤ n) × (n ≤ max_algorand_uint))
      × ((v ≡ int (pos n)) × (least positive ≤ n) × (n ≤ max_algorand_uint)
          → require_algorand_uint64 v positive ≡ some n)
unfolding require_algorand_uint64
require_algorand_uint64_iff v positive n = (λ h. ground arith, λ h. ground arith)
