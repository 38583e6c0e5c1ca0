-- ===== src/Allocation.antt =====
-- flex/domain/allocation.py: an integer budget, divided exactly by the largest-remainder method.
--
-- A share is what `Decimal(str(value))` makes of it: a decimal of digits and exponent, a special value,
-- or nothing. An accepted decimal has an adjusted exponent of at least -300 and at most 50 digits, so it
-- is a multiple of 10 ** -349: its Fraction is kept as that multiple, a natural number, and every
-- quotient of the code keeps its value. The dict of shares is a list of distinct recipients.
pub mod Budget
pub mod Near
mod Tests
use cometa_backend.Base.{
  ℕ, zero, suc, ◌+◌, ◌-◌, ◌*◌, ◌/◌, ◌%◌, ◌^◌, ◌≡◌, Bool, true, false, not, ◌||◌, ◌&&◌, Option, none,
  some, List, [], ◌∷◌, map, length, leb, ltb, ◌==◌, if◌then◌else◌,
}
use cometa_backend.Base.Exec.{Result, ok, err}
use cometa_backend.Base.Int.{ℤ, pos, negsuc, sub_ℕ, pos_part, neg_part}
use cometa_backend.Base.Text.{Text, text_eq, text_lt}
use cometa_backend.Base.Value.{Value, bool, int, other}

pub record Decimal : Type 0 where
  pub negative : Bool
  pub digits : List ℕ
  pub exponent : ℤ

pub data ShareInput : Type 0 where
  boolean invalid special : ShareInput
  decimal : Decimal → ShareInput

pub data AllocationError : Type 0 where
  total_not_integer total_not_positive no_shares empty_recipient : AllocationError
  share_boolean share_invalid share_not_finite share_not_positive : AllocationError
  share_exponent share_digits lost_budget : AllocationError

abbrev pub max_share_exponent : ℕ
max_share_exponent = 300

abbrev pub max_share_significant_digits : ℕ
max_share_significant_digits = 50

pub coefficient : ℕ → List ℕ → ℕ
coefficient acc [] = acc
coefficient acc (d ∷ ds) = coefficient (acc * 10 + d) ds

-- `abs(parsed.adjusted()) > MAX_SHARE_EXPONENT`, for exponent + (number of digits) - 1
abbrev pub exponent_out_of_range : Decimal → Bool
exponent_out_of_range d =
    let up = pos_part d.exponent + length d.digits in
    let down = neg_part d.exponent + 1 in
    ltb (max_share_exponent + down) up || ltb (max_share_exponent + up) down

-- `Fraction(parsed)`, in multiples of 10 ** -349
abbrev pub fraction : Decimal → ℕ
fraction d = coefficient 0 d.digits * 10 ^ (349 + pos_part d.exponent - neg_part d.exponent)

-- `_positive_decimal`
pub positive_decimal : ShareInput → Result AllocationError Decimal
positive_decimal boolean = err share_boolean
positive_decimal invalid = err share_invalid
positive_decimal special = err share_not_finite
positive_decimal (decimal d) =
    if d.negative || coefficient 0 d.digits == 0
    then err share_not_positive
    else if exponent_out_of_range d
    then err share_exponent
    else if ltb max_share_significant_digits (length d.digits)
    then err share_digits
    else ok d

-- the characters that `str.strip` removes
abbrev pub is_space : ℕ → Bool
is_space c =
    (leb 9 c && leb c 13)
    || (leb 28 c && leb c 32)
    || c == 133
    || c == 160
    || c == 5760
    || (leb 8192 c && leb c 8202)
    || c == 8232
    || c == 8233
    || c == 8239
    || c == 8287
    || c == 12288

-- `not recipient.strip()`
pub is_blank : Text → Bool
is_blank [] = true
is_blank (c ∷ cs) = is_space c && is_blank cs

-- the loop over the shares
pub weights : List (Text × ShareInput) → Result AllocationError (List (Text × ℕ))
weights [] = ok []
weights ((recipient, share) ∷ shares) =
    let rest = weights shares in
    if is_blank recipient then err empty_recipient else elim (positive_decimal share) [
      | err e ↦ err e
      | ok d ↦ elim rest [ err e ↦ err e | ok ws ↦ ok ((recipient, fraction d) ∷ ws) ]
    ]

module _ {A : Type 0} (before : A → A → Bool) where
  pub insert : A → List A → List A
  insert a [] = a ∷ []
  insert a (x ∷ xs) = let rest = insert a xs in if before x a then x ∷ rest else a ∷ x ∷ xs

  -- `sorted`, which is stable
  pub sorted : List A → List A
  sorted [] = []
  sorted (a ∷ xs) = insert a (sorted xs)

abbrev pub by_recipient : Text × ℕ → Text × ℕ → Bool
by_recipient (a, _) (b, _) = text_lt a b

-- the key (-remainder, recipient)
abbrev pub by_remainder : Text × ℕ → Text × ℕ → Bool
by_remainder (a, m) (b, n) = if ltb n m then true else m == n && text_lt a b

abbrev pub sum : List (Text × ℕ) → ℕ
sum [] = 0
sum ((_, n) ∷ xs) = n + sum xs

abbrev pub floors : ℕ → ℕ → List (Text × ℕ) → List (Text × ℕ)
floors total weight [] = []
floors total weight ((r, w) ∷ ws) = (r, total * w / weight) ∷ floors total weight ws

abbrev pub remainders : ℕ → ℕ → List (Text × ℕ) → List (Text × ℕ)
remainders total weight [] = []
remainders total weight ((r, w) ∷ ws) = (r, total * w % weight) ∷ remainders total weight ws

-- `allocations[recipient] += 1`
pub add_unit : Text → List (Text × ℕ) → List (Text × ℕ)
add_unit r [] = []
add_unit r ((a, n) ∷ xs) =
    let rest = add_unit r xs in if text_eq a r then (a, suc n) ∷ xs else (a, n) ∷ rest

-- the loop over the first `undistributed` of the ranked remainders
pub distribute : ℕ → List (Text × ℕ) → List (Text × ℕ) → List (Text × ℕ)
distribute zero ranked allocations = allocations
distribute (suc n) [] allocations = allocations
distribute (suc n) ((r, _) ∷ ranked) allocations = distribute n ranked (add_unit r allocations)

-- the allocation of a positive total to weights
pub allocate : ℕ → List (Text × ℕ) → List (Text × ℕ)
allocate total ws =
    let ordered = sorted by_recipient ws in
    let weight = sum ws in
    let allocations = floors total weight ordered in
    distribute (total - sum allocations) (sorted by_remainder (remainders total weight ordered))
      allocations

pub allocate_proportionally :
    Value → List (Text × ShareInput) → Result AllocationError (List (Text × ℕ))
allocate_proportionally (bool b) shares = err total_not_integer
allocate_proportionally other shares = err total_not_integer
allocate_proportionally (int (negsuc n)) shares = err total_not_positive
allocate_proportionally (int (pos zero)) shares = err total_not_positive
allocate_proportionally (int (pos (suc n))) [] = err no_shares
allocate_proportionally (int (pos (suc n))) (s ∷ shares) = elim (weights (s ∷ shares)) [
  | err e ↦ err e
  | ok ws ↦
      let allocations = allocate (suc n) ws in
      if sum allocations == suc n then ok allocations else err lost_budget
]
