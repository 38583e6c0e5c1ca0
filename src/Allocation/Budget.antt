-- ===== src/Allocation/Budget.antt =====
-- flex/domain/allocation.py: the units that remain after the floors are fewer than the recipients, and
-- the allocation spends the budget.
use native.Mathlib.Nat.{
  mul-add, mul-pos, pos_of_ne-zero, one-le-pow, div-add-mod, mod-lt, le_of_mul-le-mul_left,
  mul_comm,
}
use cometa_backend.Base.{
  ℕ, zero, suc, ◌+◌, ◌-◌, ◌*◌, ◌/◌, ◌≤◌, ◌<◌, ◌≡◌, ◌≢◌, refl, ap, ◌∙◌, inl, inr, Bool, true, false,
  Bool-cases, List, [], ◌∷◌, length, if◌then◌else◌, arith, All,
}
use cometa_backend.Base.Exec.{Result-cases, ok}
use cometa_backend.Base.Int.{pos, pos_part, neg_part}
use cometa_backend.Base.Text.{Text, text_eq, text_eq_refl}
use cometa_backend.Base.Value.{int}
use cometa_backend.Allocation.{
  Decimal, ShareInput, boolean, invalid, special, decimal, coefficient, fraction, positive_decimal,
  weights, insert, sorted, by_recipient, by_remainder, sum, floors, remainders, add_unit,
  distribute, allocate, allocate_proportionally,
}

-- Sorting keeps what an unordered sum sees.
insert-sum :
    (before : Text × ℕ → Text × ℕ → Bool) (x : Text × ℕ) (xs : List (Text × ℕ))
    → sum (insert before x xs) ≡ x.1 + sum xs
unfolding insert
insert-sum before x [] = refl
insert-sum before x (y ∷ xs) = ground (arith, insert-sum before x xs)

pub sorted-sum :
    (before : Text × ℕ → Text × ℕ → Bool) (xs : List (Text × ℕ)) → sum (sorted before xs) ≡ sum xs
unfolding sorted
sorted-sum before [] = refl
sorted-sum before (x ∷ xs) =
    omega (arith, insert-sum before x (sorted before xs), sorted-sum before xs)

insert-length :
    (before : Text × ℕ → Text × ℕ → Bool) (x : Text × ℕ) (xs : List (Text × ℕ))
    → length (insert before x xs) ≡ suc (length xs)
unfolding insert
insert-length before x [] = refl
insert-length before x (y ∷ xs) = ground (arith, insert-length before x xs)

sorted-length :
    (before : Text × ℕ → Text × ℕ → Bool) (xs : List (Text × ℕ))
    → length (sorted before xs) ≡ length xs
unfolding sorted
sorted-length before [] = refl
sorted-length before (x ∷ xs) =
    omega (arith, insert-length before x (sorted before xs), sorted-length before xs)

module _ (P : Text × ℕ → Type 0) (before : Text × ℕ → Text × ℕ → Bool) where
  insert-All : (x : Text × ℕ) (xs : List (Text × ℕ)) → P x → All P xs → All P (insert before x xs)
  unfolding insert
  insert-All x [] p h = (p, tt)
  insert-All x (y ∷ xs) p h = elim (Bool-cases (before y x)) [
    | inl e ↦ rw e (h.0, insert-All x xs p h.1)
    | inr e ↦ rw e (p, h)
  ]

  sorted-All : (xs : List (Text × ℕ)) → All P xs → All P (sorted before xs)
  unfolding sorted
  sorted-All [] h = tt
  sorted-All (x ∷ xs) h = insert-All x (sorted before xs) h.0 (sorted-All xs h.1)

-- The exact shares are the floors and the remainders.
floors-remainders :
    (total weight : ℕ) (ws : List (Text × ℕ))
    → weight * sum (floors total weight ws) + sum (remainders total weight ws) ≡ total * sum ws
floors-remainders total weight [] = omega arith
floors-remainders total weight ((r, w) ∷ ws) = omega (
  arith,
  mul-add weight (total * w / weight) (sum (floors total weight ws)),
  mul-add total w (sum ws),
  div-add-mod (total * w) weight,
  floors-remainders total weight ws,
)

remainders-sum :
    (total weight : ℕ) (ws : List (Text × ℕ))
    → 0 < weight
    → sum (remainders total weight ws) ≤ weight * length ws
remainders-sum total weight [] h = omega arith
remainders-sum total weight ((r, w) ∷ ws) h =
    omega
      (arith, mul-add weight 1 (length ws), mod-lt (total * w) h, remainders-sum total weight ws h)

remainders-length :
    (total weight : ℕ) (ws : List (Text × ℕ)) → length (remainders total weight ws) ≡ length ws
remainders-length total weight [] = refl
remainders-length total weight (w ∷ ws) = omega (arith, remainders-length total weight ws)

-- At most one unit for each recipient is left.
floors-bounds :
    (total weight : ℕ) (ws : List (Text × ℕ))
    → 0 < weight
    → sum ws ≡ weight
    → (sum (floors total weight ws) ≤ total) × (total ≤ sum (floors total weight ws) + length ws)
floors-bounds total weight ws h e =
    let q = sum (floors total weight ws) in
    let exact = floors-remainders total weight ws ∙ ap (λ x. total * x) e ∙ mul_comm total weight in
    (
      le_of_mul-le-mul_left (omega (arith, exact)) h,
      le_of_mul-le-mul_left
          (omega (arith, exact, mul-add weight q (length ws), remainders-sum total weight ws h)) h,
    )

abbrev pub has_key : Text → List (Text × ℕ) → Bool
has_key r [] = false
has_key r ((a, _) ∷ xs) = if text_eq a r then true else has_key r xs

add_unit-sum :
    (r : Text) (xs : List (Text × ℕ)) → has_key r xs ≡ true → sum (add_unit r xs) ≡ suc (sum xs)
unfolding add_unit
add_unit-sum r [] h = cc
add_unit-sum r ((a, n) ∷ xs) h = ground (arith, add_unit-sum r xs)

pub add_unit-has_key :
    (r k : Text) (xs : List (Text × ℕ)) → has_key k (add_unit r xs) ≡ has_key k xs
unfolding add_unit
add_unit-has_key r k [] = refl
add_unit-has_key r k ((a, n) ∷ xs) = ground (arith, add_unit-has_key r k xs)

add_unit-keys :
    (r : Text) (ranked xs : List (Text × ℕ))
    → All (λ p. has_key p.0 xs ≡ true) ranked
    → All (λ p. has_key p.0 (add_unit r xs) ≡ true) ranked
add_unit-keys r [] xs h = tt
add_unit-keys r ((k, m) ∷ ranked) xs h =
    (add_unit-has_key r k xs ∙ h.0, add_unit-keys r ranked xs h.1)

keys-cons :
    (r : Text) (n : ℕ) (ranked xs : List (Text × ℕ))
    → All (λ p. has_key p.0 xs ≡ true) ranked
    → All (λ p. has_key p.0 ((r, n) ∷ xs) ≡ true) ranked
keys-cons r n [] xs h = tt
keys-cons r n ((k, m) ∷ ranked) xs h = (ground (arith, h), keys-cons r n ranked xs h.1)

distribute-sum :
    (n : ℕ) (ranked xs : List (Text × ℕ))
    → n ≤ length ranked
    → All (λ p. has_key p.0 xs ≡ true) ranked
    → sum (distribute n ranked xs) ≡ sum xs + n
unfolding distribute
distribute-sum zero ranked xs h k = omega arith
distribute-sum (suc n) [] xs h k = omega arith
distribute-sum (suc n) ((r, m) ∷ ranked) xs h k =
    let rest =
      distribute-sum n ranked (add_unit r xs) (omega arith) (add_unit-keys r ranked xs k.1) in
    omega (arith, rest, add_unit-sum r xs k.0)

-- Every recipient of a remainder has an allocation.
remainders-keys :
    (total weight : ℕ) (ws : List (Text × ℕ))
    → All (λ p. has_key p.0 (floors total weight ws) ≡ true) (remainders total weight ws)
remainders-keys total weight [] = tt
remainders-keys total weight ((r, w) ∷ ws) = (
  rw (text_eq_refl r) refl,
  keys-cons r (total * w / weight) (remainders total weight ws) (floors total weight ws)
      (remainders-keys total weight ws),
)

-- The units that are left go to as many recipients, so the allocations add up to the budget.
pub allocate-sum : (total : ℕ) (ws : List (Text × ℕ)) → 0 < sum ws → sum (allocate total ws) ≡ total
unfolding allocate
allocate-sum total ws h =
    let ordered = sorted by_recipient ws in
    let allocations = floors total (sum ws) ordered in
    let rest = remainders total (sum ws) ordered in
    let (a, b) = floors-bounds total (sum ws) ordered h (sorted-sum by_recipient ws) in
    let enough : total - sum allocations ≤ length (sorted by_remainder rest) =
      omega (arith, b, sorted-length by_remainder rest, remainders-length total (sum ws) ordered) in
    let keys =
      sorted-All (λ p. has_key p.0 allocations ≡ true) by_remainder rest
        (remainders-keys total (sum ws) ordered) in
    omega (
      arith,
      a,
      distribute-sum (total - sum allocations) (sorted by_remainder rest) allocations enough keys,
    )

fraction-positive : (d : Decimal) → coefficient 0 d.digits ≢ 0 → 0 < fraction d
fraction-positive d h =
    mul-pos (pos_of_ne-zero h)
      (one-le-pow (349 + pos_part d.exponent - neg_part d.exponent) 10 (omega arith))

positive_decimal-positive :
    (s : ShareInput) (d : Decimal) → positive_decimal s ≡ ok d → 0 < fraction d
unfolding positive_decimal
positive_decimal-positive boolean d h = cc
positive_decimal-positive invalid d h = cc
positive_decimal-positive special d h = cc
positive_decimal-positive (decimal e) d h = fraction-positive d (ground (arith, h))

pub weights-positive :
    (r : Text) (s : ShareInput) (shares : List (Text × ShareInput)) (ws : List (Text × ℕ))
    → weights ((r, s) ∷ shares) ≡ ok ws
    → 0 < sum ws
unfolding weights
weights-positive r s shares ws h = elim (Result-cases (positive_decimal s)) [
  | inr (e, p) ↦ ground (arith, h, p)
  | inl (d, p) ↦ ground (arith, h, p, positive_decimal-positive s d p)
]

-- With a positive total and shares that are all accepted, at least one of them, the allocation returns,
-- and its amounts add up to the total. The check at the end of the code never fails.
pub allocate_proportionally-sum :
    (n : ℕ) (r : Text) (s : ShareInput) (shares : List (Text × ShareInput)) (ws : List (Text × ℕ))
    → weights ((r, s) ∷ shares) ≡ ok ws
    → (allocate_proportionally (int (pos (suc n))) ((r, s) ∷ shares) ≡ ok (allocate (suc n) ws))
      × (sum (allocate (suc n) ws) ≡ suc n)
unfolding allocate_proportionally
allocate_proportionally-sum n r s shares ws h =
    let e = allocate-sum (suc n) ws (weights-positive r s shares ws h) in (ground (arith, h, e), e)
