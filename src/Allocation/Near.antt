-- ===== src/Allocation/Near.antt =====
-- flex/domain/allocation.py: each amount is the floor of the exact share, or one unit above.
use cometa_backend.Base.{
  ℕ, zero, suc, ◌+◌, ◌-◌, ◌*◌, ◌/◌, ◌≤◌, ◌≡◌, refl, sym, ap, ◌∙◌, inl, inr, Bool, true, false, ◌||◌,
  Bool-cases, List, [], ◌∷◌, if◌then◌else◌, arith,
}
use cometa_backend.Base.Text.{Text, text_eq, text_eq_iff}
use cometa_backend.Allocation.{
  insert, sorted, by_recipient, by_remainder, sum, floors, remainders, add_unit, distribute,
  allocate,
}
use cometa_backend.Allocation.Budget.{has_key}

-- The amount of a recipient.
abbrev pub amount : Text → List (Text × ℕ) → ℕ
amount k [] = 0
amount k ((a, n) ∷ xs) = if text_eq a k then n else amount k xs

abbrev pub IsDistinct : List (Text × ℕ) → Type 0
IsDistinct [] = Unit
IsDistinct ((a, _) ∷ xs) = (has_key a xs ≡ false) × IsDistinct xs

text_eq_sym : (a b : Text) → text_eq a b ≡ false → text_eq b a ≡ false
text_eq_sym a b h = ground (arith, h, text_eq_iff a b, text_eq_iff b a)

module _ (before : Text × ℕ → Text × ℕ → Bool) where
  insert-has_key :
      (k a : Text) (n : ℕ) (xs : List (Text × ℕ))
      → has_key k (insert before (a, n) xs) ≡ (text_eq a k || has_key k xs)
  unfolding insert
  insert-has_key k a n [] = ground arith
  insert-has_key k a n ((b, m) ∷ xs) = ground (arith, insert-has_key k a n xs)

  insert-IsDistinct :
      (a : Text) (n : ℕ) (xs : List (Text × ℕ))
      → has_key a xs ≡ false
      → IsDistinct xs
      → IsDistinct (insert before (a, n) xs)
  unfolding insert
  insert-IsDistinct a n [] h d = (refl, tt)
  insert-IsDistinct a n ((b, m) ∷ xs) h d = elim (Bool-cases (before (b, m) (a, n))) [
    | inl e ↦ rw e (
      ground (arith, h, d.0, insert-has_key b a n xs, text_eq_sym b a),
      insert-IsDistinct a n xs (ground (arith, h)) d.1,
    )
    | inr e ↦ rw e (h, d)
  ]

  insert-amount :
      (k a : Text) (n : ℕ) (xs : List (Text × ℕ))
      → has_key a xs ≡ false
      → amount k (insert before (a, n) xs) ≡ (if text_eq a k then n else amount k xs)
  unfolding insert
  insert-amount k a n [] h = refl
  insert-amount k a n ((b, m) ∷ xs) h =
      ground (arith, insert-amount k a n xs, text_eq_iff a k, text_eq_iff b k, text_eq_iff b a)

  sorted-has_key : (k : Text) (xs : List (Text × ℕ)) → has_key k (sorted before xs) ≡ has_key k xs
  unfolding sorted
  sorted-has_key k [] = refl
  sorted-has_key k ((a, n) ∷ xs) =
      ground (arith, insert-has_key k a n (sorted before xs), sorted-has_key k xs)

  sorted-IsDistinct : (xs : List (Text × ℕ)) → IsDistinct xs → IsDistinct (sorted before xs)
  unfolding sorted
  sorted-IsDistinct [] d = tt
  sorted-IsDistinct ((a, n) ∷ xs) d =
      insert-IsDistinct a n (sorted before xs) (sorted-has_key a xs ∙ d.0)
        (sorted-IsDistinct xs d.1)

  sorted-amount :
      (k : Text) (xs : List (Text × ℕ)) → IsDistinct xs → amount k (sorted before xs) ≡ amount k xs
  unfolding sorted
  sorted-amount k [] d = refl
  sorted-amount k ((a, n) ∷ xs) d = ground (
    arith,
    insert-amount k a n (sorted before xs) (sorted-has_key a xs ∙ d.0),
    sorted-amount k xs d.1,
  )

floors-amount :
    (total weight : ℕ) (k : Text) (ws : List (Text × ℕ))
    → has_key k ws ≡ true
    → amount k (floors total weight ws) ≡ total * amount k ws / weight
floors-amount total weight k [] h = cc
floors-amount total weight k ((r, w) ∷ ws) h = elim (Bool-cases (text_eq r k)) [
  | inl e ↦ rw e refl
  | inr e ↦ rw e (floors-amount total weight k ws (ground (arith, h, e)))
]

remainders-has_key :
    (total weight : ℕ) (k : Text) (ws : List (Text × ℕ))
    → has_key k (remainders total weight ws) ≡ has_key k ws
remainders-has_key total weight k [] = refl
remainders-has_key total weight k ((r, w) ∷ ws) =
    ground (arith, remainders-has_key total weight k ws)

remainders-IsDistinct :
    (total weight : ℕ) (ws : List (Text × ℕ))
    → IsDistinct ws
    → IsDistinct (remainders total weight ws)
remainders-IsDistinct total weight [] d = tt
remainders-IsDistinct total weight ((r, w) ∷ ws) d =
    (remainders-has_key total weight r ws ∙ d.0, remainders-IsDistinct total weight ws d.1)

add_unit-amount :
    (r k : Text) (xs : List (Text × ℕ))
    → (amount k xs ≤ amount k (add_unit r xs)) × (amount k (add_unit r xs) ≤ amount k xs + 1)
unfolding add_unit
add_unit-amount r k [] = ground arith
add_unit-amount r k ((a, n) ∷ xs) = ground (arith, add_unit-amount r k xs)

add_unit-other :
    (r k : Text) (xs : List (Text × ℕ))
    → text_eq r k ≡ false
    → amount k (add_unit r xs) ≡ amount k xs
unfolding add_unit
add_unit-other r k [] h = refl
add_unit-other r k ((a, n) ∷ xs) h =
    ground (arith, h, add_unit-other r k xs, text_eq_iff a r, text_eq_iff a k, text_eq_iff r k)

distribute-other :
    (n : ℕ) (k : Text) (ranked xs : List (Text × ℕ))
    → has_key k ranked ≡ false
    → amount k (distribute n ranked xs) ≡ amount k xs
unfolding distribute
distribute-other zero k ranked xs h = refl
distribute-other (suc n) k [] xs h = refl
distribute-other (suc n) k ((r, m) ∷ ranked) xs h = elim (Bool-cases (text_eq r k)) [
  | inl e ↦ ground (arith, h, e)
  | inr e ↦
      distribute-other n k ranked (add_unit r xs) (ground (arith, h, e)) ∙ add_unit-other r k xs e
]

distribute-near :
    (n : ℕ) (k : Text) (ranked xs : List (Text × ℕ))
    → IsDistinct ranked
    → (amount k xs ≤ amount k (distribute n ranked xs))
      × (amount k (distribute n ranked xs) ≤ amount k xs + 1)
unfolding distribute
distribute-near zero k ranked xs d = (omega arith, omega arith)
distribute-near (suc n) k [] xs d = (omega arith, omega arith)
distribute-near (suc n) k ((r, m) ∷ ranked) xs d = elim (Bool-cases (text_eq r k)) [
  | inl e ↦
      let same = (text_eq_iff r k).0 e in
      let none_left =
        distribute-other n k ranked (add_unit r xs) (ap (λ x. has_key x ranked) (sym same) ∙ d.0) in
      let (a, b) = add_unit-amount r k xs in
      (omega (arith, a, none_left), omega (arith, b, none_left))
  | inr e ↦
      let (a, b) = distribute-near n k ranked (add_unit r xs) d.1 in
      let o = add_unit-other r k xs e in (omega (arith, a, o), omega (arith, b, o))
]

-- With distinct recipients, a recipient of weight w gets the floor of total * w / weight, where weight
-- is the sum of all, or one unit more.
pub allocate-near :
    (total : ℕ) (k : Text) (ws : List (Text × ℕ))
    → IsDistinct ws
    → has_key k ws ≡ true
    → (total * amount k ws / sum ws ≤ amount k (allocate total ws))
      × (amount k (allocate total ws) ≤ total * amount k ws / sum ws + 1)
unfolding allocate
allocate-near total k ws d h =
    let ordered = sorted by_recipient ws in
    let allocations = floors total (sum ws) ordered in
    let rest = remainders total (sum ws) ordered in
    let ranked =
      sorted-IsDistinct by_remainder rest
        (remainders-IsDistinct total (sum ws) ordered (sorted-IsDistinct by_recipient ws d)) in
    let (a, b) =
      distribute-near (total - sum allocations) k (sorted by_remainder rest) allocations ranked in
    let e =
      floors-amount total (sum ws) k ordered (sorted-has_key by_recipient k ws ∙ h)
      ∙ ap (λ x. total * x / sum ws) (sorted-amount by_recipient k ws d) in
    (omega (arith, a, e), omega (arith, b, e))
