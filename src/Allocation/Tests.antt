-- ===== src/Allocation/Tests.antt =====
-- Ten units among three recipients.
use cometa_backend.Base.{ℕ, ◌+◌, ◌*◌, ◌/◌, ◌^◌, ◌≤◌, ◌≡◌, refl, false, List, [], ◌∷◌}
use cometa_backend.Base.Exec.{ok}
use cometa_backend.Base.Int.{pos, negsuc}
use cometa_backend.Base.Text.{Text, text, text_eq, text_lt}
use cometa_backend.Base.Value.{int}
use cometa_backend.Allocation.{
  ShareInput, decimal, positive_decimal, coefficient, is_blank, weights, sum, insert, sorted,
  add_unit, distribute, allocate, allocate_proportionally,
}
use cometa_backend.Allocation.Budget.{allocate_proportionally-sum}
use cometa_backend.Allocation.Near.{amount, allocate-near}

-- 1, 1.5 and 0.5
abbrev share : List ℕ → ℕ → ShareInput
share digits places =
    decimal (record { negative = false; digits = digits; exponent = negsuc places })

abbrev weighted : List (Text × ℕ)
weighted = (text "c", 10 ^ 349) ∷ (text "a", 15 * 10 ^ 348) ∷ (text "b", 5 * 10 ^ 348) ∷ []

shares_weighted :
    weights (
      (text "c", share (1 ∷ 0 ∷ []) 0)
      ∷ (text "a", share (1 ∷ 5 ∷ []) 0)
      ∷ (text "b", share (5 ∷ []) 0)
      ∷ [])
    ≡ ok weighted
unfolding weights is_blank positive_decimal coefficient
shares_weighted = refl

ten_units : allocate 10 weighted ≡ (text "a", 5) ∷ (text "b", 2) ∷ (text "c", 3) ∷ []
unfolding allocate sorted insert distribute add_unit text_eq text_lt
ten_units = refl

allocate_proportionally-sum_example :
    (allocate_proportionally (int (pos 10)) (
        (text "c", share (1 ∷ 0 ∷ []) 0)
        ∷ (text "a", share (1 ∷ 5 ∷ []) 0)
        ∷ (text "b", share (5 ∷ []) 0)
        ∷ [])
      ≡ ok (allocate 10 weighted))
    × (sum (allocate 10 weighted) ≡ 10)
allocate_proportionally-sum_example =
    allocate_proportionally-sum 9 (text "c") (share (1 ∷ 0 ∷ []) 0)
      ((text "a", share (1 ∷ 5 ∷ []) 0) ∷ (text "b", share (5 ∷ []) 0) ∷ []) weighted
      shares_weighted

allocate-near_example :
    (10 * amount (text "b") weighted / sum weighted ≤ amount (text "b") (allocate 10 weighted))
    × (amount (text "b") (allocate 10 weighted)
        ≤ 10 * amount (text "b") weighted / sum weighted + 1)
unfolding text_eq
allocate-near_example = allocate-near 10 (text "b") weighted (refl, (refl, (refl, tt))) refl
