-- ===== src/Backoff/Tests.antt =====
-- A function that fails twice.
use cometa_backend.Base.{ℕ, ◌+◌, ◌≡◌, refl, true, [], ◌∷◌, ◌==◌, if◌then◌else◌}
use cometa_backend.Base.Exec.{ok}
use cometa_backend.Base.Int.{pos}
use cometa_backend.Backoff.{Attempt, returns, raises, attempts, with_exponential_backoff}
use cometa_backend.Backoff.Attempts.{IsRun, with_exponential_backoff-IsRun}

abbrev func : ℕ → Attempt ℕ ℕ
func n = if n == 2 then returns 7 else raises n

third_attempt :
    with_exponential_backoff func ((λ e. true) ∷ []) (pos 3) (pos 5) (pos 2) (λ n. 75 + n)
    ≡ (ok 7, 375 ∷ 760 ∷ [])
unfolding with_exponential_backoff attempts
third_attempt = refl

with_exponential_backoff-IsRun_example :
    IsRun func
      ((λ e. true) ∷ [])
      2
      (λ n. 75 + n)
      3
      0
      5
      (with_exponential_backoff func ((λ e. true) ∷ []) (pos 3) (pos 5) (pos 2) (λ n. 75 + n))
with_exponential_backoff-IsRun_example =
    with_exponential_backoff-IsRun func ((λ e. true) ∷ []) 3 5 1 (λ n. 75 + n) refl
