-- ===== src/Backoff/Attempts.antt =====
-- core/util.py, with_exponential_backoff: how many attempts it makes, and what it sleeps between them.
use cometa_backend.Base.{
  ℕ, zero, suc, ◌+◌, ◌*◌, ◌≤◌, ◌≡◌, refl, ◌⊎◌, inl, inr, Bool, true, false, Bool-cases, List, [],
  ◌∷◌, arith,
}
use cometa_backend.Base.Exec.{Result}
use cometa_backend.Base.Int.{pos}
use cometa_backend.Backoff.{
  Attempt, returns, raises, BackoffError, caught, outcome, attempts, no_classes,
  with_exponential_backoff,
}

-- The sleeps of `k` retries: the delay grows by the factor each time, and the jitter scales it.
abbrev pub waits : ℕ → (ℕ → ℕ) → ℕ → ℕ → ℕ → List ℕ
waits factor jitter retry delay zero = []
waits factor jitter retry delay (suc k) =
    delay * jitter retry ∷ waits factor jitter (suc retry) (delay * factor) k

module _ {R E : Type 0} where
  abbrev pub is_retried : List (E → Bool) → Attempt R E → Bool
  is_retried retry_on (returns r) = false
  is_retried retry_on (raises e) = caught retry_on e

  -- `k` attempts, from `retry` on, that raise what is caught.
  abbrev pub AllRetried : (ℕ → Attempt R E) → List (E → Bool) → ℕ → ℕ → Type 0
  AllRetried func retry_on retry zero = Unit
  AllRetried func retry_on retry (suc k) =
      (is_retried retry_on (func retry) ≡ true) × AllRetried func retry_on (suc retry) k

  -- A run that retries `k` times: the attempts before are caught, the last ends it.
  abbrev pub IsRun :
      (ℕ → Attempt R E)
      → List (E → Bool)
      → ℕ
      → (ℕ → ℕ)
      → ℕ
      → ℕ
      → ℕ
      → Result (BackoffError E) R × List ℕ
      → Type 0
  IsRun func retry_on factor jitter left retry delay run =
      (k n : ℕ) × (n ≡ retry + k)
      × (k ≤ left)
      × AllRetried func retry_on retry k
      × ((k ≡ left) ⊎ (is_retried retry_on (func n) ≡ false))
      × (run ≡ (outcome (func n), waits factor jitter retry delay k))

  pub attempts-IsRun :
      (func : ℕ → Attempt R E) (retry_on : List (E → Bool)) (factor : ℕ) (jitter : ℕ → ℕ)
      (left retry delay : ℕ)
      → IsRun func retry_on factor jitter left retry delay
          (attempts func retry_on factor jitter left retry delay)
  unfolding attempts
  attempts-IsRun func retry_on factor jitter zero retry delay =
      (0, retry, omega arith, omega arith, tt, inl refl, refl)
  attempts-IsRun func retry_on factor jitter (suc left) retry delay =
      let (k, n, q, l, a, f, r) =
        attempts-IsRun func retry_on factor jitter left (suc retry) (delay * factor) in
      elim (Bool-cases (is_retried retry_on (func retry))) [
        | inr e ↦ (0, retry, omega arith, omega arith, tt, inr e, ground (arith, e))
        | inl e ↦
            (suc k, n, omega arith, omega arith, (e, a), ground (arith, f), ground (arith, e, r))
      ]

  -- With admissible settings, a run makes one attempt more than it retries, at most one more than
  -- max_retries: the attempts before the last raise what is caught, and the last returns, raises what
  -- is not caught, or is the last one allowed. The run's outcome is that of its last attempt, and its
  -- sleeps are the jittered delays, each the factor times the one before.
  pub with_exponential_backoff-IsRun :
      (func : ℕ → Attempt R E) (retry_on : List (E → Bool)) (max delay factor : ℕ) (jitter : ℕ → ℕ)
      → no_classes retry_on ≡ false
      → IsRun func retry_on
          (suc factor)
          jitter
          max
          0
          delay
          (with_exponential_backoff func retry_on (pos max) (pos delay) (pos (suc factor)) jitter)
  unfolding with_exponential_backoff
  with_exponential_backoff-IsRun func retry_on max delay factor jitter h =
      rw h (attempts-IsRun func retry_on (suc factor) jitter max 0 delay)
