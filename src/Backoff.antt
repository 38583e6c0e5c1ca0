-- ===== src/Backoff.antt =====
-- core/util.py, with_exponential_backoff: the retries of an asynchronous function.
--
-- The function's attempts are arguments: what it does at its first, second, ... call. So are the
-- jitters, in hundredths. Delays are whole ticks, and a run lists its sleeps in hundredths of a tick.
pub mod Attempts
mod Tests
use cometa_backend.Base.{
  ℕ, zero, suc, ◌+◌, ◌*◌, ◌≡◌, Bool, true, false, ◌||◌, List, [], ◌∷◌, if◌then◌else◌,
}
use cometa_backend.Base.Exec.{Result, ok, err}
use cometa_backend.Base.Int.{ℤ, pos, negsuc}

pub data Attempt (R E : Type 0) : Type 0 where
  returns : R → Attempt R E
  raises : E → Attempt R E

pub data BackoffError (E : Type 0) : Type 0 where
  negative_max_retries negative_initial_delay small_backoff_factor empty_retry_on : BackoffError E
  raised : E → BackoffError E

-- An `except` clause catches an exception that is an instance of one of its classes.
abbrev pub caught : {E : Type 0} → List (E → Bool) → E → Bool
caught [] e = false
caught (c ∷ cs) e = c e || caught cs e

abbrev pub no_classes : {E : Type 0} → List (E → Bool) → Bool
no_classes [] = true
no_classes (_ ∷ _) = false

module _ {R E : Type 0} where
  abbrev pub outcome : Attempt R E → Result (BackoffError E) R
  outcome (returns r) = ok r
  outcome (raises e) = err (raised e)

  -- The loop from attempt `retry` on, `left` retries before the last, with the sleeps it makes.
  pub attempts :
      (ℕ → Attempt R E)
      → List (E → Bool)
      → ℕ
      → (ℕ → ℕ)
      → ℕ
      → ℕ
      → ℕ
      → Result (BackoffError E) R × List ℕ
  attempts func retry_on factor jitter zero retry delay = (outcome (func retry), [])
  attempts func retry_on factor jitter (suc left) retry delay =
      let (result, sleeps) =
        attempts func retry_on factor jitter left (suc retry) (delay * factor) in
      elim (func retry) [
        | returns r ↦ (ok r, [])
        | raises e ↦
            if caught retry_on e
            then (result, delay * jitter retry ∷ sleeps)
            else (err (raised e), [])
      ]

  pub with_exponential_backoff :
      (ℕ → Attempt R E) → List (E → Bool) → ℤ → ℤ → ℤ → (ℕ → ℕ) → Result (BackoffError E) R × List ℕ
  with_exponential_backoff func retry_on (negsuc m) initial_delay backoff_factor jitter =
      (err negative_max_retries, [])
  with_exponential_backoff func retry_on (pos max) (negsuc d) backoff_factor jitter =
      (err negative_initial_delay, [])
  with_exponential_backoff func retry_on (pos max) (pos d) (negsuc f) jitter =
      (err small_backoff_factor, [])
  with_exponential_backoff func retry_on (pos max) (pos d) (pos zero) jitter =
      (err small_backoff_factor, [])
  with_exponential_backoff func retry_on (pos max) (pos d) (pos (suc f)) jitter =
      if no_classes retry_on
      then (err empty_retry_on, [])
      else attempts func retry_on (suc f) jitter max 0 d
