-- ===== src/Breaker/Invariant.antt =====
-- The states that a circuit breaker can reach, whatever the schedule of its tasks.
use cometa_backend.Base.{
  inl, inr, ℕ, ◌<◌, ◌≤◌, ◌≡◌, Bool, true, false, none, some, List, [], ◌∷◌, Option, arith,
}
use cometa_backend.Base.Exec.{ok, Result-cases}
use cometa_backend.Base.Int.{ℤ}
use cometa_backend.Base.Text.{Text}
use cometa_backend.Breaker.{
  CircuitState, closed, open_state, half_open, CircuitBreaker, create, step, run, Event, execute,
  settle, before_call, record_success, record_failure, record_cancellation, Outcome, returned,
  cancelled, interrupted, raised, before, success, cancellation, failure,
}

abbrev pub HasFailed : Option ℕ → Type 0
HasFailed none = ⊥
HasFailed (some _) = Unit

abbrev pub StateFits : CircuitState → CircuitBreaker → Type 0
StateFits closed b = (b.failure_count < b.failure_threshold) × (b.probe_in_flight ≡ false)
StateFits open_state b = HasFailed b.last_failure_time × (b.probe_in_flight ≡ false)
StateFits half_open b = HasFailed b.last_failure_time × (b.probe_in_flight ≡ true)

-- The threshold is positive; a closed breaker is below it; an open or half-open one knows its last
-- failure; and a probe is in flight exactly in the half-open state.
pub record IsValid (b : CircuitBreaker) : Type 0 where
  pub positive : 1 ≤ b.failure_threshold
  pub fits : StateFits b.state b

pub create-IsValid :
    (name : Text) (threshold timeout : ℤ) {b : CircuitBreaker}
    → create name threshold timeout ≡ ok b
    → IsValid b
unfolding create
create-IsValid name threshold timeout h = ground arith

pub step-IsValid : (e : Event) (b : CircuitBreaker) → IsValid b → IsValid (step e b)
unfolding step
step-IsValid (before now) b v = ground arith
step-IsValid success b v = ground arith
step-IsValid cancellation b v = ground arith
step-IsValid (failure now) b v = ground arith

-- Whatever methods any number of tasks call, in any order and at any clock readings, a valid
-- breaker stays valid: closed below its threshold, open or half-open only after a failure, and
-- with a probe in flight exactly while half-open.
pub run-IsValid : (es : List Event) (b : CircuitBreaker) → IsValid b → IsValid (run es b)
unfolding run
run-IsValid [] b v = v
run-IsValid (e ∷ es) b v = run-IsValid es (step e b) (step-IsValid e b v)

settle-IsValid :
    {X A : Type 0} (test : Option (X → Bool)) (outcome : Outcome X A) (later : ℕ)
    (b : CircuitBreaker)
    → IsValid b
    → IsValid (settle test outcome later b)
unfolding settle record_success record_failure record_cancellation
settle-IsValid test (returned a) later b v = ground arith
settle-IsValid test cancelled later b v = ground arith
settle-IsValid test interrupted later b v = v
settle-IsValid test (raised exc) later b v = ground arith

-- A protected call keeps the invariant, whatever valid state the other tasks leave meanwhile.
pub execute-IsValid :
    {X A : Type 0} (test : Option (X → Bool)) (now : ℕ) (during : CircuitBreaker → CircuitBreaker)
    (outcome : Outcome X A) (later : ℕ) (b : CircuitBreaker)
    → ((c : CircuitBreaker) → IsValid c → IsValid (during c))
    → IsValid b
    → IsValid (execute test now during outcome later b).1
unfolding execute
execute-IsValid test now during outcome later b keeps v =
    elim (Result-cases (before_call now b).0) [
      | inl (a, e) ↦ rw (e, execute) (settle-IsValid test outcome later _ (keeps _ admitted))
      | inr (x, e) ↦ rw (e, execute) admitted
    ]
  where
    admitted : IsValid (before_call now b).1
    admitted = unfold step in step-IsValid (before now) b v
