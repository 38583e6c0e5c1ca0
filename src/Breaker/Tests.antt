-- ===== src/Breaker/Tests.antt =====
-- Runs of the circuit breaker at concrete inputs.
use cometa_backend.Base.{
  ℕ, ◌+◌, ◌-◌, ◌≤◌, ◌≡◌, refl, Bool, true, false, none, some, [], ◌∷◌, arith, ltb, leb, length,
  if◌then◌else◌,
}
use cometa_backend.Base.Exec.{ok, err}
use cometa_backend.Base.Int.{pos}
use cometa_backend.Base.Text.{text, text_eq}
use cometa_backend.Breaker.{
  CircuitBreaker, closed, open_state, half_open, circuit_open, Outcome, raised, before, failure,
  success, cancellation, create, before_call, run, get_circuit_breaker, Registry,
}
use cometa_backend.Breaker.Invariant.{IsValid, run-IsValid}
use cometa_backend.Breaker.Recovery.{
  before_call-open, fail_all, fail_all-threshold, admissions, admissions-le-one,
  stale_cancellation_admits, running, probe_schedule,
}

abbrev fresh : CircuitBreaker
fresh = record {
  name = text "algod";
  failure_threshold = 3;
  recovery_timeout = 60;
  state = closed;
  failure_count = 0;
  last_failure_time = none;
  probe_in_flight = false;
}

abbrev tripped : CircuitBreaker
tripped = record fresh { state = open_state; failure_count = 3; last_failure_time = some 100 }

create-fresh : create (text "algod") (pos 3) (pos 60) ≡ ok fresh
unfolding create
create-fresh = refl

three_failures_open : run (failure 80 ∷ failure 90 ∷ failure 100 ∷ []) fresh ≡ tripped
unfolding run
three_failures_open = refl

fresh-IsValid : IsValid fresh
fresh-IsValid = ground arith

tripped-IsValid : IsValid tripped
tripped-IsValid = ground arith

run-IsValid_example : IsValid (run (before 1 ∷ failure 2 ∷ cancellation ∷ success ∷ []) fresh)
run-IsValid_example =
    run-IsValid (before 1 ∷ failure 2 ∷ cancellation ∷ success ∷ []) fresh fresh-IsValid

abbrev timeout : Outcome Bool ℕ
timeout = raised true

abbrev quiet : CircuitBreaker → CircuitBreaker
quiet c = c

quiet-IsValid : (c : CircuitBreaker) → IsValid c → IsValid (quiet c)
quiet-IsValid c v = v

before_call-open_example : before_call 120 tripped ≡ (
    if ltb 120 (100 + tripped.recovery_timeout)
    then (err (circuit_open (100 + tripped.recovery_timeout - 120)), tripped)
    else (ok tt, record tripped { state = half_open; probe_in_flight = true }))
before_call-open_example = before_call-open tripped 100 120 refl refl refl (omega arith)

fail_all-threshold_example : (fail_all (80 ∷ 90 ∷ []) fresh).state ≡ (
    if leb fresh.failure_threshold (fresh.failure_count + length {A = ℕ} (80 ∷ 90 ∷ []))
    then open_state
    else closed)
fail_all-threshold_example = fail_all-threshold (80 ∷ 90 ∷ []) fresh fresh-IsValid refl

admissions-le-one_example : admissions (110 ∷ 170 ∷ 171 ∷ []) tripped ≤ 1
admissions-le-one_example = admissions-le-one (110 ∷ 170 ∷ 171 ∷ []) tripped tripped-IsValid refl

abbrev all_count : Bool → Bool
all_count x = x

abbrev weak : CircuitBreaker
weak = record fresh { failure_count = 2 }

weak-IsValid : IsValid weak
weak-IsValid = ground arith

stale_cancellation_admits_example :
    (running (probe_schedule 70 80 100 160 170 []) weak [] ≡ 2 ∷ 0 ∷ [])
    × (running (probe_schedule 70 80 100 160 170 ((2, cancellation) ∷ [])) weak [] ≡ 3 ∷ 0 ∷ [])
    × (running (probe_schedule 70 80 100 160 170 ((0, cancellation) ∷ [])) weak [] ≡ 3 ∷ 2 ∷ [])
stale_cancellation_admits_example =
    stale_cancellation_admits weak 70 80 100 160 170 weak-IsValid refl (omega arith) (omega arith)
      (omega arith)

abbrev one : Registry
one = tripped ∷ []

finds_tripped : get_circuit_breaker (text "algod") (pos 5) (pos 1) one ≡ (ok tripped, one)
unfolding get_circuit_breaker text_eq
finds_tripped = refl
