-- ===== src/Breaker/Recovery.antt =====
-- How a circuit breaker opens, how long it fails fast, and how it lets one probe through.
use cometa_backend.Base.{
  ℕ, ◌+◌, ◌-◌, ◌≤◌, ◌≡◌, refl, Bool, true, false, some, List, [], ◌∷◌, arith, ltb, leb, length,
  ◌==◌, if◌then◌else◌,
}
use cometa_backend.Base.Exec.{ok, err}
use cometa_backend.Breaker.{
  closed, open_state, half_open, CircuitBreaker, before_call, record_failure, record_cancellation,
  circuit_open, Outcome, returned, cancelled, interrupted, raised, failure, before, cancellation,
  Event, step,
}
use cometa_backend.Breaker.Invariant.{IsValid, step-IsValid}

-- The failures of a run of calls with no success between them, at the given times.
abbrev pub fail_all : List ℕ → CircuitBreaker → CircuitBreaker
fail_all [] b = b
fail_all (t ∷ ts) b = fail_all ts (record_failure t b)

-- An open breaker, last failed at `t`, refuses every call before `t + recovery_timeout` with the
-- time that is left, and stays as it is; from then on it admits the call as the probe.
pub before_call-open :
    (b : CircuitBreaker) (t now : ℕ)
    → b.state ≡ open_state
    → b.probe_in_flight ≡ false
    → b.last_failure_time ≡ some t
    → t ≤ now
    → before_call now b ≡ (
        if ltb now (t + b.recovery_timeout)
        then (err (circuit_open (t + b.recovery_timeout - now)), b)
        else (ok tt, record b { state = half_open; probe_in_flight = true }))
unfolding before_call
before_call-open b t now s p f h = ground arith

fail_all-open :
    (ts : List ℕ) (b : CircuitBreaker) → b.state ≡ open_state → (fail_all ts b).state ≡ open_state
unfolding record_failure
fail_all-open [] b s = s
fail_all-open (t ∷ ts) b s = fail_all-open ts (record_failure t b) (ground arith)

-- From a valid closed breaker, a run of failures with no success between them opens the circuit
-- exactly when the failures in a row, those counted before included, reach the threshold.
pub fail_all-threshold :
    (ts : List ℕ) (b : CircuitBreaker)
    → IsValid b
    → b.state ≡ closed
    → (fail_all ts b).state
      ≡ (if leb b.failure_threshold (b.failure_count + length ts) then open_state else closed)
unfolding record_failure
fail_all-threshold [] b v s = ground arith
fail_all-threshold (t ∷ ts) b v s = ground (
  arith,
  step-IsValid (failure t) b v,
  fail_all-open ts (record_failure t b),
  fail_all-threshold ts (record_failure t b),
)

-- The number of a run of calls that are let through, at the clock readings given, with no call
-- ending meanwhile.
pub admissions : List ℕ → CircuitBreaker → ℕ
admissions [] b = 0
admissions (now ∷ ns) b =
    let (r, b') = before_call now b in
    elim r [ ok _ ↦ admissions ns b' + 1 | err _ ↦ admissions ns b' ]

admissions-half_open :
    (ns : List ℕ) (b : CircuitBreaker)
    → b.state ≡ half_open
    → b.probe_in_flight ≡ true
    → admissions ns b ≡ 0
unfolding admissions before_call
admissions-half_open [] b s p = refl
admissions-half_open (now ∷ ns) b s p = ground (arith, admissions-half_open ns b s p)

-- An open breaker lets at most one call through until some call ends, whenever the calls come.
pub admissions-le-one :
    (ns : List ℕ) (b : CircuitBreaker) → IsValid b → b.state ≡ open_state → admissions ns b ≤ 1
unfolding admissions before_call
admissions-le-one [] b v s = omega arith
admissions-le-one (now ∷ ns) b v s = ground (
  arith,
  admissions-le-one ns b v s,
  admissions-half_open ns (record b { state = half_open; probe_in_flight = true }),
)

-- How the probe's end decides: after the recovery time an open breaker runs the coroutine, and then
-- it is closed with no failure counted if the coroutine returned or its failure does not count,
-- open again from the clock at its end if the failure counts, open as before if it was cancelled, and
-- still in the middle of the probe if it was interrupted.
abbrev pub ProbeEnds :
    {X A : Type 0} → (X → Bool) → Outcome X A → ℕ → CircuitBreaker → CircuitBreaker → Type 0
ProbeEnds test (returned a) later b c =
    (c.state ≡ closed) × (c.failure_count ≡ 0) × (c.probe_in_flight ≡ false)
ProbeEnds test cancelled later b c =
    (c.state ≡ open_state)
    × (c.last_failure_time ≡ b.last_failure_time)
    × (c.failure_count ≡ b.failure_count)
    × (c.probe_in_flight ≡ false)
ProbeEnds test interrupted later b c =
    (c.state ≡ half_open)
    × (c.last_failure_time ≡ b.last_failure_time)
    × (c.failure_count ≡ b.failure_count)
    × (c.probe_in_flight ≡ true)
ProbeEnds test (raised x) later b c =
    (c.probe_in_flight ≡ false)
    × (if test x
        then (c.state ≡ open_state)
          × (c.last_failure_time ≡ some later)
          × (c.failure_count ≡ b.failure_count + 1)
        else (c.state ≡ closed)
          × (c.last_failure_time ≡ b.last_failure_time)
          × (c.failure_count ≡ 0))

-- Calls that begin at the given times.
abbrev pub knock : List ℕ → CircuitBreaker → CircuitBreaker
knock [] b = b
knock (now ∷ ns) b = knock ns (before_call now b).1

-- A method call, with the number of the protected call that makes it.
abbrev pub Numbered : Type 0
Numbered = ℕ × Event

without : ℕ → List ℕ → List ℕ
without n [] = []
without n (m ∷ ms) = if m == n then without n ms else m ∷ without n ms

-- The protected calls whose coroutines run after a schedule, the latest first: a call runs once it is
-- let through, until it ends.
pub running : List Numbered → CircuitBreaker → List ℕ → List ℕ
unfolding step without
running [] b calls = calls
running ((n, before now) ∷ es) b calls =
    running es (before_call now b).1
      (elim (before_call now b).0 [ ok _ ↦ n ∷ calls | err _ ↦ calls ])
running ((n, e) ∷ es) b calls = running es (step e b) (without n calls)

-- Calls 0 and 1 begin, 1 fails at `t`, and 2 begins once the circuit may be tried again. Then some
-- call may be cancelled before 3 begins.
abbrev pub probe_schedule : ℕ → ℕ → ℕ → ℕ → ℕ → List Numbered → List Numbered
probe_schedule t0 t1 t now later [] =
    (0, before t0) ∷ (1, before t1) ∷ (1, failure t) ∷ (2, before now) ∷ (3, before later) ∷ []
probe_schedule t0 t1 t now later (e ∷ es) =
    (0, before t0) ∷ (1, before t1) ∷ (1, failure t) ∷ (2, before now) ∷ e ∷ (3, before later) ∷ []

-- Calls 0 and 1 begin on a valid closed breaker, 1 fails at `t` and opens it, and after the recovery
-- time 2 begins as the probe. If nothing ends meanwhile, call 3 is refused beside the probe, and if the
-- probe itself is cancelled, 3 is the only probe; but if call 0 is cancelled, which began before the
-- circuit opened, then 3 runs beside the probe 2.
pub stale_cancellation_admits :
    (b : CircuitBreaker) (t0 t1 t now later : ℕ)
    → IsValid b
    → b.state ≡ closed
    → b.failure_threshold ≤ b.failure_count + 1
    → t + b.recovery_timeout ≤ now
    → now ≤ later
    → (running (probe_schedule t0 t1 t now later []) b [] ≡ 2 ∷ 0 ∷ [])
      × (running (probe_schedule t0 t1 t now later ((2, cancellation) ∷ [])) b [] ≡ 3 ∷ 0 ∷ [])
      × (running (probe_schedule t0 t1 t now later ((0, cancellation) ∷ [])) b [] ≡ 3 ∷ 2 ∷ [])
unfolding running before_call step record_failure record_cancellation
stale_cancellation_admits b t0 t1 t now later v s h k l = (ground arith, ground arith, ground arith)
