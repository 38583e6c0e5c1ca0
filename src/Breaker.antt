-- ===== src/Breaker.antt =====
-- core/circuit_breaker.py: one breaker, the outcome of a protected call, and the registry.
--
-- Times are whole ticks: `max(0.0, a - b)` of the source is the truncated subtraction. Each method
-- runs under the breaker's lock, so a schedule of any number of tasks is a list of method calls.
pub mod Invariant
pub mod Recovery
pub mod Registry
mod Tests
use cometa_backend.Base.{
  ℕ, suc, ◌+◌, ◌-◌, ◌≡◌, Bool, true, false, ◌||◌, Option, none, some, List, [], ◌∷◌, ltb, leb,
  if◌then◌else◌,
}
use cometa_backend.Base.Exec.{Result, ok, err, Exec, ◌>>=◌}
use cometa_backend.Base.Int.{ℤ, pos, pos_part, ltb_ℤ}
use cometa_backend.Base.Text.{Text, text_eq}

pub data CircuitState : Type 0 where
  closed open_state half_open : CircuitState

abbrev pub is_open : CircuitState → Bool
is_open open_state = true
is_open _ = false

abbrev pub is_half_open : CircuitState → Bool
is_half_open half_open = true
is_half_open _ = false

pub record CircuitBreaker : Type 0 where
  pub name : Text
  pub failure_threshold : ℕ
  pub recovery_timeout : ℕ
  pub state : CircuitState
  pub failure_count : ℕ
  pub last_failure_time : Option ℕ
  pub probe_in_flight : Bool

pub data ConfigError : Type 0 where
  empty_name small_threshold negative_timeout : ConfigError

abbrev is_empty : Text → Bool
is_empty [] = true
is_empty (_ ∷ _) = false

-- `CircuitBreaker(name=..., failure_threshold=..., recovery_timeout=...)`
pub create : Text → ℤ → ℤ → Result ConfigError CircuitBreaker
create name threshold timeout =
    if is_empty name
    then err empty_name
    else if ltb_ℤ threshold (pos 1)
    then err small_threshold
    else if ltb_ℤ timeout (pos 0)
    then err negative_timeout
    else ok (record {
      name = name;
      failure_threshold = pos_part threshold;
      recovery_timeout = pos_part timeout;
      state = closed;
      failure_count = 0;
      last_failure_time = none;
      probe_in_flight = false;
    })

-- `CircuitOpenError`, with its `retry_after`
pub data CircuitOpenError : Type 0 where
  circuit_open : ℕ → CircuitOpenError

pub retry_after : CircuitBreaker → ℕ → ℕ
retry_after b now = elim b.last_failure_time [
  | none ↦ b.recovery_timeout
  | some failed ↦ b.recovery_timeout - (now - failed)
]

-- the second `if` of `_before_call`
claim_probe : Exec CircuitBreaker CircuitOpenError (Unit {0})
claim_probe b =
    if is_half_open b.state
    then (if b.probe_in_flight
        then (err (circuit_open 0), b)
        else (ok tt, record b { probe_in_flight = true }))
    else (ok tt, b)

pub before_call : ℕ → Exec CircuitBreaker CircuitOpenError (Unit {0})
unfolding claim_probe retry_after
before_call now b =
    if is_open b.state
    then (if ltb 0 (retry_after b now)
        then (err (circuit_open (retry_after b now)), b)
        else claim_probe (record b { state = half_open }))
    else claim_probe b

pub record_success : CircuitBreaker → CircuitBreaker
record_success b = record b {
  failure_count = 0;
  state = if is_half_open b.state then closed else b.state;
  probe_in_flight = false;
}

pub record_failure : ℕ → CircuitBreaker → CircuitBreaker
record_failure now b = record b {
  failure_count = b.failure_count + 1;
  last_failure_time = some now;
  state =
      if is_half_open b.state || leb b.failure_threshold (b.failure_count + 1)
      then open_state
      else b.state;
  probe_in_flight = false;
}

pub record_cancellation : CircuitBreaker → CircuitBreaker
record_cancellation b = record b {
  state = if is_half_open b.state then open_state else b.state;
  probe_in_flight = false;
}

-- How the protected coroutine ends: `interrupted` is an exception that is no `Exception` and no
-- cancellation, such as `KeyboardInterrupt`, which no handler of `execute` catches.
pub data Outcome (X A : Type 0) : Type 0 where
  returned : A → Outcome X A
  cancelled interrupted : Outcome X A
  raised : X → Outcome X A

-- What a caller of `execute` sees: a fast failure, or what the coroutine did.
pub data CallResult (X A : Type 0) : Type 0 where
  rejected : CircuitOpenError → CallResult X A
  called : Outcome X A → CallResult X A

-- `record_failure is None or record_failure(exc)`
abbrev counts : {X : Type 0} → Option (X → Bool) → X → Bool
counts none exc = true
counts (some test) exc = test exc

settle : {X A : Type 0} → Option (X → Bool) → Outcome X A → ℕ → CircuitBreaker → CircuitBreaker
settle test (returned a) later b = record_success b
settle test cancelled later b = record_cancellation b
settle test interrupted later b = b
settle test (raised exc) later b =
    if counts test exc then record_failure later b else record_success b

-- `execute`: `during` is what other tasks do to the breaker while the coroutine runs, and `later`
-- the clock when it ends.
pub execute :
    {X A : Type 0}
    → Option (X → Bool)
    → ℕ
    → (CircuitBreaker → CircuitBreaker)
    → Outcome X A
    → ℕ
    → CircuitBreaker
    → CallResult X A × CircuitBreaker
unfolding settle
execute test now during outcome later b =
    let (admitted, b') = before_call now b in
    elim admitted [
      | err e ↦ (rejected e, b')
      | ok _ ↦ (called outcome, settle test outcome later (during b'))
    ]

-- One method call of one task.
pub data Event : Type 0 where
  before : ℕ → Event
  success cancellation : Event
  failure : ℕ → Event

pub step : Event → CircuitBreaker → CircuitBreaker
unfolding before_call record_success record_failure record_cancellation
step (before now) b = (before_call now b).1
step success b = record_success b
step cancellation b = record_cancellation b
step (failure now) b = record_failure now b

-- A schedule of method calls of any number of tasks.
pub run : List Event → CircuitBreaker → CircuitBreaker
unfolding step
run [] b = b
run (e ∷ es) b = run es (step e b)

abbrev pub Registry : Type 0
Registry = List CircuitBreaker

find : Text → Registry → Option CircuitBreaker
find name [] = none
find name (b ∷ bs) = if text_eq name b.name then some b else find name bs

-- `get_circuit_breaker`: the dictionary holds each breaker under its name.
pub get_circuit_breaker : Text → ℤ → ℤ → Exec Registry ConfigError CircuitBreaker
unfolding find create
get_circuit_breaker name threshold timeout registry = elim (find name registry) [
  | some b ↦ (ok b, registry)
  | none ↦ elim (create name threshold timeout) [
    | err e ↦ (err e, registry)
    | ok b ↦ (ok b, b ∷ registry)
  ]
]
