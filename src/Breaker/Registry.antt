-- ===== src/Breaker/Registry.antt =====
-- The process-wide registry of circuit breakers.
use cometa_backend.Base.{◌≡◌, some, [], ◌∷◌, arith, inl, inr, All, Option-cases}
use cometa_backend.Base.Exec.{ok, Result-cases}
use cometa_backend.Base.Int.{ℤ}
use cometa_backend.Base.Text.{Text, text_eq_refl}
use cometa_backend.Breaker.{CircuitBreaker, Registry, create, find, get_circuit_breaker}
use cometa_backend.Breaker.Invariant.{IsValid, create-IsValid}

name-create :
    (name : Text) (threshold timeout : ℤ) {b : CircuitBreaker}
    → create name threshold timeout ≡ ok b
    → b.name ≡ name
unfolding create
name-create name threshold timeout h = ground arith

found-IsValid :
    (name : Text) (registry : Registry) (b : CircuitBreaker)
    → All IsValid registry
    → find name registry ≡ some b
    → IsValid b
unfolding find
found-IsValid name [] b v h = cc
found-IsValid name (c ∷ cs) b v h = ground (arith, found-IsValid name cs b v.1)

-- A lookup that gives a breaker gives a valid one and keeps the registry one of valid breakers, and
-- every later lookup of the name gives that breaker and changes nothing, whatever settings it passes.
pub get_circuit_breaker-again :
    (name : Text) (t1 r1 t2 r2 : ℤ) (registry registry' : Registry) (b : CircuitBreaker)
    → All IsValid registry
    → get_circuit_breaker name t1 r1 registry ≡ (ok b, registry')
    → (get_circuit_breaker name t2 r2 registry' ≡ (ok b, registry'))
      × IsValid b
      × All IsValid registry'
unfolding get_circuit_breaker
get_circuit_breaker-again name t1 r1 t2 r2 registry registry' b v h =
    elim (Option-cases (find name registry)) [
      | inr (c, e) ↦ ground (arith, found-IsValid name registry c v e)
      | inl missing ↦ elim (Result-cases (create name t1 r1)) [
        | inl (c, made) ↦
            ground (
              arith,
              name-create name t1 r1 made,
              create-IsValid name t1 r1 made,
              text_eq_refl name,
            )
        | inr (x, bad) ↦ ground arith
      ]
    ]
