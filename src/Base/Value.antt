-- ===== src/Base/Value.antt =====
-- A Python value that arrives from outside, as far as the code asks: `bool` is an `int` to
-- `isinstance`, so the code tests it first.
use cometa_backend.Base.{Bool}
use cometa_backend.Base.Int.{ℤ}

pub data Value : Type 0 where
  bool : Bool → Value
  int : ℤ → Value
  other : Value
