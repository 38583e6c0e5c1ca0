-- ===== src/Base/Shared.antt =====
-- A database that several workers share. Each call of it is one atomic step, before which another
-- worker may act: `others` has one entry for each call.
use cometa_backend.Base.{Option, none, some, List, [], ◌∷◌}
use cometa_backend.Base.Exec.{Result, ok, err, Exec}

pub record World (D : Type 0) : Type 0 where
  pub db : D
  pub others : List (D → D)

abbrev pub Action : Type 0 → Type 0 → Type 0 → Type 0
Action D E A = Exec (World D) E A

-- The other workers act.
abbrev pub acted : {D : Type 0} → List (D → D) → World D → World D
acted [] w = w
acted (f ∷ fs) w = record { db = f w.db; others = fs }

module _ {D E A : Type 0} where
  -- A step of this worker alone.
  abbrev pub local : (D → Result E A × D) → Action D E A
  local f w = let (r, d) = f w.db in (r, record w { db = d })

  -- One call of the database.
  abbrev pub call : (D → Result E A × D) → Action D E A
  call f w = local f (acted w.others w)

  -- `try: m except e: handler e`
  abbrev pub catch : Action D E A → (E → Action D E A) → Action D E A
  catch m handler w = let (r, w') = m w in elim r [ ok a ↦ (ok a, w') | err e ↦ handler e w' ]

-- `try: m except e: ...`, where the code behind it asks how it ended.
abbrev pub attempt : {D E A : Type 0} → Action D E A → Action D E (Result E A)
attempt m w = let (r, w') = m w in (ok r, w')

-- `m` where nothing was found, `f` of what was.
abbrev pub cases : {D E A B : Type 0} → Option A → Action D E B → (A → Action D E B) → Action D E B
cases none m f = m
cases (some a) m f = f a
