-- ===== src/Sync/Checkpoint.antt =====
-- The round checkpoint: it never goes back, and a claim is always for the round behind it.
use cometa_backend.Base.{ℕ, ◌≤◌, ◌≡◌, true, Option, none, some, List, [], ◌∷◌, arith}
use cometa_backend.Base.Text.{Text}
use cometa_backend.Base.Int.{pos}
use cometa_backend.Base.Value.{int}
use cometa_backend.Sync.{Collection, follows, Call, claim, complete, snapshot, release, step, run}

abbrev pub last : Collection → Option ℕ
last none = none
last (some s) = s.last_round

-- No checkpoint is below any.
abbrev pub RoundLe : Option ℕ → Option ℕ → Type 0
RoundLe none b = Unit
RoundLe (some a) none = ⊥
RoundLe (some a) (some b) = a ≤ b

RoundLe-refl : (a : Option ℕ) → RoundLe a a
RoundLe-refl none = tt
RoundLe-refl (some a) = omega arith

RoundLe-trans : (a b c : Option ℕ) → RoundLe a b → RoundLe b c → RoundLe a c
RoundLe-trans none b c h k = tt
RoundLe-trans (some a) none c h k = elim h [ ]
RoundLe-trans (some a) (some b) none h k = elim k [ ]
RoundLe-trans (some a) (some b) (some c) h k = omega arith

last-step : (call : Call) (c : Collection) → RoundLe (last c) (last (step call c))
unfolding step
last-step (claim lease o expected (int (pos n)) now) c = ground (arith, RoundLe-refl (last c))
last-step (claim lease o expected _ now) c = RoundLe-refl (last c)
last-step (complete o expected (int (pos n)) now) c = ground arith
last-step (complete o expected _ now) c = RoundLe-refl (last c)
last-step (snapshot expected (int (pos n)) now) c = ground arith
last-step (snapshot expected _ now) c = RoundLe-refl (last c)
last-step (release o n error now) c = ground (arith, RoundLe-refl (last c))

-- Whatever any number of workers call, the checkpoint never regresses and never disappears.
pub last-run : (calls : List Call) (c : Collection) → RoundLe (last c) (last (run calls c))
unfolding run
last-run [] c = RoundLe-refl (last c)
last-run (call ∷ calls) c =
    RoundLe-trans (last c) (last (step call c)) (last (run calls (step call c))) (last-step call c)
      (last-run calls (step call c))

-- A claim names a round, an owner and an end together, and the round is the one behind the
-- checkpoint, where there is one.
abbrev pub ClaimFits : Option ℕ → Option Text → Option ℕ → Option ℕ → Type 0
ClaimFits none none none e = Unit
ClaimFits (some r) (some o) (some u) e = follows e r ≡ true
ClaimFits _ _ _ e = ⊥

abbrev pub IsWhole : Collection → Type 0
IsWhole none = Unit
IsWhole (some s) = ClaimFits s.claimed_round s.lease_owner s.lease_until s.last_round

step-IsWhole : (call : Call) (c : Collection) → IsWhole c → IsWhole (step call c)
unfolding step
step-IsWhole (claim lease o expected (int (pos n)) now) none v = ground arith
step-IsWhole (claim lease o expected (int (pos n)) now) (some s) v = ground arith
step-IsWhole (claim lease o expected _ now) c v = v
step-IsWhole (complete o expected (int (pos n)) now) none v = ground arith
step-IsWhole (complete o expected (int (pos n)) now) (some s) v = ground arith
step-IsWhole (complete o expected _ now) c v = v
step-IsWhole (snapshot expected (int (pos n)) now) none v = ground arith
step-IsWhole (snapshot expected (int (pos n)) now) (some s) v = ground arith
step-IsWhole (snapshot expected _ now) c v = v
step-IsWhole (release o n error now) none v = tt
step-IsWhole (release o n error now) (some s) v = ground arith

-- Whatever any number of workers call, a claim stays whole, with owner and end, and names the round
-- right behind the checkpoint.
pub run-IsWhole : (calls : List Call) (c : Collection) → IsWhole c → IsWhole (run calls c)
unfolding run
run-IsWhole [] c v = v
run-IsWhole (call ∷ calls) c v = run-IsWhole calls (step call c) (step-IsWhole call c v)
