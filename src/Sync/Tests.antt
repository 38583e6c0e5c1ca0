-- ===== src/Sync/Tests.antt =====
-- Runs of the sync coordinator at concrete inputs.
use cometa_backend.Base.{All, ◌≡◌, ◌≢◌, refl, none, some, List, [], ◌∷◌, arith, ◌+◌}
use cometa_backend.Base.Exec.{ok, err}
use cometa_backend.Base.Int.{pos}
use cometa_backend.Base.Text.{text}
use cometa_backend.Base.Value.{int}
use cometa_backend.Sync.{
  SyncState, lost_claim, claim_round, complete_round, Call, claim, complete, snapshot, release, run,
}
use cometa_backend.Sync.Lease.{
  IsForeign, claim_round-excludes, IsCompleted, claim_round-complete_round, complete_round-fenced,
}
use cometa_backend.Sync.Checkpoint.{last, RoundLe, last-run, IsWhole, run-IsWhole}

abbrev idle : SyncState
idle = record {
  last_round = some 41;
  claimed_round = none;
  lease_owner = none;
  lease_until = none;
  last_error = none;
  updated = 0;
}

abbrev claimed : SyncState
claimed = record idle {
  claimed_round = some 42;
  lease_owner = some (text "a");
  lease_until = some 130;
  updated = 10;
}

claims :
    claim_round 120 (text "a") (some 41) (int (pos 42)) 10 (some idle)
    ≡ (ok (some claimed), some claimed)
unfolding claim_round
claims = refl

b_not_a : text "b" ≢ text "a"
b_not_a e = ground (arith, e)

abbrev rivals : List Call
rivals =
    claim 120 (text "b") (some 41) (int (pos 42)) 50
    ∷ complete (text "b") (some 41) (int (pos 42)) 60
    ∷ snapshot (some 41) (int (pos 90)) 70
    ∷ release (text "b") 42 (text "late") 80
    ∷ []

rivals-IsForeign : All (IsForeign (text "a") (10 + 120)) rivals
rivals-IsForeign = ((b_not_a, omega arith), (b_not_a, (omega arith, (b_not_a, tt))))

claim_round-excludes_example : run rivals (some claimed) ≡ some claimed
claim_round-excludes_example =
    claim_round-excludes 120 (text "a") (some 41) 42 10 rivals claimed (some idle) (some claimed)
      claims rivals-IsForeign

claim_round-complete_round_example :
    IsCompleted
      (41 + 1)
      (complete_round (text "a") (some 41) (int (pos (41 + 1))) 129 (run rivals (some claimed)))
claim_round-complete_round_example =
    claim_round-complete_round 120 (text "a") 41 10 129 rivals claimed (some idle) (some claimed)
      claims rivals-IsForeign (omega arith)

complete_round-fenced_example :
    complete_round (text "b") (some 41) (int (pos 42)) 20 (some claimed)
    ≡ (err lost_claim, some claimed)
complete_round-fenced_example =
    complete_round-fenced 120 (text "b") (text "a") (some 41) 42 10 20 claimed (some idle)
      (some claimed) claims b_not_a

last-run_example : RoundLe (last (some idle)) (last (run rivals (some idle)))
last-run_example = last-run rivals (some idle)

run-IsWhole_example : IsWhole (run rivals (some idle))
run-IsWhole_example = run-IsWhole rivals (some idle) tt
