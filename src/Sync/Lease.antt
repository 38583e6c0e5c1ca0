-- ===== src/Sync/Lease.antt =====
-- The lease: while it runs, the round belongs to the worker that claimed it.
use cometa_backend.Base.{
  ℕ, ◌+◌, ◌<◌, ◌≤◌, ◌≡◌, ◌≢◌, refl, Option, none, some, List, [], ◌∷◌, arith, All,
}
use cometa_backend.Base.Exec.{Result, ok, err}
use cometa_backend.Base.Int.{pos, negsuc}
use cometa_backend.Base.Text.{Text, text_eq_iff, text_eq_refl}
use cometa_backend.Base.Value.{bool, int, other}
use cometa_backend.Sync.{
  SyncState, Collection, SyncError, lost_claim, claim_round, complete_round, with_checkpoint, Call,
  claim, complete, snapshot, release, step, run,
}
use cometa_backend.Uint64.{max_algorand_uint}

-- A call of a worker other than `owner`; the clocks that matter have not reached `until`.
abbrev pub IsForeign : Text → ℕ → Call → Type 0
IsForeign owner until (claim lease o expected round now) = (o ≢ owner) × (now < until)
IsForeign owner until (complete o expected round now) = o ≢ owner
IsForeign owner until (snapshot expected round now) = now < until
IsForeign owner until (release o r error now) = o ≢ owner

-- The document carries the claim of `owner` on `r`, up to `until`.
abbrev pub HasClaim : Text → ℕ → ℕ → Collection → Type 0
HasClaim owner r until none = ⊥
HasClaim owner r until (some s) =
    (s.claimed_round ≡ some r) × (s.lease_owner ≡ some owner) × (s.lease_until ≡ some until)

-- The document's checkpoint.
abbrev HasCheckpoint : Option ℕ → Collection → Type 0
HasCheckpoint e none = ⊥
HasCheckpoint e (some s) = s.last_round ≡ e

step-foreign :
    (owner : Text) (r until : ℕ) (call : Call) (c : Collection)
    → HasClaim owner r until c
    → IsForeign owner until call
    → step call c ≡ c
unfolding step
step-foreign owner r until call none h f = elim h [ ]
step-foreign owner r until (claim lease o expected (int (pos n)) now) (some s) h f =
    ground (arith, text_eq_iff owner o)
step-foreign owner r until (claim lease o expected (int (negsuc n)) now) (some s) h f = refl
step-foreign owner r until (claim lease o expected (bool b) now) (some s) h f = refl
step-foreign owner r until (claim lease o expected other now) (some s) h f = refl
step-foreign owner r until (complete o expected (int (pos n)) now) (some s) h f =
    ground (arith, text_eq_iff owner o)
step-foreign owner r until (complete o expected (int (negsuc n)) now) (some s) h f = refl
step-foreign owner r until (complete o expected (bool b) now) (some s) h f = refl
step-foreign owner r until (complete o expected other now) (some s) h f = refl
step-foreign owner r until (snapshot expected (int (pos n)) now) (some s) h f = ground arith
step-foreign owner r until (snapshot expected (int (negsuc n)) now) (some s) h f = refl
step-foreign owner r until (snapshot expected (bool b) now) (some s) h f = refl
step-foreign owner r until (snapshot expected other now) (some s) h f = refl
step-foreign owner r until (release o n error now) (some s) h f =
    ground (arith, text_eq_iff owner o)

run-foreign :
    (owner : Text) (r until : ℕ) (calls : List Call) (c : Collection)
    → HasClaim owner r until c
    → All (IsForeign owner until) calls
    → run calls c ≡ c
unfolding run
run-foreign owner r until [] c h f = refl
run-foreign owner r until (call ∷ calls) c h f =
    rw (step-foreign owner r until call c h f.0) (run-foreign owner r until calls c h f.1)

-- What a successful claim leaves.
claim_round-HasClaim :
    (lease : ℕ) (owner : Text) (expected : Option ℕ) (r now : ℕ) (s : SyncState) (c c' : Collection)
    → claim_round lease owner expected (int (pos r)) now c ≡ (ok (some s), c')
    → HasClaim owner r (now + lease) c' × HasCheckpoint expected c' × (r ≤ max_algorand_uint)
unfolding claim_round
claim_round-HasClaim lease owner expected r now s none c' h = ground arith
claim_round-HasClaim lease owner expected r now s (some d) c' h = ground arith

-- While a claim runs, nothing that other workers call changes the document: no claim, no completion,
-- no snapshot and no release. This holds for any number of calls in any order, as long as their
-- claims and snapshots read clocks before the lease ends.
pub claim_round-excludes :
    (lease : ℕ) (owner : Text) (expected : Option ℕ) (r now : ℕ) (calls : List Call) (s : SyncState)
    (c c' : Collection)
    → claim_round lease owner expected (int (pos r)) now c ≡ (ok (some s), c')
    → All (IsForeign owner (now + lease)) calls
    → run calls c' ≡ c'
claim_round-excludes lease owner expected r now calls s c c' h f =
    run-foreign owner r (now + lease) calls c'
      (claim_round-HasClaim lease owner expected r now s c c' h).0 f

-- The round is checked, and no claim is left.
abbrev pub IsCompleted : ℕ → Result SyncError SyncState × Collection → Type 0
IsCompleted r (result, c) =
    (t : SyncState) × (result ≡ ok t)
    × (c ≡ some t)
    × (t.last_round ≡ some r)
    × (t.claimed_round ≡ none)
    × (t.lease_owner ≡ none)
    × (t.lease_until ≡ none)

complete_round-HasClaim :
    (owner : Text) (e until later : ℕ) (c : Collection)
    → HasClaim owner (e + 1) until c × HasCheckpoint (some e) c × (e + 1 ≤ max_algorand_uint)
    → later < until
    → IsCompleted (e + 1) (complete_round owner (some e) (int (pos (e + 1))) later c)
unfolding complete_round
complete_round-HasClaim owner e until later none h l = elim h.0 [ ]
complete_round-HasClaim owner e until later (some d) h l = (
  with_checkpoint (e + 1) later d,
  ground (arith, text_eq_refl owner),
  ground (arith, text_eq_refl owner),
  refl,
  refl,
  refl,
  refl,
)

-- A worker that claims the round behind checkpoint `e`, and completes it while its lease still runs,
-- moves the checkpoint to that round and leaves no claim, whatever the other workers called in
-- between.
pub claim_round-complete_round :
    (lease : ℕ) (owner : Text) (e now later : ℕ) (calls : List Call) (s : SyncState)
    (c c' : Collection)
    → claim_round lease owner (some e) (int (pos (e + 1))) now c ≡ (ok (some s), c')
    → All (IsForeign owner (now + lease)) calls
    → later < now + lease
    → IsCompleted (e + 1) (complete_round owner (some e) (int (pos (e + 1))) later (run calls c'))
claim_round-complete_round lease owner e now later calls s c c' h f l =
    rw (claim_round-excludes lease owner (some e) (e + 1) now calls s c c' h f) (
      complete_round-HasClaim owner e (now + lease) later c'
        (claim_round-HasClaim lease owner (some e) (e + 1) now s c c' h) l)

-- A worker whose lease another worker has taken over cannot complete its round: the call raises that
-- the claim is lost, and changes nothing.
pub complete_round-fenced :
    (lease : ℕ) (owner rival : Text) (expected : Option ℕ) (r now later : ℕ) (s : SyncState)
    (c c' : Collection)
    → claim_round lease rival expected (int (pos r)) now c ≡ (ok (some s), c')
    → owner ≢ rival
    → complete_round owner expected (int (pos r)) later c' ≡ (err lost_claim, c')
unfolding claim_round complete_round
complete_round-fenced lease owner rival expected r now later s none c' h ne = ground arith
complete_round-fenced lease owner rival expected r now later s (some d) c' h ne =
    ground (arith, text_eq_iff rival owner)
