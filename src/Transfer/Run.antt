-- ===== src/Transfer/Run.antt =====
-- Total correctness of an action in one statement: what the final world keeps, and what is known of
-- the result. The rules build it up along a `do` block.
use cometa_backend.Base.{◌≡◌, refl, Option, none, some, List, [], ◌∷◌, arith, All}
use cometa_backend.Base.Exec.{Result, ok, err, ◌>>=◌}
use cometa_backend.Transfer.Model.{TransferError, AssetTransferIntent}
use cometa_backend.Transfer.Repository.{Store, World, Action, Broadcast, interfere, acted, call}
use cometa_backend.Transfer.Keeps.{Held, Extends, Extends-refl, Extends-trans, Keyed}

-- A broadcast carries the signed transaction that is persisted under its operation ID.
abbrev pub Carries : Broadcast → Option AssetTransferIntent → Type 0
Carries b none = ⊥
Carries b (some i) =
    (b.transfer.signed_transaction ≡ i.signed_transaction)
    × (b.transfer.txid ≡ i.txid)
    × (b.transfer.first_valid_round ≡ i.first_valid_round)
    × (b.transfer.last_valid_round ≡ i.last_valid_round)

pub record IsBacked (s : Store) (b : Broadcast) : Type 0 where
  pub carries : Carries b (s b.operation_id)

-- Other workers may do what the repository does.
pub record Behaves (f : Store → Store) : Type 0 where
  pub extends : (s : Store) → Keyed s → Extends s (f s)

pub record Inv (w : World) : Type 0 where
  pub keyed : Keyed w.store
  pub others : All Behaves w.others
  pub backed : All (IsBacked w.store) w.sent

Carries-later :
    (b : Broadcast) (o p : Option AssetTransferIntent)
    → Carries b o
    → ((i : AssetTransferIntent) → o ≡ some i → Held i p)
    → Carries b p
Carries-later b none p h k = elim h [ ]
Carries-later b (some i) none h k = k i refl
Carries-later b (some i) (some j) h k = ground (arith, k i refl)

pub IsBacked-later :
    (s t : Store) (bs : List Broadcast) → Extends s t → All (IsBacked s) bs → All (IsBacked t) bs
IsBacked-later s t [] x h = tt
IsBacked-later s t (b ∷ bs) x h = (
  record {
    carries =
        Carries-later b (s b.operation_id) (t b.operation_id) h.0.carries (x.held b.operation_id);
  },
  IsBacked-later s t bs x h.1,
)

-- What is known of a result, or nothing of an exception.
abbrev pub Post : {A : Type 0} → (A → Store → Type 0) → Result TransferError A → Store → Type 0
Post Q (ok a) s = Q a s
Post Q (err e) s = Unit

pub record Run {A : Type 0} (Q : A → Store → Type 0) (w : World)
    (out : Result TransferError A × World) : Type 0 where
  pub inv : Inv out.1
  pub extends : Extends w.store out.1.store
  pub post : Post Q out.0 out.1.store

module _ {A B : Type 0} {Q : A → Store → Type 0} {R : B → Store → Type 0} where
  bind_out :
      (w : World) (f : A → Action B) (r : Result TransferError A) (w' : World)
      → Run Q w (r, w')
      → ((a : A) (u : World) → Inv u → Extends w.store u.store → Q a u.store → Run R u (f a u))
      → Run R w (((λ v. (r, w')) >>= f) w)
  bind_out w f (err e) w' h k = record { inv = h.inv; extends = h.extends; post = tt }
  bind_out w f (ok a) w' h k =
      let next = k a w' h.inv h.extends h.post in
      record {
        inv = next.inv;
        extends = Extends-trans w.store w'.store (f a w').1.store h.extends next.extends;
        post = next.post;
      }

  pub Run-bind :
      (w : World) (m : Action A) (f : A → Action B)
      → Run Q w (m w)
      → ((a : A) (u : World) → Inv u → Extends w.store u.store → Q a u.store → Run R u (f a u))
      → Run R w ((m >>= f) w)
  Run-bind w m f h k = bind_out w f (m w).0 (m w).1 h k

-- An action that leaves the world alone.
pub Run-still :
    {A : Type 0} {Q : A → Store → Type 0} (w : World) (r : Result TransferError A)
    → Inv w
    → Post Q r w.store
    → Run Q w (r, w)
Run-still w r i p = record { inv = i; extends = Extends-refl w.store i.keyed; post = p }

Inv-acted :
    (fs : List (Store → Store)) (w : World)
    → All Behaves fs
    → Inv w
    → Inv (acted fs w) × Extends w.store (acted fs w).store
Inv-acted [] w b i = (i, Extends-refl w.store i.keyed)
Inv-acted (f ∷ fs) w b i =
    let x = b.0.extends w.store i.keyed in
    (
      record {
        keyed = x.keyed;
        others = b.1;
        backed = IsBacked-later w.store (f w.store) w.sent x i.backed;
      },
      x,
    )

-- One atomic call of the database, after what the other workers do.
pub Run-call :
    {A : Type 0} {Q : A → Store → Type 0} (w : World) (f : Store → Result TransferError A × Store)
    → Inv w
    → ((s : Store) → Keyed s → Extends w.store s → Extends s (f s).1 × Post Q (f s).0 (f s).1)
    → Run Q w (call f w)
Run-call w f i k =
    let v = interfere w in
    let (j, x) = Inv-acted w.others w i.others i in
    let (y, p) = k v.store j.keyed x in
    record {
      inv = record {
        keyed = y.keyed;
        others = j.others;
        backed = IsBacked-later v.store (f v.store).1 v.sent y j.backed;
      };
      extends = Extends-trans w.store v.store (f v.store).1 x y;
      post = p;
    }

Post-weaken :
    {A : Type 0} (Q R : A → Store → Type 0) (r : Result TransferError A) (s : Store)
    → ((a : A) → Q a s → R a s)
    → Post Q r s
    → Post R r s
Post-weaken Q R (ok a) s k p = k a p
Post-weaken Q R (err e) s k p = tt

pub Run-weaken :
    {A : Type 0} {Q R : A → Store → Type 0} (w : World) (out : Result TransferError A × World)
    → ((a : A) (s : Store) → Q a s → R a s)
    → Run Q w out
    → Run R w out
Run-weaken {A} {Q} {R} w out k h = record {
  inv = h.inv;
  extends = h.extends;
  post = Post-weaken Q R out.0 out.1.store (λ a. k a out.1.store) h.post;
}
