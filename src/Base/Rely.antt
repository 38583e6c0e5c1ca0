-- ===== src/Base/Rely.antt =====
-- What a worker may rely on and guarantees: a relation that each step of every worker respects. The
-- rules build the guarantee of an action along its `do` block, with what is known of its result.
use cometa_backend.Base.{
  ◌≡◌, refl, List, [], ◌∷◌, All, Bool, true, false, Option, none, some, if◌then◌else◌,
}
use cometa_backend.Base.Exec.{Result, ok, err, ◌>>=◌, ◌>>◌, lift, raise_if}
use cometa_backend.Base.Shared.{World, Action, acted, local, call, catch, attempt, cases}

pub record Relation (D : Type 0) : Type 1 where
  pub rel : D → D → Type 0
  pub same : (d : D) → rel d d
  pub join : (d e f : D) → rel d e → rel e f → rel d f

module _ {D : Type 0} (R : Relation D) where
  -- Other workers respect the relation too.
  abbrev pub Behaves : World D → Type 0
  Behaves w = All (λ f. (d : D) → R.rel d (f d)) w.others

  abbrev pub Post : {E A : Type 0} → (A → D → Type 0) → Result E A → D → Type 0
  Post Q (ok a) d = Q a d
  Post Q (err e) d = Unit

  pub record Run {E A : Type 0} (Q : A → D → Type 0) (w : World D) (out : Result E A × World D)
      : Type 0 where
    pub others : Behaves out.1
    pub reaches : R.rel w.db out.1.db
    pub post : Post Q out.0 out.1.db

  pub Post-weaken :
      {E A : Type 0} (P Q : A → D → Type 0) (r : Result E A) (d : D)
      → Post P r d
      → ((a : A) → P a d → Q a d)
      → Post Q r d
  Post-weaken P Q (ok a) d p k = k a p
  Post-weaken P Q (err e) d p k = tt

  acted-Behaves :
      (fs : List (D → D)) (w : World D)
      → All (λ f. (d : D) → R.rel d (f d)) fs
      → Behaves w
      → Behaves (acted fs w) × R.rel w.db (acted fs w).db
  acted-Behaves [] w h b = (b, R.same w.db)
  acted-Behaves (f ∷ fs) w h b = (h.1, h.0 w.db)

  module _ {E : Type 0} where
    pub Run-pure :
        {A : Type 0} {Q : A → D → Type 0} (w : World D) (a : A)
        → Behaves w
        → Q a w.db
        → Run {E = E} Q w (ok a, w)
    Run-pure w a b q = record { others = b; reaches = R.same w.db; post = q }

    pub Run-raise :
        {A : Type 0} {Q : A → D → Type 0} (w : World D) (e : E)
        → Behaves w
        → Run {A = A} Q w (err e, w)
    Run-raise w e b = record { others = b; reaches = R.same w.db; post = tt }

    module _ {A B : Type 0} {Q : A → D → Type 0} {S : B → D → Type 0} where
      bind_out :
          (w : World D) (f : A → Action D E B) (r : Result E A) (w' : World D)
          → Run Q w (r, w')
          → ((a : A) (u : World D) → Behaves u → R.rel w.db u.db → Q a u.db → Run S u (f a u))
          → Run S w (((λ v. (r, w')) >>= f) w)
      bind_out w f (err e) w' h k = record { others = h.others; reaches = h.reaches; post = tt }
      bind_out w f (ok a) w' h k =
          let next = k a w' h.others h.reaches h.post in
          record {
            others = next.others;
            reaches = R.join w.db w'.db (f a w').1.db h.reaches next.reaches;
            post = next.post;
          }

      pub Run-bind :
          (w : World D) (m : Action D E A) (f : A → Action D E B)
          → Run Q w (m w)
          → ((a : A) (u : World D) → Behaves u → R.rel w.db u.db → Q a u.db → Run S u (f a u))
          → Run S w ((m >>= f) w)
      Run-bind w m f h k = bind_out w f (m w).0 (m w).1 h k

    module _ {A : Type 0} {Q : A → D → Type 0} where
      catch_out :
          (w : World D) (handler : E → Action D E A) (r : Result E A) (w' : World D)
          → Run Q w (r, w')
          → ((e : E) (u : World D) → Behaves u → R.rel w.db u.db → Run Q u (handler e u))
          → Run Q w (catch (λ v. (r, w')) handler w)
      catch_out w handler (ok a) w' h k = h
      catch_out w handler (err e) w' h k =
          let next = k e w' h.others h.reaches in
          record {
            others = next.others;
            reaches = R.join w.db w'.db (handler e w').1.db h.reaches next.reaches;
            post = next.post;
          }

      pub Run-catch :
          (w : World D) (m : Action D E A) (handler : E → Action D E A)
          → Run Q w (m w)
          → ((e : E) (u : World D) → Behaves u → R.rel w.db u.db → Run Q u (handler e u))
          → Run Q w (catch m handler w)
      Run-catch w m handler h k = catch_out w handler (m w).0 (m w).1 h k

      pub Run-attempt :
          (w : World D) (m : Action D E A) → Run Q w (m w) → Run (Post Q) w (attempt m w)
      Run-attempt w m h = record { others = h.others; reaches = h.reaches; post = h.post }

      pub Run-lift : (w : World D) (r : Result E A) → Behaves w → Post Q r w.db → Run Q w (lift r w)
      Run-lift w r b q = record { others = b; reaches = R.same w.db; post = q }

      pub Run-local :
          (w : World D) (f : D → Result E A × D)
          → Behaves w
          → R.rel w.db (f w.db).1 × Post Q (f w.db).0 (f w.db).1
          → Run Q w (local f w)
      Run-local w f b h = record { others = b; reaches = h.0; post = h.1 }

      -- One call of the database: its step respects the relation from wherever the others lead.
      pub Run-call :
          (w : World D) (f : D → Result E A × D)
          → Behaves w
          → ((d : D) → R.rel w.db d → R.rel d (f d).1 × Post Q (f d).0 (f d).1)
          → Run Q w (call f w)
      Run-call w f b h =
          let u = acted w.others w in
          let (c, x) = acted-Behaves w.others w b b in
          let (y, p) = h u.db x in
          record { others = c; reaches = R.join w.db u.db (f u.db).1 x y; post = p }

      pub Run-weaken :
          {P : A → D → Type 0} (w : World D) (m : Action D E A)
          → Run P w (m w)
          → ((a : A) (d : D) → R.rel w.db d → P a d → Q a d)
          → Run Q w (m w)
      Run-weaken {P} w m h k = record {
        others = h.others;
        reaches = h.reaches;
        post = Post-weaken P Q (m w).0 (m w).1.db h.post (λ a. k a (m w).1.db h.reaches);
      }

  module _ {E : Type 0} where
    -- What passed the guard.
    pub Run-raise_if :
        (b : Bool) (e : E) (w : World D) → Behaves w → Run (λ x d. b ≡ false) w (raise_if b e w)
    Run-raise_if true e w b = record { others = b; reaches = R.same w.db; post = tt }
    Run-raise_if false e w b = record { others = b; reaches = R.same w.db; post = refl }

    module _ {A B : Type 0} {Q : A → D → Type 0} {S : B → D → Type 0} where
      pub Run-then :
          (w : World D) (m : Action D E A) (k : Action D E B)
          → Run Q w (m w)
          → ((u : World D) → Behaves u → R.rel w.db u.db → Run S u (k u))
          → Run S w ((m >> k) w)
      Run-then w m k h next = Run-bind w m (λ a. k) h (λ a u b r q. next u b r)

      -- The same, where the next action needs what is known of the result.
      pub Run-next :
          (w : World D) (m : Action D E A) (k : Action D E B)
          → Run Q w (m w)
          → ((a : A) (u : World D) → Behaves u → R.rel w.db u.db → Q a u.db → Run S u (k u))
          → Run S w ((m >> k) w)
      Run-next w m k h next = Run-bind w m (λ a. k) h next

    pub Run-cases :
        {A B : Type 0} {S : B → D → Type 0} (P : Option A → D → Type 0) (w : World D) (o : Option A)
        (m : Action D E B) (f : A → Action D E B)
        → P o w.db
        → (P none w.db → Run S w (m w))
        → ((a : A) → P (some a) w.db → Run S w (f a w))
        → Run S w (cases o m f w)
    Run-cases P w none m f p h k = h p
    Run-cases P w (some a) m f p h k = k a p

    pub Run-if :
        {A : Type 0} {Q : A → D → Type 0} (w : World D) (b : Bool) (m n : Action D E A)
        → (b ≡ true → Run Q w (m w))
        → (b ≡ false → Run Q w (n w))
        → Run Q w ((if b then m else n) w)
    Run-if w true m n h k = h refl
    Run-if w false m n h k = k refl
