-- ===== src/Lottery/Index/Steps.antt =====
-- The steps of the upgrade of the index, beside other workers.
use cometa_backend.Base.{
  ◌≡◌, refl, true, false, not, Option, none, some, arith, Bool-cases, inl, inr,
}
use cometa_backend.Base.Exec.{raise_if}
use cometa_backend.Base.Shared.{World, call, catch}
use cometa_backend.Base.Rely.{
  Behaves, Post, Run, Run-pure, Run-raise, Run-raise_if, Run-bind, Run-then, Run-catch, Run-call,
  Run-weaken,
}
use cometa_backend.Lottery.Model.{
  nonempty_strings, Index, Indexes, Db, LotteryError, duplicate_key, index_not_found,
  uniqueness_changed, index_not_installed, is_lottery_draw_id_index, is_protected,
  duplicate_lottery_draw_ids, read,
}
use cometa_backend.Lottery.Protocol.{here}
use cometa_backend.Lottery.Keeps.{KeepsAll-refl, IsValid, Extends, Extends-refl, shared}
use cometa_backend.Lottery.Writes.{IsBacked-All}
use cometa_backend.Lottery.Index.{
  desired_index, create_index, drop_index, index_information, not_created, not_dropped,
  check_installed, build_index,
}

abbrev pub IsInstalled : Db → Type 0
IsInstalled db = is_lottery_draw_id_index nonempty_strings db.indexes.id_nonempty_unique ≡ true

abbrev pub IsProtected : Db → Type 0
IsProtected db = is_protected db.indexes ≡ true

pub installed_protects : (db : Db) → IsInstalled db → IsProtected db
unfolding is_protected
installed_protects db h = ground (arith, h)

-- A change of the indexes alone.
Extends-indexes :
    (db : Db) (x : Indexes)
    → (IsInstalled db → IsInstalled (record db { indexes = x }))
    → (IsProtected db → IsProtected (record db { indexes = x }))
    → (IsValid db → duplicate_lottery_draw_ids db.draws ≡ false)
    → Extends db (record db { indexes = x })
Extends-indexes db x installed protected distinct = record {
  draws = KeepsAll-refl db.draws;
  entitlements = λ k. here;
  installed = installed;
  protected = protected;
  valid = λ v. record {
    distinct = λ h. distinct v;
    backed =
        IsBacked-All db (record db { indexes = x }) db.requests (KeepsAll-refl db.draws) protected
          v.backed;
  };
}

-- What was read of the indexes tells of the database, then and later.
pub record IsSeen (x : Indexes) (db : Db) : Type 0 where
  pub installed :
      is_lottery_draw_id_index nonempty_strings x.id_nonempty_unique ≡ true → IsInstalled db
  pub protected : is_lottery_draw_id_index nonempty_strings x.id_unique ≡ true → IsProtected db

desired_lem : is_lottery_draw_id_index nonempty_strings (some desired_index) ≡ true
unfolding is_lottery_draw_id_index
desired_lem = refl

read_lem : (db : Db) → IsSeen db.indexes db
unfolding is_protected
read_lem db = record { installed = λ h. h; protected = λ h. ground (arith, h) }

created :
    (db : Db) (o : Option Index)
    → db.indexes.id_nonempty_unique ≡ o
    → Extends db (create_index db).1
      × Post shared (λ x d. IsInstalled d) (create_index db).0 (create_index db).1
unfolding create_index
created db (some i) e = elim (Bool-cases (is_lottery_draw_id_index nonempty_strings (some i))) [
  | inl right ↦ simp (e, create_index, right) (Extends-refl db, cc)
  | inr wrong ↦ simp (e, create_index, wrong) (Extends-refl db, tt)
]
created db none e = elim (Bool-cases (duplicate_lottery_draw_ids db.draws)) [
  | inl twice ↦ simp (e, create_index, twice) (Extends-refl db, tt)
  | inr once ↦
      let x : Indexes = record db.indexes { id_nonempty_unique = some desired_index } in
      simp (e, create_index, once)
        (
          Extends-indexes db x (λ h. desired_lem)
              (λ h. installed_protects (record db { indexes = x }) desired_lem) (λ v. once),
          desired_lem,
        )
]

pub dropped :
    (db : Db) (o : Option Index)
    → db.indexes.id_unique ≡ o
    → IsInstalled db
    → Extends db (drop_index db).1
      × Post shared (λ x d. IsInstalled d) (drop_index db).0 (drop_index db).1
unfolding drop_index
dropped db none e h = simp (e, drop_index) (Extends-refl db, tt)
dropped db (some i) e h =
    let x : Indexes = record db.indexes { id_unique = none } in
    simp (e, drop_index)
      (
        Extends-indexes db x (λ k. k) (λ k. installed_protects (record db { indexes = x }) h)
            (λ v. v.distinct (installed_protects db h)),
        h,
      )

pub IsSeen-later : (x : Indexes) (d e : Db) → Extends d e → IsSeen x d → IsSeen x e
IsSeen-later x d e r s = record {
  installed = λ h. r.installed (s.installed h);
  protected = λ h. r.protected (s.protected h);
}

pub index_information-Run :
    (w : World Db) → Behaves shared w → Run shared IsSeen w (index_information w)
unfolding index_information
index_information-Run w b =
    Run-call shared w (read (λ db. db.indexes)) b (λ db r. (Extends-refl db, read_lem db))

pub check_installed-Run :
    (e : LotteryError) (w : World Db)
    → Behaves shared w
    → Run shared (λ x d. IsInstalled d) w (check_installed e w)
unfolding check_installed
check_installed-Run e w b =
    Run-bind shared w index_information
      (λ y. raise_if (not (is_lottery_draw_id_index nonempty_strings y.id_nonempty_unique)) e)
      (index_information-Run w b)
      (λ y u c r seen.
        let good = is_lottery_draw_id_index nonempty_strings y.id_nonempty_unique in
        Run-weaken shared u (raise_if (not good) e) (Run-raise_if shared (not good) e u c)
          (λ x d k h. k.installed (seen.installed (ground (arith, h)))))

not_created-Run :
    (e : LotteryError) (w : World Db)
    → Behaves shared w
    → Run shared (λ x d. IsInstalled d) w (not_created e w)
unfolding not_created
not_created-Run duplicate_key w b = Run-raise shared w uniqueness_changed b
not_created-Run e w b = Run-raise shared w e b

pub not_dropped-Run :
    (e : LotteryError) (w : World Db)
    → Behaves shared w
    → IsInstalled w.db
    → Run shared (λ x d. IsInstalled d) w (not_dropped e w)
unfolding not_dropped
not_dropped-Run index_not_found w b h = Run-pure shared w tt b h
not_dropped-Run e w b h = Run-raise shared w e b

pub build_index-Run :
    (w : World Db) → Behaves shared w → Run shared (λ x d. IsInstalled d) w (build_index w)
unfolding build_index
build_index-Run w b =
    Run-then shared w (catch (call create_index) not_created) (check_installed index_not_installed)
      (Run-catch shared w (call create_index) not_created
        (Run-call shared w create_index b (λ db r. created db db.indexes.id_nonempty_unique refl))
        (λ e u c r. not_created-Run e u c))
      (λ u c r. check_installed-Run index_not_installed u c)
