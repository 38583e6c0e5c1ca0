-- ===== src/Lottery/Index/Guard.antt =====
-- The upgrade of the index beside other workers.
use cometa_backend.Base.{
  ◌≡◌, refl, true, false, not, ◌&&◌, ◌||◌, Option, none, some, arith, Bool-cases, inl, inr,
}
use cometa_backend.Base.Exec.{raise_if, ◌>>◌}
use cometa_backend.Base.Shared.{World, call, catch}
use cometa_backend.Base.Rely.{
  Behaves, Run, Run-pure, Run-raise_if, Run-bind, Run-then, Run-next, Run-catch, Run-call,
  Run-weaken,
}
use cometa_backend.Lottery.Model.{
  all_strings, nonempty_strings, Index, Indexes, Db, duplicate_draw_ids, replacement_disappeared,
  unexpected_index, unexpected_legacy_index, is_lottery_draw_id_index, duplicate_lottery_draw_ids,
  read,
}
use cometa_backend.Lottery.Keeps.{Extends-refl, shared}
use cometa_backend.Lottery.Index.{
  is_present, is_unknown, drop_index, index_information, not_dropped, check_installed, build_index,
  create_missing, drop_legacy, ensure_lottery_indexes,
}
use cometa_backend.Lottery.Index.Steps.{
  IsProtected, IsInstalled, installed_protects, IsSeen, dropped, IsSeen-later,
  index_information-Run, check_installed-Run, not_dropped-Run, build_index-Run,
}

-- What the rest of the upgrade relies on.
abbrev IsGuarded : Indexes → Db → Type 0
IsGuarded x db =
    IsProtected db × (is_lottery_draw_id_index all_strings x.id_unique ≡ true → IsInstalled db)

all_not_nonempty :
    (i : Option Index)
    → is_lottery_draw_id_index all_strings i ≡ true
    → ¬ (is_lottery_draw_id_index nonempty_strings i ≡ true)
unfolding is_lottery_draw_id_index
all_not_nonempty none h k = cc
all_not_nonempty (some i) h k = ground arith

there-IsGuarded :
    (x : Indexes) (db : Db)
    → IsSeen x db
    → (is_present x.id_nonempty_unique
        && not (is_lottery_draw_id_index nonempty_strings x.id_nonempty_unique))
      ≡ false
    → (is_present x.id_nonempty_unique || is_lottery_draw_id_index nonempty_strings x.id_unique)
      ≡ true
    → IsGuarded x db
there-IsGuarded x db seen known there = elim (Bool-cases (is_present x.id_nonempty_unique)) [
  | inl present ↦
      let here = seen.installed (ground (arith, known, present)) in
      (installed_protects db here, λ h. here)
  | inr missing ↦
      let legacy : is_lottery_draw_id_index nonempty_strings x.id_unique ≡ true =
        ground (arith, there, missing) in
      (seen.protected legacy, λ h. absurd (all_not_nonempty x.id_unique h legacy))
]

create_missing-Run :
    (x : Indexes) (w : World Db)
    → Behaves shared w
    → IsSeen x w.db
    → (is_present x.id_nonempty_unique
        && not (is_lottery_draw_id_index nonempty_strings x.id_nonempty_unique))
      ≡ false
    → Run shared (λ y. IsGuarded x) w (create_missing x w)
unfolding create_missing
create_missing-Run x w b seen known =
    elim (Bool-cases
      (is_present x.id_nonempty_unique || is_lottery_draw_id_index nonempty_strings x.id_unique)) [
        | inl there ↦
            rw (create_missing, there)
              (Run-pure shared w tt b (there-IsGuarded x w.db seen known there))
        | inr missing ↦
            rw (create_missing, missing)
              (Run-bind shared w (call (read (λ db. duplicate_lottery_draw_ids db.draws)))
                (λ duplicates. raise_if duplicates duplicate_draw_ids >> build_index)
                (Run-call shared {Q = λ a d. Unit} w
                  (read (λ db. duplicate_lottery_draw_ids db.draws)) b
                  (λ db r. (Extends-refl db, tt)))
                (λ duplicates u c r q.
                  Run-then shared u (raise_if duplicates duplicate_draw_ids) build_index
                    (Run-raise_if shared duplicates duplicate_draw_ids u c)
                    (λ v d s.
                      Run-weaken shared v build_index (build_index-Run v d)
                        (λ y db k h. (installed_protects db h, λ e. h)))))
      ]

drop_legacy-Run :
    (x : Indexes) (w : World Db)
    → Behaves shared w
    → IsGuarded x w.db
    → Run shared (λ y. IsProtected) w (drop_legacy x w)
unfolding drop_legacy
drop_legacy-Run x w b guarded =
    elim (Bool-cases (is_lottery_draw_id_index all_strings x.id_unique)) [
      | inr other ↦ rw (drop_legacy, other) (Run-pure shared w tt b guarded.0)
      | inl legacy ↦
          let safe = guarded.1 legacy in
          rw (drop_legacy, legacy)
            (Run-then shared w (catch (call drop_index) not_dropped)
              (check_installed replacement_disappeared)
              (Run-catch shared w (call drop_index) not_dropped
                (Run-call shared w drop_index b
                  (λ db r. dropped db db.indexes.id_unique refl (r.installed safe)))
                (λ e u c r. not_dropped-Run e u c (r.installed safe)))
              (λ u c r.
                Run-weaken shared u (check_installed replacement_disappeared)
                  (check_installed-Run replacement_disappeared u c)
                  (λ y db k h. installed_protects db h)))
    ]

-- Whatever other workers do meanwhile within the same rules, the upgrade of the index keeps every
-- draw, never leaves the draws without a unique index once they have one, and where it returns, a
-- unique index covers every non-empty draw ID.
pub ensure_lottery_indexes-Run :
    (w : World Db) → Behaves shared w → Run shared (λ x. IsProtected) w (ensure_lottery_indexes w)
unfolding ensure_lottery_indexes
ensure_lottery_indexes-Run w b =
    Run-bind shared w index_information
      (λ x.
        raise_if
          (is_present x.id_nonempty_unique
            && not (is_lottery_draw_id_index nonempty_strings x.id_nonempty_unique))
          unexpected_index
        >> (raise_if (is_unknown x.id_unique) unexpected_legacy_index
            >> (create_missing x >> drop_legacy x)))
      (index_information-Run w b)
      (λ x u c r seen.
        let strange =
          is_present x.id_nonempty_unique
          && not (is_lottery_draw_id_index nonempty_strings x.id_nonempty_unique) in
        Run-next shared u (raise_if strange unexpected_index)
          (raise_if (is_unknown x.id_unique) unexpected_legacy_index
            >> (create_missing x >> drop_legacy x))
          (Run-raise_if shared strange unexpected_index u c)
          (λ y v d s known.
            Run-then shared v (raise_if (is_unknown x.id_unique) unexpected_legacy_index)
              (create_missing x >> drop_legacy x)
              (Run-raise_if shared (is_unknown x.id_unique) unexpected_legacy_index v d)
              (λ v' d' s'.
                Run-next shared v' (create_missing x) (drop_legacy x)
                  (create_missing-Run x v' d'
                    (IsSeen-later x v.db v'.db s' (IsSeen-later x u.db v.db s seen)) known)
                  (λ y' z e t guarded. drop_legacy-Run x z e guarded))))
