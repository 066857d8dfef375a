-- ===== src/Populate/Valid.antt =====
-- apexd/apex_database.cpp: PopulateFromMounts on a database that is not empty, against its
-- invariant.
use android_system_apex.Common.{
  ◌≡◌, ◌∙◌, sym, subst, inl, inr, some, List, [], ◌∷◌, Text, arith, Option-cases,
}
use android_system_apex.Os.{Os}
use android_system_apex.Database.Invariant.{IsValid, set_latest-IsValid}
use android_system_apex.Database.Add.{add_mounted_apex_self}
use android_system_apex.Database.{Database}
use android_system_apex.Populate.Marks.{Mount, restores}
use android_system_apex.Populate.Newest.{restore-cases}
use android_system_apex.Populate.Mounts.{mount_of, populate_line-mount_of}
use android_system_apex.Populate.{Versions, populate_line, populate_lines, populate_from_mounts}

restores-IsValid :
    (m : Mount) (db : Database) (vs : Versions) (t : Database × Versions)
    → restores m (db, vs) ≡ some t
    → IsValid t.0
restores-IsValid m db vs t h =
    let (db1, added, rest) = restore-cases m db vs h in
    let v1 = (add_mounted_apex_self m.pkg m.mounted db db1 added).0 in
    elim rest [
      | inl (_, e) ↦ rw e v1
      | inr (_, (db2, set, e)) ↦ rw e (set_latest-IsValid m.pkg m.mounted.full_path db1 db2 set v1)
    ]

module _ {W : Type 0} (os : Os W) (w : W) where
  populate_line-IsValid :
      (line : Text) (s t : Database × Versions)
      → populate_line os w line s ≡ some t
      → IsValid s.0
      → IsValid t.0
  populate_line-IsValid line (db, vs) t h v =
      let e = sym h ∙ populate_line-mount_of os w line (db, vs) in
      elim (Option-cases (mount_of os w line)) [
        | inl none' ↦ ground (arith, e)
        | inr (m, found) ↦ restores-IsValid m db vs t (ground (arith, e))
      ]

  populate_lines-IsValid :
      (lines : List Text) (s t : Database × Versions)
      → populate_lines os w lines s ≡ some t
      → IsValid s.0
      → IsValid t.0
  unfolding populate_lines
  populate_lines-IsValid [] s t h v = ground arith
  populate_lines-IsValid (line ∷ lines) s t h v = elim (Option-cases (populate_line os w line s)) [
    | inl e ↦ absurd (ground arith)
    | inr (s', e) ↦
        populate_lines-IsValid lines s' t (ground arith) (populate_line-IsValid line s s' e v)
  ]

  pub populate_from_mounts-IsValid :
      (lines : List Text) (db db' : Database)
      → populate_from_mounts os w lines db ≡ some db'
      → IsValid db
      → IsValid db'
  unfolding populate_from_mounts
  populate_from_mounts-IsValid lines db db' h v =
      elim (Option-cases (populate_lines os w lines (db, []))) [
        | inl e ↦ absurd (ground arith)
        | inr ((db1, vs), e) ↦
            let v1 = populate_lines-IsValid lines (db, []) (db1, vs) e v in
            subst IsValid (ground arith) v1
      ]
