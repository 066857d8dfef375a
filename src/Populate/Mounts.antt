-- ===== src/Populate/Mounts.antt =====
-- The whole loop of `PopulateFromMounts` (apexd/apex_database.cpp): what it restores from
-- /proc/mounts, and when a round does not abort.

use android_system_apex.Common.{
  ◌≡◌, ◌↔◌, inl, inr, refl, ◌∙◌, subst, Bool, true, false, not, Option, none, some, List, [], ◌∷◌,
  arith, Text, text_eq, text_eq_refl, ltb_ℤ, Bool-cases, Option-cases, ok, fail, if◌then◌else◌,
}
use android_system_apex.Common.Insertion.{Inserted, here, there}
use android_system_apex.OrdMap.{find}
use android_system_apex.Paths.{filename, parent_path, apex_root}
use android_system_apex.Os.{Os}
use android_system_apex.Database.Entry.{MountedApexData, text_order}
use android_system_apex.Database.Invariant.{IsValid}
use android_system_apex.Database.Add.{CanAdd, add_mounted_apex_iff, add_mounted_apex_self}
use android_system_apex.Database.{
  PackageMap, Database, package_map, add_mounted_apex, set_latest, set_latest_in, reset,
}
use android_system_apex.Populate.Marks.{Mount, restores, Restored, started, next, Newest}
use android_system_apex.Populate.Newest.{Restored-Newest}
use android_system_apex.Populate.{
  Versions, active_version, parse_mount_info, parse_mount_point, is_active_mount_point,
  resolve_mount_info, restore, populate_line, populate_lines, populate_from_mounts,
}

module _ {W : Type 0} (os : Os W) (w : W) where
  -- The mount that a line stands for: one directly in /apex that is no active mount point, and
  -- whose block device can be resolved.
  unfoldable pub mount_of : Text → Option Mount
  mount_of line =
      let (block, mount_point) = parse_mount_info line in
      let (pkg, version) = parse_mount_point os.parse_int mount_point in
      if not (text_eq (parent_path mount_point) apex_root)
      then none
      else if is_active_mount_point mount_point
      then none
      else elim (resolve_mount_info os w (filename block) mount_point) [
        | fail e ↦ none
        | ok mounted ↦ some (record { pkg = pkg; version = version; mounted = mounted })
      ]

  -- The mounts of the lines, the last one first, on top of `ms`.
  unfoldable pub mounts_from : List Mount → List Text → List Mount
  mounts_from ms [] = ms
  mounts_from ms (line ∷ lines) =
      mounts_from (elim (mount_of line) [ none ↦ ms | some m ↦ m ∷ ms ]) lines

  pub populate_line-mount_of :
      (line : Text) (s : Database × Versions)
      → populate_line os w line s ≡ elim (mount_of line) [ none ↦ some s | some m ↦ restores m s ]
  unfolding populate_line mount_of
  populate_line-mount_of line s = ground arith

  populate_lines-Restored :
      (lines : List Text) (ms : List Mount) (s : Database × Versions) {t : Database × Versions}
      → populate_lines os w lines s ≡ some t
      → Restored ms s
      → Restored (mounts_from ms lines) t
  unfolding populate_lines mounts_from
  populate_lines-Restored [] ms s h r = subst (Restored ms) (ground arith) r
  populate_lines-Restored (line ∷ lines) ms s {t} h r =
      let e = populate_line-mount_of line s in
      elim (Option-cases (mount_of line)) [
        | inl skipped ↦
            let same : populate_line os w line s ≡ some s = e ∙ rw skipped refl in
            rw (skipped, mounts_from)
              (populate_lines-Restored lines ms s (rw (same, populate_lines) at h) r)
        | inr (m, found) ↦
            let round : populate_line os w line s ≡ restores m s = e ∙ rw found refl in
            rw (found, mounts_from)
              (elim (Option-cases (restores m s)) [
                | inl refused ↦ absurd (none-ne-some (rw (round ∙ refused, populate_lines) at h))
                | inr (u, stepped) ↦
                    populate_lines-Restored lines (m ∷ ms) u
                      (rw (round ∙ stepped, populate_lines) at h) (next m r stepped)
              ])
      ]
    where
      none-ne-some : none ≡ some t → ⊥
      none-ne-some q = cc

  -- When `PopulateFromMounts` on an empty database returns, the database is valid, and for each
  -- package there is a version `v`, 0 or more, such that no mount of the package in /proc/mounts
  -- has a version above `v`, and either `v` is 0 and no entry of the package is marked as the
  -- latest, or exactly one is, at the path of a mount of the package with version `v`.
  pub populate_from_mounts-Newest :
      (lines : List Text) (pkg : Text) (db : Database)
      → populate_from_mounts os w lines [] ≡ some db
      → (vs : Versions) × Newest pkg (mounts_from [] lines) (db, vs)
  unfolding populate_from_mounts
  populate_from_mounts-Newest lines pkg db h =
      elim (Option-cases (populate_lines os w lines ([], []))) [
        | inl refused ↦ ground arith
        | inr ((db', vs), found) ↦
            let q : db' ≡ db = ground arith in
            (
              vs,
              subst (λ d. Newest pkg (mounts_from [] lines) (d, vs)) q
                  (Restored-Newest pkg (populate_lines-Restored lines [] ([], []) found started)),
            )
      ]

set_latest_in-Inserted :
    {d : MountedApexData} {l : Bool} {m m' : PackageMap}
    → Inserted (d, l) m m'
    → (r : PackageMap) × (set_latest_in d.full_path m' ≡ some r)
unfolding set_latest_in
set_latest_in-Inserted {d} (here xs) = ((d, true) ∷ reset xs, rw (text_eq_refl d.full_path) refl)
set_latest_in-Inserted {d} (there (x, l') {ys = ys} i) =
    let (r, found) = set_latest_in-Inserted i in
    elim (Bool-cases (text_eq x.full_path d.full_path)) [
      | inl e ↦ ((x, true) ∷ reset ys, rw e refl)
      | inr e ↦ ((x, false) ∷ r, rw (e, found) refl)
    ]

set_latest_returns :
    (m : Mount) (db : Database) (old : PackageMap)
    → Inserted (m.mounted, false) old (package_map m.pkg db)
    → set_latest m.pkg m.mounted.full_path db ≡ none
    → ⊥
unfolding set_latest set_latest_in
set_latest_returns m db old i h =
    let (r, found) = set_latest_in-Inserted i in
    elim (Option-cases (find m.pkg db)) [ inl missing ↦ ground arith | inr (n, e) ↦ ground arith ]

restore_added :
    (m : Mount) (db : Database) (vs : Versions) {t : Database × Versions}
    → restores m (db, vs) ≡ some t
    → (db' : Database) × (add_mounted_apex m.pkg false m.mounted db ≡ some db')
unfolding restore
restore_added m db vs h = ground arith

restore_returns :
    (m : Mount) (db : Database) (vs : Versions) (db' : Database)
    → add_mounted_apex m.pkg false m.mounted db ≡ some db'
    → (t : Database × Versions) × (restores m (db, vs) ≡ some t)
unfolding restore
restore_returns m db vs db' added =
    let (_, inserted) = add_mounted_apex_self m.pkg m.mounted db db' added in
    elim (Option-cases (set_latest m.pkg m.mounted.full_path db')) [
      | inl refused ↦ absurd (set_latest_returns m db' _ inserted refused)
      | inr (db'', set) ↦ elim (Bool-cases (ltb_ℤ (active_version m.pkg vs) m.version)) [
        | inl newer ↦ ((db'', (m.pkg, m.version) ∷ vs), ground arith)
        | inr older ↦ ((db', vs), ground arith)
      ]
    ]

-- On a valid database a round of the loop aborts exactly when the mount's entry cannot be added:
-- marking it as the latest never does.
pub restore_iff :
    (m : Mount) (db : Database) (vs : Versions)
    → IsValid db
    → ((t : Database × Versions) × (restores m (db, vs) ≡ some t)) ↔ CanAdd m.pkg m.mounted db
restore_iff m db vs v = (
  λ (t, h). (add_mounted_apex_iff m.pkg m.mounted db v).0 (restore_added m db vs h),
  λ c.
      let (db', added) = (add_mounted_apex_iff m.pkg m.mounted db v).1 c in
      restore_returns m db vs db' added,
)
