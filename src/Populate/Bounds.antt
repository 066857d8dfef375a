-- ===== src/Populate/Bounds.antt =====
-- `PopulateFromMounts` (apexd/apex_database.cpp) reads the version of a package, a number of 64
-- bits, from the name of its mount point into an int.
use android_system_apex.Common.{
  ℕ, ℤ, pos, negsuc, ltb_ℤ, ◌<◌, ◌^◌, ltb, if◌then◌else◌, ◌≡◌, Bool, true, false, Option, none,
  some, [], ◌∷◌, arith, Text, text_lt_irrefl, text_eq_refl, contains_byte, to_string, Bool-cases,
  inl, inr,
}
use android_system_apex.Manifest.{ApexManifest, get_package_mount_point}
use android_system_apex.OrdMap.{find, emplace, update, is_new}
use android_system_apex.Database.Entry.{MountedApexData, text_order}
use android_system_apex.Database.{
  Database, add_mounted_apex, set_latest, set_latest_in, check_at_most_one_latest,
  check_unique_loop_dm, latest_count, entries,
}
use android_system_apex.Populate.{Versions, parse_mount_point, restore, active_version}
use android_system_apex.Populate.Names.{parse_mount_point-name}

abbrev single : Text → MountedApexData → Bool → Database
single pkg mounted latest = (pkg, (mounted, latest) ∷ []) ∷ []

add_first :
    (pkg : Text) (mounted : MountedApexData)
    → add_mounted_apex pkg false mounted [] ≡ some (single pkg mounted false)
unfolding add_mounted_apex check_at_most_one_latest check_unique_loop_dm latest_count entries
    emplace is_new update find
add_first pkg mounted = ground (arith, text_lt_irrefl pkg)

mark_first :
    (pkg : Text) (mounted : MountedApexData)
    → set_latest pkg mounted.full_path (single pkg mounted false) ≡ some (single pkg mounted true)
unfolding set_latest set_latest_in update find
mark_first pkg mounted = ground (arith, text_lt_irrefl pkg, text_eq_refl mounted.full_path)

restore_first :
    (pkg : Text) (version : ℤ) (mounted : MountedApexData)
    → (vs : Versions) × (restore pkg version mounted ([], [])
        ≡ some (single pkg mounted (ltb_ℤ (pos 0) version), vs))
unfolding restore active_version
restore_first pkg version mounted = elim (Bool-cases (ltb_ℤ (pos 0) version)) [
  | inl newer ↦ ((pkg, version) ∷ [], ground (arith, add_first pkg mounted, mark_first pkg mounted))
  | inr older ↦ ([], ground (arith, add_first pkg mounted))
]

-- The version of a package, which is a number of 64 bits, is read with an `int`: for a package
-- name with no `/` and no `@` and a version `n` above 0, where `ParseInt` reads the text of `n`
-- exactly when `n` is below 2^31, restoring the package from its own mount point into an empty
-- database adds its one entry, and marks it as the latest exactly when `n` is below 2^31.
pub restore-parse_mount_point_bounds :
    (parse_int : Text → Option ℤ) (m : ApexManifest) (n : ℕ) (mounted : MountedApexData)
    → contains_byte b'/' m.name ≡ false
    → contains_byte b'@' m.name ≡ false
    → m.version ≡ pos n
    → 0 < n
    → parse_int (to_string (pos n)) ≡ (if ltb n (2 ^ 31) then some (pos n) else none)
    → let (pkg, version) = parse_mount_point parse_int (get_package_mount_point m) in
      (vs : Versions) × (restore pkg version mounted ([], [])
        ≡ some ((m.name, (mounted, ltb n (2 ^ 31)) ∷ []) ∷ [], vs))
restore-parse_mount_point_bounds parse_int m n mounted slash at_sign whole above reads =
    rw (parse_mount_point-name parse_int m slash at_sign, whole, reads)
      (elim (Bool-cases (ltb n (2 ^ 31))) [
        | inl fits ↦ let (vs, e) = restore_first m.name (pos n) mounted in (vs, ground (arith, e))
        | inr wide ↦
            let (vs, e) = restore_first m.name (negsuc 0) mounted in (vs, ground (arith, e))
      ])
