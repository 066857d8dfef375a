-- ===== src/Populate/Names.antt =====
-- The names of mount points: `GetPackageMountPoint` and `GetActiveMountPoint`
-- (apexd/apexd.cpp) against `parseMountPoint` and `isActiveMountPoint` (apexd/apex_database.cpp).
use android_system_apex.Common.{
  ◌≡◌, refl, true, false, Option, none, some, [], ◌∷◌, ◌++◌, arith, Text, contains_byte, ℤ, negsuc,
  to_string, to_string-contains_byte, to_string-no_slash, inr,
}
use android_system_apex.Paths.{filename, parent_path, split, split_last, apex_root}
use android_system_apex.Paths.Laws.{
  filename-join, split-pair, split_last-append, contains_byte-append,
}
use android_system_apex.Manifest.{
  ApexManifest, get_package_id, get_package_mount_point, get_active_mount_point,
}
use android_system_apex.Populate.{parse_mount_point, is_active_mount_point}

package_id-no_slash :
    (m : ApexManifest)
    → contains_byte b'/' m.name ≡ false
    → contains_byte b'/' (get_package_id m) ≡ false
unfolding get_package_id
package_id-no_slash m h =
    contains_byte-append b'/' m.name (b'@' ∷ to_string m.version) h (to_string-no_slash m.version)

split-package_id :
    (m : ApexManifest)
    → contains_byte b'@' m.name ≡ false
    → split b'@' (get_package_id m) ≡ m.name ∷ to_string m.version ∷ []
unfolding get_package_id
split-package_id m h =
    split-pair b'@' m.name (to_string m.version) h
      (to_string-contains_byte b'@' m.version (inr (omega arith)))

contains_byte-mid : (p q : Text) → contains_byte b'@' (p ++ (b'@' ∷ q)) ≡ true
contains_byte-mid [] q = refl
contains_byte-mid (b ∷ p) q = ground (arith, contains_byte-mid p q)

module _ (parse_int : Text → Option ℤ) (m : ApexManifest) where
  filename-mount_point :
      contains_byte b'/' m.name ≡ false → filename (get_package_mount_point m) ≡ get_package_id m
  unfolding get_package_mount_point
  filename-mount_point h = filename-join apex_root (get_package_id m) (package_id-no_slash m h)

  split_last-mount_point :
      contains_byte b'/' m.name ≡ false
      → split_last b'/' (get_package_mount_point m) ≡ some (apex_root, get_package_id m)
  unfolding get_package_mount_point
  split_last-mount_point h =
      split_last-append b'/' apex_root (get_package_id m) (package_id-no_slash m h)

  mount_point_marked : contains_byte b'@' (get_package_mount_point m) ≡ true
  unfolding get_package_mount_point get_package_id
  mount_point_marked = contains_byte-mid m.name (to_string m.version)

  -- For a package name with no `/` and no `@`, and a version that `ParseInt` reads back from its
  -- decimal text, the name and the version that are read from the package's mount point are the
  -- package's own; the mount point lies directly in /apex and is not an active mount point, while
  -- the package's active mount point is one.
  pub parse_mount_point-get_package_mount_point :
      contains_byte b'/' m.name ≡ false
      → contains_byte b'@' m.name ≡ false
      → parse_int (to_string m.version) ≡ some m.version
      → (parse_mount_point parse_int (get_package_mount_point m) ≡ (m.name, m.version))
        × (parent_path (get_package_mount_point m) ≡ apex_root)
        × (is_active_mount_point (get_package_mount_point m) ≡ false)
        × (is_active_mount_point (get_active_mount_point m) ≡ true)
  unfolding parse_mount_point is_active_mount_point parent_path get_active_mount_point
  parse_mount_point-get_package_mount_point slash at_sign reads = (
    rw (filename-mount_point slash, split-package_id m at_sign, reads, parse_mount_point) refl,
    rw (split_last-mount_point slash, parent_path) refl,
    rw mount_point_marked refl,
    rw at_sign refl,
  )

  pub parse_mount_point-name :
      contains_byte b'/' m.name ≡ false
      → contains_byte b'@' m.name ≡ false
      → parse_mount_point parse_int (get_package_mount_point m)
        ≡ (m.name, elim (parse_int (to_string m.version)) [ none ↦ negsuc 0 | some v ↦ v ])
  unfolding parse_mount_point
  parse_mount_point-name slash at_sign =
      rw (filename-mount_point slash, split-package_id m at_sign, parse_mount_point) refl
