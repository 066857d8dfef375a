-- ===== src/Activate/Dangling.antt =====
-- apexd/apexd.cpp: `unmountDanglingMounts`.
use android_system_apex.Common.{
  Bool, true, false, some, List, [], ◌∷◌, Text, starts_with, Action, ◌≡◌, refl, arith,
}
use android_system_apex.Common.Effects.{◌>>=◌, ◌>>◌, gets, skip, ignore}
use android_system_apex.Os.{Os}
use android_system_apex.Paths.{active_apex_packages_data_dir}
use android_system_apex.Database.Entry.{MountedApexData}
use android_system_apex.Database.{PackageMap, Database, remove_mounted_apex}
use android_system_apex.Daemon.{Daemon, call}
use android_system_apex.Database.Invariant.{IsValid, remove_mounted_apex-IsValid}
use android_system_apex.Mount.Frame.{mounted_apexes-unmount}
use android_system_apex.Mount.Valid.{moved}
use android_system_apex.Mount.{unmount, update_database}

module _ {W : Type 0} (os : Os W) where
  abbrev dangling_in :
      Text → PackageMap → List (Text × MountedApexData) → List (Text × MountedApexData)
  dangling_in pkg [] rest = rest
  dangling_in pkg ((d, true) ∷ m) rest = dangling_in pkg m rest
  dangling_in pkg ((d, false) ∷ m) rest = (pkg, d) ∷ dangling_in pkg m rest

  -- The mounts that are not the latest, in the order of their packages.
  danglings : Database → List (Text × MountedApexData)
  danglings [] = []
  danglings ((pkg, m) ∷ db) = dangling_in pkg m (danglings db)

  remove_old : Bool → Text → Action (Daemon W) (Unit {0})
  remove_old false path = skip
  remove_old true path = do call (os.unlink path); skip

  unmount_each : List (Text × MountedApexData) → Action (Daemon W) (Unit {0})
  unmount_each [] = skip
  unmount_each ((pkg, d) ∷ rest) = do
    update_database (λ m. some (remove_mounted_apex pkg d.full_path m))
    ignore (unmount os d)
    remove_old (starts_with d.full_path active_apex_packages_data_dir) d.full_path
    unmount_each rest

  -- `unmountDanglingMounts`.
  unfoldable pub unmount_dangling_mounts : Action (Daemon W) (Unit {0})
  unfolding danglings unmount_each remove_old
  unmount_dangling_mounts = do db ← gets (λ d. d.mounted_apexes); unmount_each (danglings db)

  mounted_apexes-remove_old :
      (b : Bool) (path : Text) (d : Daemon W)
      → (remove_old b path d).1.mounted_apexes ≡ d.mounted_apexes
  unfolding remove_old
  mounted_apexes-remove_old false path d = refl
  mounted_apexes-remove_old true path d = refl

  unmount_each-IsValid :
      (es : List (Text × MountedApexData)) (d : Daemon W)
      → IsValid d.mounted_apexes
      → IsValid (unmount_each es d).1.mounted_apexes
  unfolding unmount_each
  unmount_each-IsValid [] d v = v
  unmount_each-IsValid ((pkg, e) ∷ es) d v =
      let removed = remove_mounted_apex pkg e.full_path d.mounted_apexes in
      let d1 = record d { mounted_apexes = removed } in
      let v1 = remove_mounted_apex-IsValid pkg e.full_path d.mounted_apexes v in
      let d2 = (unmount os e d1).1 in
      let v2 = moved (mounted_apexes-unmount os e d1) v1 in
      let b = starts_with e.full_path active_apex_packages_data_dir in
      let d3 = (remove_old b e.full_path d2).1 in
      let v3 = moved (mounted_apexes-remove_old b e.full_path d2) v2 in
      ground (arith, v2, v3, unmount_each-IsValid es d3 v3)

  pub unmount_dangling_mounts-IsValid :
      (d : Daemon W)
      → IsValid d.mounted_apexes
      → IsValid (unmount_dangling_mounts d).1.mounted_apexes
  unfolding unmount_dangling_mounts
  unmount_dangling_mounts-IsValid d v = unmount_each-IsValid (danglings d.mounted_apexes) d v
