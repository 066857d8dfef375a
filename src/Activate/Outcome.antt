-- ===== src/Activate/Outcome.antt =====
-- apexd/apexd.cpp: what a package that was activated leaves in the database of mounted packages.
use android_system_apex.Common.{
  Bool, true, false, not, ◌&&◌, ◌≡◌, ◌≢◌, ◌∙◌, refl, sym, subst, ap, inl, inr, ◌⊎◌, Text, arith,
  some, done, Option-cases, Bool-cases, to_u64,
}
use android_system_apex.Os.{Os}
use android_system_apex.Config.{Config}
use android_system_apex.Manifest.{get_package_mount_point, get_active_mount_point}
use android_system_apex.ApexFile.{ApexFile}
use android_system_apex.OrdMap.{find}
use android_system_apex.Database.Entry.{MountedApexData, text_order}
use android_system_apex.Database.Latest.{MarksOnly, set_latest_self, set_latest_others}
use android_system_apex.Database.Add.{add_mounted_apex_others}
use android_system_apex.Database.{
  add_mounted_apex, PackageMap, Database, latest_count, package_map, set_latest,
}
use android_system_apex.Daemon.{Daemon}
use android_system_apex.Mount.Bind.{bind_mount, mounted_apexes-bind_mount}
use android_system_apex.Mount.Outcome.{MountOf, mount_package_outcome}
use android_system_apex.Activate.{
  Found, look_for_version, is_bootstrap_apex, mount_unless, make_latest, activate_version,
  activate_package_impl,
}

module _ {W : Type 0} (os : Os W) (config : Config) (apex : ApexFile) where
  -- Packages of other names are as they were.
  abbrev pub OthersKept : Database → Database → Type 0
  OthersKept db db' = (other : Text) → other ≢ apex.manifest.name → find other db' ≡ find other db

  -- One entry of the package is the latest, at the path of the file.
  abbrev pub IsLatest : Database → Type 0
  IsLatest db =
      let m : PackageMap = package_map apex.manifest.name db in
      (latest_count m ≡ 1) × MarksOnly apex.apex_path m

  -- The package is mounted, and no mark has changed: it was mounted before, and the database is the
  -- same, or AddMountedApex has added one entry, which is not the latest, for the file at the
  -- package's own mount point.
  abbrev pub MountedOnly : Bool → Database → Database → Type 0
  MountedOnly found db db' =
      ((found ≡ true) × (db' ≡ db))
      ⊎ ((found ≡ false)
          × (mounted : MountedApexData) × MountOf apex (get_package_mount_point apex.manifest)
              mounted
          × (add_mounted_apex apex.manifest.name false mounted db ≡ some db'))

  mount_unless-MountedOnly :
      (b : Bool) (d : Daemon W)
      → (mount_unless os config b apex d).0 ≡ done tt
      → MountedOnly b d.mounted_apexes (mount_unless os config b apex d).1.mounted_apexes
  unfolding mount_unless
  mount_unless-MountedOnly true d h = inl (refl, refl)
  mount_unless-MountedOnly false d h =
      let point = get_package_mount_point apex.manifest in
      elim (mount_package_outcome os config apex point d) [
        | inl (mounted, _, of, added) ↦ inr (refl, mounted, of, added)
        | inr (inl (e, failed', same)) ↦ absurd (ground arith)
        | inr (inr (aborted', same)) ↦ absurd (ground arith)
      ]

  MountedOnly-OthersKept : (b : Bool) (db db' : Database) → MountedOnly b db db' → OthersKept db db'
  MountedOnly-OthersKept b db db' (inl (found, same)) other ne = ap (find other) same
  MountedOnly-OthersKept b db db' (inr (new, mounted, of, added)) other ne =
      add_mounted_apex_others apex.manifest.name mounted db other db' added ne

  make_latest_outcome :
      (d : Daemon W)
      → (make_latest os config true apex d).0 ≡ done tt
      → let after : Daemon W = (make_latest os config true apex d).1 in
        IsLatest after.mounted_apexes × OthersKept d.mounted_apexes after.mounted_apexes
  unfolding make_latest
  make_latest_outcome d h =
      let pkg = apex.manifest.name in
      let target = get_active_mount_point apex.manifest in
      let source = get_package_mount_point apex.manifest in
      let same = mounted_apexes-bind_mount os target source d in
      let (r, d') = bind_mount os target source d in
      elim (Option-cases (set_latest pkg apex.apex_path d'.mounted_apexes)) [
        | inl refused ↦ absurd (ground arith)
        | inr (db, set) ↦
            let after = (make_latest os config true apex d).1 in
            let e : after.mounted_apexes ≡ db = ground arith in
            let (one, _, only) = set_latest_self pkg apex.apex_path d'.mounted_apexes db set in
            subst (λ x. IsLatest x × OthersKept d.mounted_apexes x) (sym e)
              (
                (one, only),
                λ other ne.
                    set_latest_others pkg apex.apex_path other d'.mounted_apexes db set ne
                    ∙ ap (find other) same,
              )
      ]

  abbrev pub found_for : Daemon W → Found
  found_for d =
      look_for_version os (to_u64 apex.manifest.version)
        (package_map apex.manifest.name d.mounted_apexes) d.world

  -- The package is left to another phase of the boot.
  abbrev pub NotNow : Daemon W → Type 0
  NotNow d =
      ((d.bootstrap ≡ true) × (is_bootstrap_apex apex ≡ false))
      ⊎ ((config.updatable ≡ false) × (d.bootstrap ≡ false) × (is_bootstrap_apex apex ≡ true))

  -- The ways in which an activation succeeds.
  abbrev pub Activated : Daemon W → Daemon W → Type 0
  Activated d after =
      ((NotNow d ⊎ ((found_for d).version_found_active ≡ true)) × (after ≡ d))
      ⊎ (((found_for d).is_newest_version ≡ true)
          × IsLatest after.mounted_apexes
          × OthersKept d.mounted_apexes after.mounted_apexes)
      ⊎ (((found_for d).is_newest_version ≡ false)
          × MountedOnly (found_for d).version_found_mounted d.mounted_apexes after.mounted_apexes
          × OthersKept d.mounted_apexes after.mounted_apexes)

  activate_version_outcome :
      (d : Daemon W)
      → (activate_version os config apex d).0 ≡ done tt
      → Activated d (activate_version os config apex d).1
  unfolding activate_version make_latest
  activate_version_outcome d h =
      let f = found_for d in
      elim (Bool-cases f.version_found_active) [
        | inl active ↦ inl (inr active, ground arith)
        | inr inactive ↦
            let (r, d') = mount_unless os config f.version_found_mounted apex d in
            let mounts : r ≡ done tt = ground arith in
            let only = mount_unless-MountedOnly f.version_found_mounted d mounts in
            let kept =
              MountedOnly-OthersKept f.version_found_mounted d.mounted_apexes d'.mounted_apexes
                only in
            elim (Bool-cases f.is_newest_version) [
              | inr older ↦
                  let e : (activate_version os config apex d).1 ≡ d' = ground arith in
                  inr (inr (older, rw e only, rw e kept))
              | inl newer ↦
                  let made : (make_latest os config true apex d').0 ≡ done tt = ground arith in
                  let e : (activate_version os config apex d).1
                      ≡ (make_latest os config true apex d').1 =
                    ground arith in
                  let (latest, others) = make_latest_outcome d' made in
                  inr (inl (newer, rw e latest, λ other ne. rw e (others other ne ∙ kept other ne)))
            ]
      ]

  pub activate_package_impl_outcome :
      (d : Daemon W)
      → (activate_package_impl os config apex d).0 ≡ done tt
      → Activated d (activate_package_impl os config apex d).1
  unfolding activate_package_impl
  activate_package_impl_outcome d h =
      elim (Bool-cases (d.bootstrap && not (is_bootstrap_apex apex))) [
        | inl early ↦ inl (inl (inl (ground arith, ground arith)), ground arith)
        | inr e ↦
            elim (Bool-cases
              (not config.updatable && (not d.bootstrap && is_bootstrap_apex apex))) [
                | inl late ↦
                    inl (inl (inr (ground arith, ground arith, ground arith)), ground arith)
                | inr e' ↦
                    let ran : (activate_version os config apex d).0 ≡ done tt = ground arith in
                    let same : (activate_package_impl os config apex d).1
                        ≡ (activate_version os config apex d).1 =
                      ground arith in
                    rw same (activate_version_outcome d ran)
              ]
      ]
