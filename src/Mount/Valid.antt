-- ===== src/Mount/Valid.antt =====
-- apexd/apexd.cpp and apexd/apexd_private.cpp: mounting and unmounting, against the invariant of
-- the database of mounted packages.
use android_system_apex.Common.{
  Bool, false, ◌≡◌, sym, subst, Option, some, inl, inr, Text, arith, Option-cases, Outcome-cases,
}
use android_system_apex.Os.{Os}
use android_system_apex.Config.{Config}
use android_system_apex.Manifest.{get_package_id, get_active_mount_point}
use android_system_apex.ApexFile.{ApexFile}
use android_system_apex.Database.Invariant.{IsValid, remove_mounted_apex-IsValid}
use android_system_apex.Database.Add.{add_mounted_apex_self}
use android_system_apex.Database.{Database, add_mounted_apex, remove_mounted_apex, package_map}
use android_system_apex.Daemon.{Daemon}
use android_system_apex.Mount.Frame.{
  mounted_apexes-mount_package_impl, mounted_apexes-unmount_latest, mounted_apexes-unmount,
}
use android_system_apex.Mount.{
  update_database, find_mounted, unmount_latest, unmount_package, mount_package_impl, mount_package,
}

pub update_database-IsValid :
    {W : Type 0} (f : Database → Option Database) (d : Daemon W)
    → ((db : Database) → f d.mounted_apexes ≡ some db → IsValid db)
    → IsValid d.mounted_apexes
    → IsValid (update_database f d).1.mounted_apexes
update_database-IsValid f d kept v = elim (Option-cases (f d.mounted_apexes)) [
  | inl e ↦ rw (e, update_database) v
  | inr (db, e) ↦ rw (e, update_database) (kept db e)
]

-- What leaves the database alone leaves it valid.
pub moved : {db db' : Database} → db' ≡ db → IsValid db → IsValid db'
moved e v = subst IsValid (sym e) v

module _ {W : Type 0} (os : Os W) where
  pub unmount_package-IsValid :
      (apex : ApexFile) (allow : Bool) (d : Daemon W)
      → IsValid d.mounted_apexes
      → IsValid (unmount_package os apex allow d).1.mounted_apexes
  unfolding unmount_package
  unmount_package-IsValid apex allow d v =
      let pkg = apex.manifest.name in
      let active = get_active_mount_point apex.manifest in
      elim (Option-cases (find_mounted apex.apex_path (package_map pkg d.mounted_apexes))) [
        | inl e ↦ ground arith
        | inr ((e, latest), h) ↦
            let d1 = (unmount_latest os latest allow active d).1 in
            let v1 = moved (mounted_apexes-unmount_latest os latest allow active d) v in
            let v2 = remove_mounted_apex-IsValid pkg apex.apex_path d1.mounted_apexes v1 in
            let removed = remove_mounted_apex pkg apex.apex_path d1.mounted_apexes in
            let last = mounted_apexes-unmount os e (record d1 { mounted_apexes = removed }) in
            ground (arith, v1, moved last v2)
      ]

  module _ (config : Config) where
    pub mount_package-IsValid :
        (apex : ApexFile) (mount_point : Text) (d : Daemon W)
        → IsValid d.mounted_apexes
        → IsValid (mount_package os config apex mount_point d).1.mounted_apexes
    unfolding mount_package
    mount_package-IsValid apex mount_point d v =
        let id = get_package_id apex.manifest in
        let pkg = apex.manifest.name in
        let (r, d') = mount_package_impl os config apex mount_point id false d in
        let v' =
          moved (mounted_apexes-mount_package_impl os config apex mount_point id false d) v in
        elim (Outcome-cases r) [
          | inl (mounted, e) ↦ ground (
            arith,
            update_database-IsValid (add_mounted_apex pkg false mounted) d'
                (λ db h. (add_mounted_apex_self pkg mounted d'.mounted_apexes db h).0) v',
          )
          | inr e ↦ ground (arith, v')
        ]
