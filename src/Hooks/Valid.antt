-- ===== src/Hooks/Valid.antt =====
-- apexd/apexd_prepostinstall.cpp: the mounts made for the hooks and their removal, against the
-- invariant of the database of mounted packages.
use android_system_apex.Common.{
  Bool, true, false, ◌≡◌, refl, inl, inr, none, some, List, [], ◌∷◌, ◌++◌, Text, Status, arith, ok,
  fail, StatusOr-cases, Outcome-cases, map, codes,
}
use android_system_apex.Os.{Os}
use android_system_apex.Config.{Config, mkdir_mode}
use android_system_apex.Manifest.{get_package_mount_point, get_active_mount_point}
use android_system_apex.ApexFile.{ApexFile}
use android_system_apex.Database.Invariant.{IsValid}
use android_system_apex.Process.Frame.{mounted_apexes-fork_and_run}
use android_system_apex.Daemon.{Daemon}
use android_system_apex.Mount.Valid.{moved, mount_package-IsValid, unmount_package-IsValid}
use android_system_apex.Mount.{unmount_package, is_mounted}
use android_system_apex.Hooks.{
  Hook, Prepared, hook_file, without_hook, argument, mount_if_needed, note_mount, prepare,
  unmount_all, remove_dirs, run_hook, stage_fn_install, pre_postinstall_packages, open_packages,
  install_hook_packages,
}

module _ {W : Type 0} (os : Os W) (config : Config) where
  mount_if_needed-IsValid :
      (b : Bool) (apex : ApexFile) (d : Daemon W)
      → IsValid d.mounted_apexes
      → IsValid (mount_if_needed os config b apex d).1.mounted_apexes
  unfolding mount_if_needed
  mount_if_needed-IsValid true apex d v = v
  mount_if_needed-IsValid false apex d v =
      mount_package-IsValid os config apex (get_package_mount_point apex.manifest) d v

  prepare-IsValid :
      (apexes : List ApexFile) (p : Prepared) (d : Daemon W)
      → IsValid d.mounted_apexes
      → IsValid (prepare os config apexes p d).1.mounted_apexes
  unfolding prepare
  prepare-IsValid [] p d v = v
  prepare-IsValid (apex ∷ apexes) p d v =
      let already = is_mounted os apex.manifest.name apex.apex_path d.mounted_apexes in
      let active = get_active_mount_point apex.manifest in
      let p' = note_mount os config already apex p in
      let d1 = (mount_if_needed os config already apex d).1 in
      let v1 = mount_if_needed-IsValid already apex d v in
      let d2 = record d1 { world = (os.mkdir active mkdir_mode d1.world).1 } in
      ground (
        arith,
        v1,
        prepare-IsValid apexes p' d2 v1,
        prepare-IsValid apexes (record p' { dirs = p'.dirs ++ (active ∷ []) }) d2 v1,
      )

  unmount_all-IsValid :
      (fs : List ApexFile) (d : Daemon W)
      → IsValid d.mounted_apexes
      → IsValid (unmount_all os config fs d).1.mounted_apexes
  unfolding unmount_all
  unmount_all-IsValid [] d v = v
  unmount_all-IsValid (f ∷ fs) d v =
      let v' = unmount_package-IsValid os f false d v in
      ground (arith, v', unmount_all-IsValid fs (unmount_package os f false d).1 v')

  mounted_apexes-remove_dirs :
      (dirs : List Text) (d : Daemon W)
      → (remove_dirs os config dirs d).1.mounted_apexes ≡ d.mounted_apexes
  unfolding remove_dirs
  mounted_apexes-remove_dirs [] d = refl
  mounted_apexes-remove_dirs (dir ∷ dirs) d = grind (arith, mounted_apexes-remove_dirs dirs)

  mounted_apexes-run_hook :
      (status : Status) (args : List Text) (d : Daemon W)
      → (run_hook os config status args d).1.mounted_apexes ≡ d.mounted_apexes
  unfolding run_hook
  mounted_apexes-run_hook (fail e) args d = refl
  mounted_apexes-run_hook (ok _) args d = ground (arith, mounted_apexes-fork_and_run os args d)

  -- After the hook has run, or was not run: what was mounted for it is unmounted.
  clean_up-IsValid :
      (p : Prepared) (d : Daemon W)
      → IsValid d.mounted_apexes
      → IsValid (unmount_all os config p.mounted d).1.mounted_apexes
        × IsValid
            (remove_dirs os config p.dirs (unmount_all os config p.mounted d).1).1.mounted_apexes
  clean_up-IsValid p d v =
      let v' = unmount_all-IsValid p.mounted d v in
      (v', moved (mounted_apexes-remove_dirs p.dirs (unmount_all os config p.mounted d).1) v')

  pub stage_fn_install-IsValid :
      (hook : Hook) (apexes : List ApexFile) (d : Daemon W)
      → IsValid d.mounted_apexes
      → IsValid (stage_fn_install os config hook apexes d).1.mounted_apexes
  unfolding stage_fn_install
  stage_fn_install-IsValid hook apexes d v =
      let start : Prepared = record { mounted = []; dirs = [] } in
      let (r, d1) = prepare os config apexes start d in
      let v1 = prepare-IsValid apexes start d v in
      elim (StatusOr-cases (hook_file hook none apexes)) [
        | inr e ↦ ground arith
        | inl (none, e) ↦ ground arith
        | inl (some f, e) ↦ elim (Outcome-cases r) [
          | inr e' ↦ ground (arith, v1)
          | inl ((p, prepared), e') ↦
              let others = map (λ (a : ApexFile). a.apex_path) (without_hook hook apexes) in
              let args = codes "/system/bin/apexd" ∷ argument hook ∷ f.apex_path ∷ others in
              let d2 = (run_hook os config prepared args d1).1 in
              let v2 = moved (mounted_apexes-run_hook prepared args d1) v1 in
              ground (arith, v2, clean_up-IsValid p d2 v2)
        ]
      ]

  pub pre_postinstall_packages-IsValid :
      (hook : Hook) (apexes : List ApexFile) (d : Daemon W)
      → IsValid d.mounted_apexes
      → IsValid (pre_postinstall_packages os config hook apexes d).1.mounted_apexes
  unfolding pre_postinstall_packages
  pre_postinstall_packages-IsValid hook [] d v = v
  pre_postinstall_packages-IsValid hook (f ∷ fs) d v =
      ground (arith, stage_fn_install-IsValid hook (f ∷ fs) d v)

  pub install_hook_packages-IsValid :
      (hook : Hook) (paths : List Text) (d : Daemon W)
      → IsValid d.mounted_apexes
      → IsValid (install_hook_packages os config hook paths d).1.mounted_apexes
  unfolding install_hook_packages
  install_hook_packages-IsValid hook [] d v = v
  install_hook_packages-IsValid hook (path ∷ paths) d v =
      elim (StatusOr-cases (open_packages os config (path ∷ paths) d.world)) [
        | inl (apexes, e) ↦ ground (arith, pre_postinstall_packages-IsValid hook apexes d v)
        | inr e ↦ ground arith
      ]
