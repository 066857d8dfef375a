-- ===== src/Hooks/Child/Frame.antt =====
-- apexd/apexd_prepostinstall.cpp: the forked process, beside its copy of the database of mounted
-- packages.
use android_system_apex.Common.{
  ◌≡◌, inl, inr, List, [], ◌∷◌, Text, arith, StatusOr-cases, Outcome-cases,
}
use android_system_apex.Os.{Os}
use android_system_apex.Paths.{◌/+◌}
use android_system_apex.Manifest.{get_package_mount_point, get_active_mount_point}
use android_system_apex.ApexFile.{open_apex}
use android_system_apex.Daemon.{Daemon}
use android_system_apex.Mount.Bind.{mounted_apexes-bind_mount}
use android_system_apex.Hooks.{Hook}
use android_system_apex.Hooks.Child.{
  exit_with, bound, bind_fn, run_program, bind_others, bind_first, run_fn_install,
}

module _ {W : Type 0} (os : Os W) where
  mounted_apexes-bind_fn :
      (hook : Hook) (path : Text) (d : Daemon W)
      → (bind_fn os hook path d).1.mounted_apexes ≡ d.mounted_apexes
  unfolding bind_fn
  mounted_apexes-bind_fn hook path d = elim (StatusOr-cases (open_apex os path d.world)) [
    | inl (apex, e) ↦ ground (
      arith,
      mounted_apexes-bind_mount os (get_active_mount_point apex.manifest)
          (get_package_mount_point apex.manifest) d,
    )
    | inr e ↦ ground arith
  ]

  mounted_apexes-run_program :
      (path : Text) (d : Daemon W) → (run_program os path d).1.mounted_apexes ≡ d.mounted_apexes
  unfolding run_program
  mounted_apexes-run_program path d = ground arith

  mounted_apexes-bind_others :
      (hook : Hook) (hook_path : Text) (paths : List Text) (d : Daemon W)
      → (bind_others os hook hook_path paths d).1.mounted_apexes ≡ d.mounted_apexes
  unfolding bind_others
  mounted_apexes-bind_others hook hook_path [] d = mounted_apexes-run_program hook_path d
  mounted_apexes-bind_others hook hook_path (path ∷ paths) d =
      let d' = (bind_fn os hook path d).1 in
      ground (
        arith,
        mounted_apexes-bind_fn hook path d,
        mounted_apexes-bind_others hook hook_path paths d',
      )

  mounted_apexes-bind_first :
      (hook : Hook) (path : Text) (paths : List Text) (d : Daemon W)
      → (bind_first os hook path paths d).1.mounted_apexes ≡ d.mounted_apexes
  unfolding bind_first
  mounted_apexes-bind_first hook path paths d =
      let first = mounted_apexes-bind_fn hook path d in
      let (r, d') = bind_fn os hook path d in
      elim (Outcome-cases r) [
        | inr e ↦ ground (arith, first)
        | inl (exit_with code, e) ↦ ground (arith, first)
        | inl (bound active_point hook_name, e) ↦
            ground
              (arith, first, mounted_apexes-bind_others hook (active_point /+ hook_name) paths d')
      ]

  pub mounted_apexes-run_fn_install :
      (hook : Hook) (path : Text) (paths : List Text) (d : Daemon W)
      → (run_fn_install os hook path paths d).1.mounted_apexes ≡ d.mounted_apexes
  unfolding run_fn_install
  mounted_apexes-run_fn_install hook path paths d =
      let (r, w) = os.unshare d.world in
      let d' = record d { world = (os.make_private w).1 } in
      ground (arith, mounted_apexes-bind_first hook path paths d')
