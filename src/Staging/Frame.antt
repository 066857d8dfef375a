-- ===== src/Staging/Frame.antt =====
-- apexd/apexd.cpp: verifying and staging packages, beside the database of mounted packages, to
-- which a temporary mount is not added.
use android_system_apex.Common.{
  false, ◌≡◌, refl, inl, inr, List, [], ◌∷◌, Text, codes, Action, ℤ, arith, StatusOr-cases,
  Outcome-cases,
}
use android_system_apex.Os.{Os}
use android_system_apex.Config.{Config}
use android_system_apex.Paths.{apex_package_system_dir, active_apex_packages_data_dir, ◌/+◌}
use android_system_apex.ApexFile.{ApexFile, open_apex, find_apex_files_by_name}
use android_system_apex.Daemon.{Daemon, unlink_file, look_status}
use android_system_apex.Daemon.Frame.{mounted_apexes-for_each, mounted_apexes-create_dir_if_needed}
use android_system_apex.Mount.Frame.{mounted_apexes-run_verify_fn_inside_temp_mount}
use android_system_apex.Shim.{validate_update}
use android_system_apex.Common.Effects.{skip}
use android_system_apex.Hooks.{open_packages}
use android_system_apex.Staging.{
  remove_previous, remove_previously_active_apex_files, link_one, unlink_all, link_all,
  unstage_packages, validate_staging_shim_apex, verify_package_boot, verify_package_install,
  verify_packages, session_dir, verify_found, verify_session_dir, stage_necessary, stage_packages,
}

module _ {W : Type 0} (os : Os W) where
  mounted_apexes-remove_previous :
      (affected keep files : List Text) (d : Daemon W)
      → (remove_previous os affected keep files d).1.mounted_apexes ≡ d.mounted_apexes
  unfolding remove_previous
  mounted_apexes-remove_previous affected keep [] d = refl
  mounted_apexes-remove_previous affected keep (path ∷ paths) d =
      elim (StatusOr-cases (open_apex os path d.world)) [
        | inl (apex, e) ↦ grind (arith, mounted_apexes-remove_previous affected keep paths)
        | inr e ↦ ground arith
      ]

  mounted_apexes-remove_previously :
      (affected keep : List Text) (d : Daemon W)
      → (remove_previously_active_apex_files os affected keep d).1.mounted_apexes ≡ d.mounted_apexes
  unfolding remove_previously_active_apex_files
  mounted_apexes-remove_previously affected keep d =
      elim (StatusOr-cases
        (find_apex_files_by_name os active_apex_packages_data_dir false d.world)) [
          | inl (files, e) ↦ ground (arith, mounted_apexes-remove_previous affected keep files d)
          | inr e ↦ ground arith
        ]

  mounted_apexes-link_one :
      (path : Text) (staged : List Text × List Text) (d : Daemon W)
      → (link_one os path staged d).1.mounted_apexes ≡ d.mounted_apexes
  unfolding link_one
  mounted_apexes-link_one path staged d = elim (StatusOr-cases (open_apex os path d.world)) [
    | inl (apex, e) ↦ ground arith
    | inr e ↦ ground arith
  ]

  mounted_apexes-unlink_all :
      (paths : List Text) (d : Daemon W)
      → (unlink_all os paths d).1.mounted_apexes ≡ d.mounted_apexes
  unfolding unlink_all
  mounted_apexes-unlink_all [] d = refl
  mounted_apexes-unlink_all (path ∷ paths) d = grind (arith, mounted_apexes-unlink_all paths)

  mounted_apexes-link_all :
      (paths : List Text) (staged : List Text × List Text) (d : Daemon W)
      → (link_all os paths staged d).1.mounted_apexes ≡ d.mounted_apexes
  unfolding link_all
  mounted_apexes-link_all [] staged d = refl
  mounted_apexes-link_all (path ∷ paths) staged d =
      let (r, d') = link_one os path staged d in
      let first = mounted_apexes-link_one path staged d in
      elim (Outcome-cases r) [
        | inl (staged', e) ↦ ground (arith, first, mounted_apexes-link_all paths staged' d')
        | inr e ↦ ground (arith, first, mounted_apexes-unlink_all staged.0 d')
      ]

  pub mounted_apexes-unstage_packages :
      (paths : List Text) (d : Daemon W)
      → (unstage_packages os paths d).1.mounted_apexes ≡ d.mounted_apexes
  unfolding unstage_packages
  mounted_apexes-unstage_packages [] d = refl
  mounted_apexes-unstage_packages (path ∷ paths) d =
      ground
        (arith, mounted_apexes-for_each (unlink_file os) (path ∷ paths) d (λ x d'. ground arith))

  module _ (config : Config) where
    mounted_apexes-validate_staging_shim_apex :
        (to : ApexFile) (d : Daemon W)
        → (validate_staging_shim_apex os config to d).1.mounted_apexes ≡ d.mounted_apexes
    unfolding validate_staging_shim_apex
    mounted_apexes-validate_staging_shim_apex to d =
        elim (StatusOr-cases (
          open_apex os (apex_package_system_dir /+ codes "com.android.apex.cts.shim.apex")
            d.world)) [
              | inl (shim, e) ↦ ground (
                arith,
                mounted_apexes-run_verify_fn_inside_temp_mount os config shim
                    (λ path. look_status (λ w. validate_update os w path to.apex_path)) d
                    (λ p d'. refl),
              )
              | inr e ↦ ground arith
            ]

    pub mounted_apexes-verify_package_boot :
        (apex : ApexFile) (d : Daemon W)
        → (verify_package_boot os config apex d).1.mounted_apexes ≡ d.mounted_apexes
    unfolding verify_package_boot
    mounted_apexes-verify_package_boot apex d =
        ground (arith, mounted_apexes-validate_staging_shim_apex apex d)

    mounted_apexes-verify_package_install :
        (apex : ApexFile) (d : Daemon W)
        → (verify_package_install os config apex d).1.mounted_apexes ≡ d.mounted_apexes
    unfolding verify_package_install
    mounted_apexes-verify_package_install apex d =
        let d' = (verify_package_boot os config apex d).1 in
        ground (
          arith,
          mounted_apexes-verify_package_boot apex d,
          mounted_apexes-run_verify_fn_inside_temp_mount os config apex (λ _. skip) d'
              (λ p d'. refl),
        )

    mounted_apexes-verify_packages :
        (f : ApexFile → Action (Daemon W) (Unit {0})) (paths : List Text) (d : Daemon W)
        → ((x : ApexFile) (d : Daemon W) → (f x d).1.mounted_apexes ≡ d.mounted_apexes)
        → (verify_packages os config f paths d).1.mounted_apexes ≡ d.mounted_apexes
    unfolding verify_packages
    mounted_apexes-verify_packages f [] d h = refl
    mounted_apexes-verify_packages f (path ∷ paths) d h =
        elim (StatusOr-cases (open_packages os config (path ∷ paths) d.world)) [
          | inl (apexes, e) ↦ ground (arith, mounted_apexes-for_each f apexes d h)
          | inr e ↦ ground arith
        ]

    mounted_apexes-verify_found :
        (paths : List Text) (d : Daemon W)
        → (verify_found os config paths d).1.mounted_apexes ≡ d.mounted_apexes
    unfolding verify_found verify_packages
    mounted_apexes-verify_found [] d = refl
    mounted_apexes-verify_found (a ∷ b ∷ more) d = refl
    mounted_apexes-verify_found (a ∷ []) d = ground (
      arith,
      mounted_apexes-verify_packages (verify_package_install os config) (a ∷ []) d
          mounted_apexes-verify_package_install,
    )

    pub mounted_apexes-verify_session_dir :
        (session_id : ℤ) (d : Daemon W)
        → (verify_session_dir os config session_id d).1.mounted_apexes ≡ d.mounted_apexes
    unfolding verify_session_dir
    mounted_apexes-verify_session_dir session_id d =
        elim (StatusOr-cases
          (find_apex_files_by_name os (session_dir os config session_id) false d.world)) [
            | inl (scan, e) ↦ ground (arith, mounted_apexes-verify_found scan d)
            | inr e ↦ ground arith
          ]

    mounted_apexes-stage_necessary :
        (paths : List Text) (d : Daemon W)
        → (stage_necessary os config paths d).1.mounted_apexes ≡ d.mounted_apexes
    unfolding stage_necessary
    mounted_apexes-stage_necessary [] d = refl
    mounted_apexes-stage_necessary (path ∷ paths) d =
        let (r, d') = link_all os (path ∷ paths) ([], []) d in
        let first = mounted_apexes-link_all (path ∷ paths) ([], []) d in
        elim (Outcome-cases r) [
          | inl ((files, packages), e) ↦
              ground (arith, first, mounted_apexes-remove_previously packages files d')
          | inr e ↦ ground (arith, first)
        ]

    pub mounted_apexes-stage_packages :
        (paths : List Text) (d : Daemon W)
        → (stage_packages os config paths d).1.mounted_apexes ≡ d.mounted_apexes
    unfolding stage_packages
    mounted_apexes-stage_packages [] d = refl
    mounted_apexes-stage_packages (path ∷ paths) d =
        let first =
          mounted_apexes-verify_packages (verify_package_boot os config) (path ∷ paths) d
            mounted_apexes-verify_package_boot in
        grind (arith, first, mounted_apexes-create_dir_if_needed, mounted_apexes-stage_necessary)
