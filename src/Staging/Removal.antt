-- ===== src/Staging/Removal.antt =====
-- What `RemovePreviouslyActiveApexFiles` and `unstagePackages` (apexd/apexd.cpp) leave alone.
use android_system_apex.Common.{
  ◌≡◌, inl, inr, refl, sym, subst, true, false, not, ◌&&◌, Option, List, [], ◌∷◌, arith, Text,
  text_eq, text_eq_iff, Any, cannot_access, StatusOr-cases, Bool-cases, failed,
}
use android_system_apex.Os.{Os, is_success}
use android_system_apex.ApexFile.{open_apex, find_apex_files_by_name}
use android_system_apex.Paths.{active_apex_packages_data_dir}
use android_system_apex.Daemon.{Daemon}
use android_system_apex.Staging.{
  contains, remove_previous, remove_previously_active_apex_files, unstage_packages,
  any_inaccessible,
}
use android_system_apex.Staging.Files.{IsFileSystem}

contains_ne :
    (a p : Text) (keep : List Text)
    → contains p keep ≡ true
    → contains a keep ≡ false
    → text_eq a p ≡ false
contains_ne a p keep kept other = elim (Bool-cases (text_eq a p)) [
  | inr e ↦ e
  | inl same ↦
      let kept' : contains a keep ≡ true =
        subst (λ x. contains x keep ≡ true) (sym ((text_eq_iff a p).0 same)) kept in
      absurd (ground arith)
]

module _ {W : Type 0} (os : Os W) (files : Text → W → Option Text) where
  remove_previous_keeps :
      (packages keep paths : List Text) (p : Text) (d : Daemon W)
      → IsFileSystem os files
      → contains p keep ≡ true
      → files p (remove_previous os packages keep paths d).1.world ≡ files p d.world
  unfolding remove_previous
  remove_previous_keeps packages keep [] p d laws kept = refl
  remove_previous_keeps packages keep (path ∷ paths) p d laws kept =
      elim (StatusOr-cases (open_apex os path d.world)) [
        | inr (e, refused) ↦ ground arith
        | inl (apex, opened) ↦
            elim (Bool-cases
              (contains apex.manifest.name packages && not (contains apex.apex_path keep))) [
                | inr stays ↦
                    ground (arith, remove_previous_keeps packages keep paths p d laws kept)
                | inl goes ↦
                    let d' : Daemon W = record d { world = (os.unlink apex.apex_path d.world).1 } in
                    ground (
                      arith,
                      remove_previous_keeps packages keep paths p d laws kept,
                      remove_previous_keeps packages keep paths p d' laws kept,
                      laws.unlink_ok apex.apex_path p d.world,
                      laws.unlink_fail apex.apex_path p d.world,
                      contains_ne apex.apex_path p keep kept,
                    )
              ]
      ]

  -- Where `unlink` takes away the name that it is given and no other, and nothing when it fails:
  -- `RemovePreviouslyActiveApexFiles` leaves every file that it is to keep as it was, whether it
  -- succeeds or fails.
  pub remove_previously_active_apex_files_keeps :
      (packages keep : List Text) (p : Text) (d : Daemon W)
      → IsFileSystem os files
      → contains p keep ≡ true
      → files p (remove_previously_active_apex_files os packages keep d).1.world ≡ files p d.world
  unfolding remove_previously_active_apex_files
  remove_previously_active_apex_files_keeps packages keep p d laws kept =
      elim (StatusOr-cases
        (find_apex_files_by_name os active_apex_packages_data_dir false d.world)) [
          | inr (e, refused) ↦ ground arith
          | inl (paths, found) ↦
              ground (arith, remove_previous_keeps packages keep paths p d laws kept)
        ]

module _ {W : Type 0} (os : Os W) where
  any_inaccessible-Any :
      (paths : List Text) (w : W)
      → Any (λ p. is_success (os.access p w) ≡ false) paths
      → any_inaccessible os paths w ≡ true
  unfolding any_inaccessible
  any_inaccessible-Any [] w h = absurd h
  any_inaccessible-Any (path ∷ paths) w (inl h) = ground arith
  any_inaccessible-Any (path ∷ paths) w (inr h) = ground (arith, any_inaccessible-Any paths w h)

  -- When one of the packages cannot be accessed, `unstagePackages` fails and changes nothing.
  pub unstage_packages_inaccessible :
      (paths : List Text) (d : Daemon W)
      → Any (λ p. is_success (os.access p d.world) ≡ false) paths
      → unstage_packages os paths d ≡ (failed cannot_access, d)
  unfolding unstage_packages
  unstage_packages_inaccessible [] d h = absurd h
  unstage_packages_inaccessible (path ∷ paths) d h =
      rw (any_inaccessible-Any (path ∷ paths) d.world h, unstage_packages) refl
