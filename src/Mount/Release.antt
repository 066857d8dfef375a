-- ===== src/Mount/Release.antt =====
-- apexd/apexd.cpp: what a mount that fails gives back.
use android_system_apex.Common.{
  Bool, true, false, ◌≡◌, inl, inr, ◌⊎◌, Text, arith, Error, ok, Outcome, done, failed,
  Outcome-cases, Bool-cases,
}
use android_system_apex.Os.{Os, clr_fd}
use android_system_apex.Config.{Config, loop_device_setup_attempts}
use android_system_apex.ApexFile.{ApexFile, path_exists, read_dir}
use android_system_apex.Daemon.{Daemon}
use android_system_apex.Mount.{
  attempt_loop_device, verify_and_mount, mount_non_flattened, make_mount_point, is_empty_list,
  mount_package_impl,
}

module _ {W : Type 0} (os : Os W) (config : Config) (apex : ApexFile) where
  -- No loop device was set up, or clearing the one that was is the last thing done.
  abbrev pub LoopCleared : Daemon W → W → Type 0
  LoopCleared d w =
      let r : Outcome Text = (attempt_loop_device os config loop_device_setup_attempts apex d).0 in
      (config.updatable ≡ false)
      ⊎ ((e : Error) × (r ≡ failed e))
      ⊎ ((loop : Text) × (r ≡ done loop)
          × ((before : W) × (w ≡ (os.loop_request loop clr_fd before).1)))

  mount_non_flattened-LoopCleared :
      (mount_point device : Text) (verify : Bool) (d : Daemon W) (e : Error)
      → (mount_non_flattened os config apex mount_point device verify d).0 ≡ failed e
      → LoopCleared d (mount_non_flattened os config apex mount_point device verify d).1.world
  unfolding mount_non_flattened
  mount_non_flattened-LoopCleared mount_point device verify d e h =
      elim (Bool-cases config.updatable) [
        | inr off ↦ inl off
        | inl on ↦
            let (r, d') = attempt_loop_device os config loop_device_setup_attempts apex d in
            elim (Outcome-cases r) [
              | inr (inl (error, f)) ↦ inr (inl (error, f))
              | inr (inr f) ↦ absurd (ground arith)
              | inl (loop, f) ↦
                  let before =
                    (verify_and_mount os config apex mount_point device verify loop d').1 in
                  inr (inr (loop, f, (before.world, ground arith)))
            ]
      ]

  -- When a package that is not flattened cannot be mounted on a mount point that is there or was
  -- made, removing the mount point is the last thing done. Before it, either the mount point was
  -- found not to be empty, or the device is not updatable, or no loop device could be set up, or
  -- the last thing done was to clear the loop device that was.
  pub mount_package_impl_releases :
      (mount_point device : Text) (verify exists : Bool) (d made : Daemon W) (e : Error)
      → path_exists os mount_point d.world ≡ ok exists
      → make_mount_point os config exists mount_point d ≡ (done tt, made)
      → apex.is_flattened ≡ false
      → (mount_package_impl os config apex mount_point device verify d).0 ≡ failed e
      → (before : W) × ((mount_package_impl os config apex mount_point device verify d).1.world
          ≡ (os.rmdir mount_point before).1)
        × ((is_empty_list os config (read_dir os mount_point (λ _. true) made.world) ≡ false)
            ⊎ LoopCleared made before)
  unfolding mount_package_impl
  mount_package_impl_releases mount_point device verify exists d made e looked made_it image h =
      elim (Bool-cases (is_empty_list os config (read_dir os mount_point (λ _. true) made.world))) [
        | inr full ↦ (made.world, ground arith, inl full)
        | inl empty ↦
            let (r, d') = mount_non_flattened os config apex mount_point device verify made in
            let fails : r ≡ failed e = ground arith in
            (
              d'.world,
              ground arith,
              inr (mount_non_flattened-LoopCleared mount_point device verify made e fails),
            )
      ]
