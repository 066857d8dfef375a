-- ===== src/Devices/Frame.antt =====
-- apexd/apexd.cpp: verity devices beside the database of mounted packages.
use android_system_apex.Common.{
  ℕ, zero, suc, Bool, true, false, List, [], ◌∷◌, Text, ◌≡◌, refl, arith, inl, inr, Bool-cases,
  Option-cases,
}
use android_system_apex.Os.{Os, VerityTarget}
use android_system_apex.Daemon.{Daemon}
use android_system_apex.Devices.{
  WaitForDeviceMode, wait_tries, wait_for_device, delete_verity_device_at, delete_verity_device,
  delete_existing, create_verity_device, read_blocks, read_sizes, read_verity_device,
}

module _ {W : Type 0} (os : Os W) where
  mounted_apexes-wait_tries :
      (n : ℕ) (mode : WaitForDeviceMode) (device : Text) (d : Daemon W)
      → (wait_tries os n mode device d).1.mounted_apexes ≡ d.mounted_apexes
  unfolding wait_tries
  mounted_apexes-wait_tries zero mode device d = refl
  mounted_apexes-wait_tries (suc n) mode device d = grind (arith, mounted_apexes-wait_tries n)

  pub mounted_apexes-wait_for_device :
      (device : Text) (mode : WaitForDeviceMode) (d : Daemon W)
      → (wait_for_device os device mode d).1.mounted_apexes ≡ d.mounted_apexes
  unfolding wait_for_device
  mounted_apexes-wait_for_device device mode d = grind (arith, mounted_apexes-wait_tries)

  pub mounted_apexes-delete_verity_device_at :
      (name path : Text) (d : Daemon W)
      → (delete_verity_device_at os name path d).1.mounted_apexes ≡ d.mounted_apexes
  unfolding delete_verity_device_at
  mounted_apexes-delete_verity_device_at name path d = grind (arith, mounted_apexes-wait_for_device)

  pub mounted_apexes-delete_verity_device :
      (name : Text) (d : Daemon W)
      → (delete_verity_device os name d).1.mounted_apexes ≡ d.mounted_apexes
  unfolding delete_verity_device
  mounted_apexes-delete_verity_device name d = elim (Option-cases (os.dm_path name d.world)) [
    | inl e ↦ rw (e, delete_verity_device) refl
    | inr (p, e) ↦ rw (e, delete_verity_device) (mounted_apexes-delete_verity_device_at name p d)
  ]

  mounted_apexes-delete_existing :
      (b : Bool) (name : Text) (d : Daemon W)
      → (delete_existing os b name d).1.mounted_apexes ≡ d.mounted_apexes
  unfolding delete_existing
  mounted_apexes-delete_existing true name d = refl
  mounted_apexes-delete_existing false name d = grind (arith, mounted_apexes-delete_verity_device)

  pub mounted_apexes-create_verity_device :
      (name : Text) (table : VerityTarget) (d : Daemon W)
      → (create_verity_device os name table d).1.mounted_apexes ≡ d.mounted_apexes
  unfolding create_verity_device
  mounted_apexes-create_verity_device name table d =
      grind (arith, mounted_apexes-delete_existing, mounted_apexes-delete_verity_device_at)

  mounted_apexes-read_blocks :
      (device : Text) (sizes : List ℕ) (d : Daemon W)
      → (read_blocks os device sizes d).1.mounted_apexes ≡ d.mounted_apexes
  unfolding read_blocks
  mounted_apexes-read_blocks device [] d = refl
  mounted_apexes-read_blocks device (n ∷ sizes) d =
      grind (arith, mounted_apexes-read_blocks device sizes)

  pub mounted_apexes-read_verity_device :
      (device : Text) (size : ℕ) (d : Daemon W)
      → (read_verity_device os device size d).1.mounted_apexes ≡ d.mounted_apexes
  unfolding read_verity_device
  mounted_apexes-read_verity_device device size d = elim (Bool-cases (os.can_open device d.world)) [
    | inl e ↦ elim (Option-cases (read_sizes size size)) [
      | inl e' ↦ rw (e, e', read_verity_device) refl
      | inr (sizes, e') ↦ rw (e, e', read_verity_device) (mounted_apexes-read_blocks device sizes d)
    ]
    | inr e ↦ rw (e, read_verity_device) refl
  ]
