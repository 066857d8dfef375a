-- ===== src/Devices/Lifetime.antt =====
-- apexd/apexd.cpp: who deletes the device of a DmVerityDevice.
use android_system_apex.Common.{◌≡◌, refl, arith, Action, done}
use android_system_apex.Common.Effects.{◌>>◌}
use android_system_apex.Os.{Os}
use android_system_apex.Daemon.{Daemon}
use android_system_apex.Devices.{
  DmVerityDevice, release, move_verity_device, assign_verity_device, destroy_verity_device,
}

module _ {W : Type 0} (os : Os W) where
  -- Both objects of a pair are destroyed, the first one first.
  abbrev pub destroy_both : DmVerityDevice × DmVerityDevice → Action (Daemon W) (Unit {0})
  destroy_both (a, b) = do destroy_verity_device os a; destroy_verity_device os b

  -- A DmVerityDevice that was released deletes nothing. When one was moved from, destroying it and
  -- the new object does what destroying it before did. When one was assigned to another, destroying
  -- both does the same: the device that the target held before is not deleted.
  pub destroy_verity_device-moves :
      (target device : DmVerityDevice) (d : Daemon W)
      → (destroy_verity_device os (release device) d ≡ (done tt, d))
        × (destroy_both (move_verity_device device) d ≡ destroy_verity_device os device d)
        × (destroy_both (assign_verity_device target device) d ≡ destroy_verity_device os device d)
  destroy_verity_device-moves target device d = (refl, ground arith, ground arith)
