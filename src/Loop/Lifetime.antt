-- ===== src/Loop/Lifetime.antt =====
-- apexd/apexd_loop.h and apexd/apexd_loop.cpp: who clears the device of a LoopbackDeviceUniqueFd.
use android_system_apex.Common.{◌≡◌, refl, arith, Action, done}
use android_system_apex.Common.Effects.{◌>>=◌, ◌>>◌}
use android_system_apex.Os.{Os}
use android_system_apex.Daemon.{Daemon}
use android_system_apex.Loop.{
  LoopbackDeviceUniqueFd, close_good, move_loop_device, assign_loop_device, maybe_close_bad,
}

module _ {W : Type 0} (os : Os W) where
  -- Both objects of a pair are destroyed, the first one first.
  abbrev pub close_both :
      LoopbackDeviceUniqueFd × LoopbackDeviceUniqueFd → Action (Daemon W) (Unit {0})
  close_both (a, b) = do maybe_close_bad os a; maybe_close_bad os b

  -- A LoopbackDeviceUniqueFd that was closed as good clears nothing. When one was moved from,
  -- destroying it and the new object clears what destroying it before did. When one was assigned to
  -- another, that one's former device is cleared at once, and destroying both clears the device
  -- that was moved.
  pub maybe_close_bad-moves :
      (target fd : LoopbackDeviceUniqueFd) (d : Daemon W)
      → (maybe_close_bad os (close_good fd) d ≡ (done tt, d))
        × (close_both (move_loop_device fd) d ≡ maybe_close_bad os fd d)
        × ((do both ← assign_loop_device os target fd; close_both both) d
            ≡ (do maybe_close_bad os target; maybe_close_bad os fd) d)
  maybe_close_bad-moves target fd d = (refl, ground arith, ground arith)
