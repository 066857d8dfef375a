-- ===== src/Boot/Valid.antt =====
-- apexd/apexd_prop.cpp: the wait for the boot with its two callbacks, against the invariant of the
-- database of mounted packages.
use android_system_apex.Common.{ℕ, zero, suc, Action, arith}
use android_system_apex.Os.{Os}
use android_system_apex.Database.Invariant.{IsValid}
use android_system_apex.Daemon.{Daemon}
use android_system_apex.Boot.{wait_for_crash, wait_for_boot_status}

module _ {W : Type 0} (os : Os W) (rollback_fn complete_fn : Action (Daemon W) (Unit {0})) where
  pub wait_for_boot_status-IsValid :
      ((d : Daemon W) → IsValid d.mounted_apexes → IsValid (rollback_fn d).1.mounted_apexes)
      → ((d : Daemon W) → IsValid d.mounted_apexes → IsValid (complete_fn d).1.mounted_apexes)
      → (rounds : ℕ) (d : Daemon W) → IsValid d.mounted_apexes
      → IsValid (wait_for_boot_status os rounds rollback_fn complete_fn d).1.mounted_apexes
  unfolding wait_for_boot_status
  wait_for_boot_status-IsValid kr kc zero d v = v
  wait_for_boot_status-IsValid kr kc (suc rounds) d v =
      let d' = record d { world = (wait_for_crash os d.world).1 } in
      ground (arith, kr d' v, kc d' v, wait_for_boot_status-IsValid kr kc rounds d' v)
