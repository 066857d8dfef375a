-- ===== src/Process/Frame.antt =====
-- apexd/apexd_utils.h: child processes and waits, beside the database of mounted packages.
use android_system_apex.Common.{ℕ, zero, suc, ◌+◌, ◌/◌, ◌≡◌, refl, List, Text, arith}
use android_system_apex.Os.{Os}
use android_system_apex.Daemon.{Daemon}
use android_system_apex.Process.{wait_child, fork_and_run, wait_rounds, wait_for_file}

module _ {W : Type 0} (os : Os W) where
  pub mounted_apexes-fork_and_run :
      (args : List Text) (d : Daemon W)
      → (fork_and_run os args d).1.mounted_apexes ≡ d.mounted_apexes
  unfolding fork_and_run wait_child
  mounted_apexes-fork_and_run args d = ground arith

  mounted_apexes-wait_rounds :
      (fuel : ℕ) (timer : W) (path : Text) (timeout : ℕ) (d : Daemon W)
      → (wait_rounds os fuel timer path timeout d).1.mounted_apexes ≡ d.mounted_apexes
  unfolding wait_rounds
  mounted_apexes-wait_rounds zero timer path timeout d = refl
  mounted_apexes-wait_rounds (suc fuel) timer path timeout d =
      grind (arith, mounted_apexes-wait_rounds fuel)

  pub mounted_apexes-wait_for_file :
      (path : Text) (timeout : ℕ) (d : Daemon W)
      → (wait_for_file os path timeout d).1.mounted_apexes ≡ d.mounted_apexes
  unfolding wait_for_file
  mounted_apexes-wait_for_file path timeout d =
      mounted_apexes-wait_rounds (suc (timeout / 5 + 1)) d.world path timeout d
