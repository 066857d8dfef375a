-- ===== src/Main/Running.antt =====
-- apexd/apexd_main.cpp with apexd/apexservice.cpp: the states of a daemon that runs. The thread of
-- `main` waits for the boot while threads of the pool answer requests; each request and each wait
-- is one step, and between steps other processes do to the world what they want.
use android_system_apex.Common.{ℕ, ◌≡◌, Option, List, [], Text, Bool, Action}
use android_system_apex.Os.{Os}
use android_system_apex.Config.{Config}
use android_system_apex.Database.Invariant.{IsValid}
use android_system_apex.Database.Reachable.{created, Reachable-IsValid}
use android_system_apex.Daemon.{Daemon, VoldCheckpoint}
use android_system_apex.Mount.Valid.{moved}
use android_system_apex.Activate.Dangling.{unmount_dangling_mounts, unmount_dangling_mounts-IsValid}
use android_system_apex.Rollback.{rollback_active_session_and_reboot}
use android_system_apex.Rollback.Frame.{mounted_apexes-rollback_active_session_and_reboot}
use android_system_apex.Lifecycle.{on_all_packages_ready}
use android_system_apex.Startup.{on_start}
use android_system_apex.Startup.Valid.{on_start-IsValid}
use android_system_apex.Boot.{wait_for_boot_status}
use android_system_apex.Boot.Valid.{wait_for_boot_status-IsValid}
use android_system_apex.Service.{Binder}
use android_system_apex.Service.Requests.{Request, answer}
use android_system_apex.Service.Requests.Valid.{answer-IsValid}

module _ {W : Type 0} (os : Os W) (config : Config) (binder : Binder) where
  -- What `main` waits with.
  abbrev pub wait : ℕ → Action (Daemon W) Bool
  wait rounds =
      wait_for_boot_status os rounds (rollback_active_session_and_reboot os)
        (unmount_dangling_mounts os)

  -- The states that a daemon comes to, whose database was empty when it started. A step that ends
  -- the process leaves the last state.
  pub data Running : Daemon W → Type 0 where
    started :
        (service : Option VoldCheckpoint) (mounts : List Text) (d : Daemon W)
        → d.mounted_apexes ≡ []
        → Running (on_start os config service mounts d).1
    ready : {d : Daemon W} → Running d → Running (on_all_packages_ready os d).1
    waited : (rounds : ℕ) {d : Daemon W} → Running d → Running (wait rounds d).1
    answered :
        (request : Request) {d : Daemon W}
        → Running d
        → Running (answer os config binder request d).1
    moved_on : (w : W) {d : Daemon W} → Running d → Running (record d { world = w })

  -- In every state that a running daemon comes to, whatever its clients ask for, the kernel answers
  -- and other processes do, each package has at most one latest entry, and no two mounted packages
  -- share a loop device or a dm-verity device.
  pub Running-IsValid : {d : Daemon W} → Running d → IsValid d.mounted_apexes
  unfolding on_all_packages_ready
  Running-IsValid (started service mounts d empty) =
      on_start-IsValid os config service mounts d (moved empty (Reachable-IsValid created))
  Running-IsValid (ready {d} r) = Running-IsValid r
  Running-IsValid (waited rounds {d} r) =
      wait_for_boot_status-IsValid os (rollback_active_session_and_reboot os)
        (unmount_dangling_mounts os)
        (λ d' v. moved (mounted_apexes-rollback_active_session_and_reboot os d') v)
        (unmount_dangling_mounts-IsValid os) rounds d (Running-IsValid r)
  Running-IsValid (answered request {d} r) =
      answer-IsValid os config binder request d (Running-IsValid r)
  Running-IsValid (moved_on w {d} r) = Running-IsValid r
