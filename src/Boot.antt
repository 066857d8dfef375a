-- ===== src/Boot.antt =====
-- apexd/apexd_prop.cpp: `waitForBootStatus`, which waits until a process of an updated package
-- crashes or the boot is completed.
pub mod Valid
pub mod Events
use android_system_apex.Common.{ℕ, zero, suc, Bool, true, false, codes, text_eq, ok, fail, Action}
use android_system_apex.Common.Effects.{◌>>=◌, ◌>>◌, pure, try_run}
use android_system_apex.Os.{Os}
use android_system_apex.Daemon.{Daemon, call, look}

module _ {W : Type 0} (os : Os W) where
  -- A wait of 30 seconds for the crash, and whether it was seen.
  abbrev pub wait_for_crash : W → Bool × W
  wait_for_crash = os.wait_for_property (codes "ro.init.updatable_crashing") (codes "1")

  abbrev pub boot_completed : W → Bool
  boot_completed w = text_eq (os.get_property (codes "sys.boot_completed") w) (codes "1")

  -- What is done about a crash.
  abbrev pub attempt_rollback : Action (Daemon W) (Unit {0}) → Action (Daemon W) Bool
  attempt_rollback rollback_fn = do
    status ← try_run rollback_fn
    elim status [ fail e ↦ pure true | ok _ ↦ do call (λ w. (tt, os.reboot w)); pure true ]

  -- `waitForBootStatus`, for a number of rounds; whether it has returned by then.
  unfoldable pub wait_for_boot_status :
      ℕ → Action (Daemon W) (Unit {0}) → Action (Daemon W) (Unit {0}) → Action (Daemon W) Bool
  wait_for_boot_status zero rollback_fn complete_fn = pure false
  wait_for_boot_status (suc rounds) rollback_fn complete_fn = do
    crashing ← call wait_for_crash
    elim crashing [
      | true ↦ attempt_rollback rollback_fn
      | false ↦ do
        completed ← look boot_completed
        elim completed [
          | true ↦ do complete_fn; pure true
          | false ↦ wait_for_boot_status rounds rollback_fn complete_fn
        ]
    ]
