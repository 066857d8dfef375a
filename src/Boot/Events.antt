-- ===== src/Boot/Events.antt =====
-- apexd/apexd_prop.cpp: waitForBootStatus reacts to the first event, whenever it comes.
use android_system_apex.Common.{
  ℕ, zero, suc, ◌<◌, ◌≡◌, ◌∙◌, Bool, true, false, arith, ◌||◌, Action, Outcome, Outcome-cases, done,
  failed, aborted,
}
use android_system_apex.Common.Effects.{◌>>◌, pure}
use android_system_apex.Os.{Os}
use android_system_apex.Daemon.{Daemon}
use android_system_apex.Boot.{
  wait_for_crash, boot_completed, attempt_rollback, wait_for_boot_status,
}

module _ {W : Type 0} (os : Os W) where
  -- The world after so many waits.
  abbrev pub waited : ℕ → W → W
  waited zero w = w
  waited (suc n) w = waited n (wait_for_crash os w).1

  -- So many rounds in which nothing happens.
  abbrev pub Quiet : ℕ → W → Type 0
  Quiet zero w = Unit
  Quiet (suc n) w =
      ((wait_for_crash os w).0 ≡ false)
      × (boot_completed os (wait_for_crash os w).1 ≡ false)
      × Quiet n (wait_for_crash os w).1

  -- How a rollback ends: with a reboot when it succeeds.
  abbrev pub after_rollback : Outcome (Unit {0}) × Daemon W → Outcome Bool × Daemon W
  after_rollback (done _, d) = (done true, record d { world = os.reboot d.world })
  after_rollback (failed e, d) = (done true, d)
  after_rollback (aborted, d) = (aborted, d)

  attempt_rollback-after_rollback :
      (rollback_fn : Action (Daemon W) (Unit {0})) (d : Daemon W)
      → attempt_rollback os rollback_fn d ≡ after_rollback (rollback_fn d)
  attempt_rollback-after_rollback rollback_fn d = ground (arith, Outcome-cases (rollback_fn d).0)

  -- The daemon after one wait.
  abbrev pub after_wait : Daemon W → Daemon W
  after_wait d = record d { world = (wait_for_crash os d.world).1 }

  -- What is to be done about a crash that is seen, or about the boot that is completed.
  abbrev pub reaction :
      Bool
      → Action (Daemon W) (Unit {0})
      → Action (Daemon W) (Unit {0})
      → Daemon W
      → Outcome Bool × Daemon W
  reaction true rollback_fn complete_fn d = after_rollback (rollback_fn d)
  reaction false rollback_fn complete_fn d = (complete_fn >> pure true) d

  -- A round in which something happens.
  abbrev pub Happens : W → Type 0
  Happens w = ((wait_for_crash os w).0 || boot_completed os (wait_for_crash os w).1) ≡ true

  eventful_round :
      (rounds : ℕ) (rollback_fn complete_fn : Action (Daemon W) (Unit {0})) (d : Daemon W)
      → Happens d.world
      → wait_for_boot_status os (suc rounds) rollback_fn complete_fn d
        ≡ reaction (wait_for_crash os d.world).0 rollback_fn complete_fn (after_wait d)
  unfolding wait_for_boot_status
  eventful_round rounds rollback_fn complete_fn d happens =
      ground (arith, attempt_rollback-after_rollback rollback_fn (after_wait d))

  quiet_round :
      (rounds : ℕ) (rollback_fn complete_fn : Action (Daemon W) (Unit {0})) (d : Daemon W)
      → (wait_for_crash os d.world).0 ≡ false
      → boot_completed os (wait_for_crash os d.world).1 ≡ false
      → wait_for_boot_status os (suc rounds) rollback_fn complete_fn d
        ≡ wait_for_boot_status os rounds rollback_fn complete_fn (after_wait d)
  unfolding wait_for_boot_status
  quiet_round rounds rollback_fn complete_fn d no_crash incomplete = ground arith

  -- After any number of rounds in which nothing happens, waitForBootStatus returns in the round in
  -- which something does: where a crash is seen it runs the rollback and, when that succeeds,
  -- reboots; where none is seen and the boot is completed it runs the completion.
  pub wait_for_boot_status-Quiet :
      (n rounds : ℕ) (rollback_fn complete_fn : Action (Daemon W) (Unit {0})) (d : Daemon W)
      → n < rounds
      → Quiet n d.world
      → Happens (waited n d.world)
      → let (crash, w) = wait_for_crash os (waited n d.world) in
        wait_for_boot_status os rounds rollback_fn complete_fn d
        ≡ reaction crash rollback_fn complete_fn (record d { world = w })
  wait_for_boot_status-Quiet n zero rollback_fn complete_fn d enough quiet happens = ground arith
  wait_for_boot_status-Quiet zero (suc rounds) rollback_fn complete_fn d enough quiet happens =
      eventful_round rounds rollback_fn complete_fn d happens
  wait_for_boot_status-Quiet (suc n) (suc rounds) rollback_fn complete_fn d enough quiet happens =
      let (no_crash, incomplete, more) = quiet in
      quiet_round rounds rollback_fn complete_fn d no_crash incomplete
      ∙ wait_for_boot_status-Quiet n rounds rollback_fn complete_fn (after_wait d) (omega arith)
          more happens
