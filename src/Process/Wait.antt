-- ===== src/Process/Wait.antt =====
-- apexd/apexd_utils.h: WaitForFile ends, and what it has found then.
use android_system_apex.Common.{
  ℕ, zero, suc, ◌+◌, ◌*◌, ◌/◌, ◌≤◌, ◌≡◌, ◌⊎◌, arith, true, Text, Outcome, done, failed,
  device_timeout,
}
use android_system_apex.Os.{Os}
use android_system_apex.Daemon.{Daemon}
use android_system_apex.Process.{wait_rounds, wait_for_file, stat_works}

module _ {W : Type 0} (os : Os W) where
  -- A sleep of five milliseconds advances every timer by as much.
  abbrev pub Sleeps : Type 0
  Sleeps = (timer w : W) → os.elapsed timer w + 5 ≤ os.elapsed timer (os.sleep 5000 w)

  -- The file is found, or the time is over.
  abbrev pub Waited : W → Text → ℕ → Outcome (Unit {0}) × Daemon W → Type 0
  Waited timer path timeout (o, d) =
      ((o ≡ done tt) × (stat_works (os.stat path d.world) ≡ true))
      ⊎ ((o ≡ failed device_timeout) × (timeout ≤ os.elapsed timer d.world))

  wait_rounds-Waited :
      (fuel : ℕ) (timer : W) (path : Text) (timeout : ℕ) (d : Daemon W)
      → Sleeps
      → timeout ≤ os.elapsed timer d.world + 5 * fuel
      → Waited timer path timeout (wait_rounds os (suc fuel) timer path timeout d)
  unfolding wait_rounds
  wait_rounds-Waited zero timer path timeout d sleeps enough = ground arith
  wait_rounds-Waited (suc fuel) timer path timeout d sleeps enough =
      let d' : Daemon W = record d { world = os.sleep 5000 d.world } in
      ground (arith, sleeps timer d.world, wait_rounds-Waited fuel timer path timeout d' sleeps)

  -- Where a sleep takes the time that it is asked for, WaitForFile ends: with the file there, or
  -- with a timeout once the time is over.
  pub wait_for_file-Waited :
      (path : Text) (timeout : ℕ) (d : Daemon W)
      → Sleeps
      → Waited d.world path timeout (wait_for_file os path timeout d)
  unfolding wait_for_file
  wait_for_file-Waited path timeout d sleeps =
      wait_rounds-Waited (timeout / 5 + 1) d.world path timeout d sleeps (omega arith)
