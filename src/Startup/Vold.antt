-- ===== src/Startup/Vold.antt =====
-- apexd/apexd.cpp: gVoldService is not null where onStart, submitStagedSession and
-- rollbackActiveSessionAndReboot use it.
use android_system_apex.Common.{
  Bool, true, false, ◌||◌, ◌&&◌, not, ◌≡◌, ◌≢◌, refl, Option, none, some, arith, done, aborted,
}
use android_system_apex.Os.{Os}
use android_system_apex.Config.{Config}
use android_system_apex.Checkpoint.{
  needs_checkpoint, start_checkpoint as start_vold_checkpoint, abort_changes,
}
use android_system_apex.Daemon.{Daemon, VoldCheckpoint}
use android_system_apex.Rollback.{abort_changes_if}
use android_system_apex.Lifecycle.{start_checkpoint}
use android_system_apex.Startup.{read_checkpoints, read_mode}

module _ {W : Type 0} where
  -- Whether there is a checkpoint service.
  abbrev has_vold : Daemon W → Bool
  has_vold d = elim d.vold_service [ none ↦ false | some v ↦ true ]

  -- No flag that guards a use of the service is set without one.
  abbrev pub VoldSafe : Daemon W → Type 0
  VoldSafe d = ((d.supports_fs_checkpoints || d.in_fs_checkpoint_mode) && not (has_vold d)) ≡ false

  module _ (os : Os W) (config : Config) where
    start_checkpoint_returns :
        (d : Daemon W)
        → VoldSafe d
        → (start_checkpoint os config d.supports_fs_checkpoints d).0 ≢ aborted
    unfolding start_checkpoint start_vold_checkpoint
    start_checkpoint_returns d safe h = ground arith

    abort_changes_returns :
        (d : Daemon W) → VoldSafe d → (abort_changes_if os d.in_fs_checkpoint_mode d).0 ≢ aborted
    unfolding abort_changes_if abort_changes
    abort_changes_returns d safe h = ground arith

    read_checkpoints_returns :
        (service : Option VoldCheckpoint) (d : Daemon W)
        → VoldSafe d
        → ((read_checkpoints os config service d).0 ≡ done tt)
          × VoldSafe (read_checkpoints os config service d).1
    unfolding read_checkpoints read_mode needs_checkpoint
    read_checkpoints_returns none d safe = (refl, safe)
    read_checkpoints_returns (some v) d safe = ground arith

    -- Where no flag is set without a checkpoint service, it is so after onStart has asked
    -- the service, which never ends the process; and then the calls of the service that
    -- submitStagedSession and rollbackActiveSessionAndReboot guard by a flag find the service.
    pub read_checkpoints-VoldSafe :
        (service : Option VoldCheckpoint) (d : Daemon W)
        → VoldSafe d
        → let after : Daemon W = (read_checkpoints os config service d).1 in
          ((read_checkpoints os config service d).0 ≡ done tt)
          × VoldSafe after
          × ((start_checkpoint os config after.supports_fs_checkpoints after).0 ≢ aborted)
          × ((abort_changes_if os after.in_fs_checkpoint_mode after).0 ≢ aborted)
    read_checkpoints-VoldSafe service d safe =
        let (returns, after) = read_checkpoints_returns service d safe in
        let d' = (read_checkpoints os config service d).1 in
        (returns, after, start_checkpoint_returns d' after, abort_changes_returns d' after)
