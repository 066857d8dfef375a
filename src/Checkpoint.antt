-- ===== src/Checkpoint.antt =====
-- apexd/apexd_checkpoint_vold.cpp: VoldCheckpointInterface over vold's binder calls, and the use
-- of gVoldService, a pointer that may be null.

use android_system_apex.Common.{
  ℕ, Bool, true, false, Option, none, some, Text, StatusOr, ok, fail, no_vold, checkpoint_failed,
  if◌then◌else◌, Action,
}
use android_system_apex.Common.Effects.{◌>>=◌, ◌>>◌, raise, abort, gets, skip}
use android_system_apex.Os.{Os}
use android_system_apex.Daemon.{Daemon, VoldCheckpoint, call, call_checked}

-- The flag starts as false, and stays so where the call fails.
abbrev supported : Option Bool → Bool
supported none = false
supported (some answer) = answer

-- The answer of vold, or the error of the binder.
abbrev pub answer_of : Option Bool → StatusOr Bool
answer_of none = fail checkpoint_failed
answer_of (some answer) = ok answer

module _ {W : Type 0} (os : Os W) where
  -- `VoldCheckpointInterface::Create` and the constructor.
  unfoldable pub create : W → StatusOr VoldCheckpoint
  create w =
      if os.get_vold w
      then ok (record { supports = supported (os.vold_supports_checkpoint w) })
      else fail no_vold

  -- `SupportsFsCheckpoints`.
  abbrev pub supports_fs_checkpoints : VoldCheckpoint → StatusOr Bool
  supports_fs_checkpoints v = ok v.supports

  -- `NeedsCheckpoint`.
  unfoldable pub needs_checkpoint : VoldCheckpoint → W → StatusOr Bool
  needs_checkpoint v w = if v.supports then answer_of (os.vold_needs_checkpoint w) else ok false

  -- `NeedsRollback`.
  unfoldable pub needs_rollback : VoldCheckpoint → W → StatusOr Bool
  needs_rollback v w = if v.supports then answer_of (os.vold_needs_rollback w) else ok false

  -- `StartCheckpoint`.
  unfoldable pub start_checkpoint : VoldCheckpoint → ℕ → Action (Daemon W) (Unit {0})
  start_checkpoint v retries = elim v.supports [
    | false ↦ raise checkpoint_failed
    | true ↦ call_checked (os.vold_start_checkpoint retries) checkpoint_failed
  ]

  -- `AbortChanges`.
  unfoldable pub abort_changes : VoldCheckpoint → Text → Bool → Action (Daemon W) (Unit {0})
  abort_changes v message retry = do call (os.vold_abort_changes message retry); skip

-- `gVoldService->`: a null pointer ends the process.
abbrev pub with_vold : {W A : Type 0} → (VoldCheckpoint → Action (Daemon W) A) → Action (Daemon W) A
with_vold f = do service ← gets (λ d. d.vold_service); elim service [ none ↦ abort | some v ↦ f v ]
