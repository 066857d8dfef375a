-- ===== src/Daemon.antt =====
-- The state that apexd's functions share: the globals of apexd/apexd.cpp and apexd/apex_key.cpp,
-- with the world behind the system calls; and the helpers of apexd/apexd_utils.h that write.
pub mod Frame
use android_system_apex.Common.{
  ℕ, Bool, true, Option, List, Text, Error, cannot_mkdir, cannot_stat, not_a_directory,
  cannot_chmod, cannot_unlink, StatusOr, done, Action, for_each,
}
use android_system_apex.Common.Effects.{◌>>=◌, ◌>>◌, raise, ensure, skip, lift_status}
use android_system_apex.Os.{
  Os, Errno, is_success, FileKind, regular, directory, other_kind, unreadable,
}
use android_system_apex.ApexFile.{read_dir}
use android_system_apex.Database.{Database}

-- `VoldCheckpointInterface`, less the handle of the service.
pub record VoldCheckpoint : Type 0 where
  pub supports : Bool

pub record Daemon (W : Type 0) : Type 0 where
  pub mounted_apexes : Database
  -- `gVoldService`: whether it supports checkpoints, if there is one.
  pub vold_service : Option VoldCheckpoint
  pub supports_fs_checkpoints : Bool
  pub in_fs_checkpoint_mode : Bool
  pub bootstrap : Bool
  pub scanned_apex_keys : List (Text × Text)
  pub world : W

module _ {W : Type 0} where
  -- A system call.
  abbrev pub call : {A : Type 0} → (W → A × W) → Action (Daemon W) A
  call f d = let (a, w) = f d.world in (done a, record d { world = w })

  -- A read of the world.
  abbrev pub look : {A : Type 0} → (W → A) → Action (Daemon W) A
  look f d = (done (f d.world), d)

  abbrev pub look_status : {A : Type 0} → (W → StatusOr A) → Action (Daemon W) A
  look_status f = lift_status (λ d. f d.world)

  -- `if (f(...) != 0) return Status::Fail(...)`.
  abbrev pub call_or : (W → Errno × W) → Error → Action (Daemon W) (Unit {0})
  call_or f e = do r ← call f; ensure (is_success r) e

  abbrev pub call_checked : (W → Bool × W) → Error → Action (Daemon W) (Unit {0})
  call_checked f e = do r ← call f; ensure r e

  module _ (os : Os W) where
    make_directory : FileKind → Text → ℕ → Action (Daemon W) (Unit {0})
    make_directory directory path mode = skip
    make_directory (unreadable Errno.enoent) path mode = call_or (os.mkdir path mode) cannot_mkdir
    make_directory (unreadable e) path mode = raise cannot_stat
    make_directory regular path mode = raise not_a_directory
    make_directory other_kind path mode = raise not_a_directory

    -- `createDirIfNeeded`.
    unfoldable pub create_dir_if_needed : Text → ℕ → Action (Daemon W) (Unit {0})
    unfolding make_directory
    create_dir_if_needed path mode = do
      kind ← look (os.stat path)
      make_directory kind path mode
      call_or (os.chmod path mode) cannot_chmod

    abbrev pub unlink_file : Text → Action (Daemon W) (Unit {0})
    unlink_file path = call_or (os.unlink path) cannot_unlink

    -- `DeleteDirContent`.
    unfoldable pub delete_dir_content : Text → Action (Daemon W) (Unit {0})
    delete_dir_content path = do
      files ← look_status (read_dir os path (λ _. true))
      for_each unlink_file files
