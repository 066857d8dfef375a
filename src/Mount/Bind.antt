-- ===== src/Mount/Bind.antt =====
-- apexd/apexd_private.cpp: `BindMount`.
use android_system_apex.Common.{
  ◌≡◌, ◌≢◌, refl, Bool, true, false, Text, arith, aborted, cannot_mkdir, cannot_mount, Action,
}
use android_system_apex.Common.Effects.{◌>>=◌, ◌>>◌, skip}
use android_system_apex.Os.{Os, Errno, FileKind, regular, directory, other_kind, unreadable}
use android_system_apex.Config.{mkdir_mode}
use android_system_apex.Daemon.{Daemon, call, call_or, look}

module _ {W : Type 0} (os : Os W) where
  remove_target : Bool → Text → Action (Daemon W) (Unit {0})
  remove_target true target = do call (os.unlink target); skip
  remove_target false target = skip

  create_target : Text → Action (Daemon W) (Unit {0})
  create_target target = call_or (os.mkdir target mkdir_mode) cannot_mkdir

  detach_target : Text → Action (Daemon W) (Unit {0})
  detach_target target = do call (os.umount target); skip

  -- What stands at the target: nothing is made, a file is replaced, a directory is detached.
  prepare_target : FileKind → Text → Action (Daemon W) (Unit {0})
  prepare_target directory target = detach_target target
  prepare_target regular target = do remove_target true target; create_target target
  prepare_target other_kind target = do remove_target true target; create_target target
  prepare_target (unreadable Errno.enoent) target = create_target target
  prepare_target (unreadable e) target = detach_target target

  -- `BindMount`.
  unfoldable pub bind_mount : Text → Text → Action (Daemon W) (Unit {0})
  unfolding prepare_target remove_target create_target detach_target
  bind_mount target source = do
    kind ← look (os.stat target)
    prepare_target kind target
    call_or (os.bind_mount source target) cannot_mount

  -- It never ends the process.
  prepare_target_returns :
      (kind : FileKind) (target : Text) (d : Daemon W) → (prepare_target kind target d).0 ≢ aborted
  unfolding prepare_target remove_target create_target detach_target
  prepare_target_returns directory target d h = ground arith
  prepare_target_returns regular target d h = ground arith
  prepare_target_returns other_kind target d h = ground arith
  prepare_target_returns (unreadable Errno.enoent) target d h = ground arith
  prepare_target_returns (unreadable Errno.no_error) target d h = ground arith
  prepare_target_returns (unreadable Errno.eexist) target d h = ground arith
  prepare_target_returns (unreadable Errno.einval) target d h = ground arith
  prepare_target_returns (unreadable Errno.enotdir) target d h = ground arith
  prepare_target_returns (unreadable Errno.enxio) target d h = ground arith
  prepare_target_returns (unreadable Errno.other_errno) target d h = ground arith

  pub bind_mount_returns :
      (target source : Text) (d : Daemon W) → (bind_mount target source d).0 ≢ aborted
  unfolding bind_mount
  bind_mount_returns target source d h =
      ground (arith, prepare_target_returns (os.stat target d.world) target d)

  mounted_apexes-prepare_target :
      (kind : FileKind) (target : Text) (d : Daemon W)
      → (prepare_target kind target d).1.mounted_apexes ≡ d.mounted_apexes
  unfolding prepare_target remove_target create_target detach_target
  mounted_apexes-prepare_target directory target d = refl
  mounted_apexes-prepare_target regular target d = ground arith
  mounted_apexes-prepare_target other_kind target d = ground arith
  mounted_apexes-prepare_target (unreadable Errno.enoent) target d = ground arith
  mounted_apexes-prepare_target (unreadable Errno.no_error) target d = refl
  mounted_apexes-prepare_target (unreadable Errno.eexist) target d = refl
  mounted_apexes-prepare_target (unreadable Errno.einval) target d = refl
  mounted_apexes-prepare_target (unreadable Errno.enotdir) target d = refl
  mounted_apexes-prepare_target (unreadable Errno.enxio) target d = refl
  mounted_apexes-prepare_target (unreadable Errno.other_errno) target d = refl

  pub mounted_apexes-bind_mount :
      (target source : Text) (d : Daemon W)
      → (bind_mount target source d).1.mounted_apexes ≡ d.mounted_apexes
  unfolding bind_mount
  mounted_apexes-bind_mount target source d =
      ground (arith, mounted_apexes-prepare_target (os.stat target d.world) target d)
