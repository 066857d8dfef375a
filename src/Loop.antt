-- ===== src/Loop.antt =====
-- apexd/apexd_loop.cpp: loop devices. A device is its path; its LoopbackDeviceUniqueFd clears the
-- device when it is destroyed before `CloseGood`.
pub mod Frame
pub mod Lifetime
use android_system_apex.Common.{
  ℕ, zero, suc, ◌+◌, Bool, true, false, Option, none, some, [], ◌∷◌, ◌++◌, Text, codes, starts_with,
  ℤ, pos, to_u64, to_string, Error, loop_failed, failed, done, Action,
}
use android_system_apex.Common.Effects.{◌>>=◌, ◌>>◌, pure, raise, ensure, skip, guarded}
use android_system_apex.Os.{
  Os, Errno, is_success, set_fd, set_status, flush_buffers, set_block_size, set_direct_io, clr_fd,
}
use android_system_apex.Paths.{filename, ◌/+◌}
use android_system_apex.Process.{wait_for_file}
use android_system_apex.Daemon.{Daemon, call, call_or, call_checked, look}

abbrev apex_loop_id_prefix : Text
apex_loop_id_prefix = codes "apex:"

-- 20 seconds, in milliseconds.
abbrev loop_control_timeout : ℕ
loop_control_timeout = 20000

abbrev pub loop_device_retry_attempts : ℕ
loop_device_retry_attempts = 3

-- `LoopbackDeviceUniqueFd`: whether its descriptor is open, and the path of its device.
pub record LoopbackDeviceUniqueFd : Type 0 where
  pub is_open : Bool
  pub name : Text

-- The constructors, and the move constructor: the new object and what is left of the other.
abbrev pub no_loop_device : LoopbackDeviceUniqueFd
no_loop_device = record { is_open = false; name = [] }

abbrev pub open_loop_device : Text → LoopbackDeviceUniqueFd
open_loop_device name = record { is_open = true; name = name }

abbrev pub close_good : LoopbackDeviceUniqueFd → LoopbackDeviceUniqueFd
close_good fd = record fd { is_open = false }

abbrev pub move_loop_device :
    LoopbackDeviceUniqueFd → LoopbackDeviceUniqueFd × LoopbackDeviceUniqueFd
move_loop_device fd = (fd, close_good fd)

module _ {W : Type 0} (os : Os W) where
  -- `MaybeCloseBad`, which is what the destructor does.
  abbrev pub maybe_close_bad : LoopbackDeviceUniqueFd → Action (Daemon W) (Unit {0})
  maybe_close_bad fd = elim fd.is_open [
    | false ↦ skip
    | true ↦ do call (os.loop_request fd.name clr_fd); skip
  ]

  -- The move assignment: the target and what is left of the other.
  abbrev pub assign_loop_device :
      LoopbackDeviceUniqueFd
      → LoopbackDeviceUniqueFd
      → Action (Daemon W) (LoopbackDeviceUniqueFd × LoopbackDeviceUniqueFd)
  assign_loop_device target other = do maybe_close_bad target; pure (move_loop_device other)

  -- `configureReadAhead`.
  unfoldable pub configure_read_ahead : Text → Action (Daemon W) (Unit {0})
  configure_read_ahead device_path = do
    ensure (starts_with device_path (codes "/dev/block/")) loop_failed
    let sysfs_device = codes "/sys/block" /+ (filename device_path /+ codes "queue/read_ahead_kb")
    call_or (os.open_device sysfs_device) loop_failed
    call_checked (os.write_file sysfs_device (codes "128" ++ 0 ∷ [])) loop_failed

  -- EEXIST is no error.
  abbrev added_or_exists : Errno → Bool
  added_or_exists Errno.no_error = true
  added_or_exists Errno.eexist = true
  added_or_exists e = false

  add_devices : ℕ → ℕ → Action (Daemon W) (Unit {0})
  add_devices id zero = skip
  add_devices id (suc left) = do
    ret ← call (os.loop_add id)
    ensure (added_or_exists ret) loop_failed
    add_devices (id + 1) left

  -- `loop::preAllocateLoopDevices`.
  unfoldable pub pre_allocate_loop_devices : ℕ → Action (Daemon W) (Unit {0})
  unfolding add_devices
  pre_allocate_loop_devices num = do
    wait_for_file os (codes "/dev/loop-control") loop_control_timeout
    call_or (os.open_device (codes "/dev/loop-control")) loop_failed
    add_devices 0 num

  -- The loop that waits for the device node, on the attempts left.
  open_with_retries : ℕ → Text → Action (Daemon W) (Unit {0})
  open_with_retries zero device = raise loop_failed
  open_with_retries (suc attempts) device = do
    r ← call (os.open_device device)
    elim (is_success r) [
      | true ↦ skip
      | false ↦ do call (λ w. (tt, os.sleep 50000 w)); open_with_retries attempts device
    ]

  -- From LOOP_SET_FD on, over a device that is open.
  set_up : Text → Text → ℤ → ℕ → Action (Daemon W) (Unit {0})
  set_up device target image_offset image_size = do
    call_or (os.loop_request device (set_fd target)) loop_failed
    call_or (os.loop_request device (set_status (to_u64 image_offset) image_size)) loop_failed
    call_or (os.loop_request device flush_buffers) loop_failed
    sized ← call (os.loop_request device set_block_size)
    elim (is_success sized) [
      | false ↦ skip
      | true ↦ do call (os.loop_request device set_direct_io); skip
    ]
    configure_read_ahead device

  abbrev or_raise : {A : Type 0} → Option A → Error → Action (Daemon W) A
  or_raise value e d = (elim value [ none ↦ failed e | some a ↦ done a ], d)

  -- `createLoopDevice` over the path of a free device.
  open_and_set_up : Text → Text → ℤ → ℕ → Action (Daemon W) Text
  open_and_set_up device target image_offset image_size = do
    readable ← look (os.can_open target)
    ensure readable loop_failed
    open_with_retries loop_device_retry_attempts device
    guarded (maybe_close_bad (open_loop_device device))
        (set_up device target image_offset image_size)
    pure device

  -- `createLoopDevice`: the path of the device.
  unfoldable pub create_loop_device : Text → ℤ → ℕ → Action (Daemon W) Text
  unfolding open_with_retries set_up open_and_set_up
  create_loop_device target image_offset image_size = do
    call_or (os.open_device (codes "/dev/loop-control")) loop_failed
    free ← call os.loop_get_free
    num ← or_raise free loop_failed
    open_and_set_up (codes "/dev/block/loop" ++ to_string (pos num)) target image_offset image_size

  abbrev clear_ours : Option Text → Text → Action (Daemon W) (Unit {0})
  clear_ours none path = skip
  clear_ours (some id) path = elim (starts_with id apex_loop_id_prefix) [
    | false ↦ skip
    | true ↦ do call (os.loop_request path clr_fd); skip
  ]

  -- `DestroyLoopDevice`.
  unfoldable pub destroy_loop_device : Text → Action (Daemon W) (Unit {0})
  destroy_loop_device path = do
    r ← call (os.open_device path)
    elim (is_success r) [
      | false ↦ skip
      | true ↦ do name ← look (os.loop_name path); clear_ours name path
    ]
