-- ===== src/Devices.antt =====
-- apexd/apexd.cpp: dm-verity devices, the wait for a device node, and the read of a whole device.
pub mod Frame
pub mod Read
pub mod Lifetime
use android_system_apex.Common.{
  ℕ, zero, suc, ◌-◌, ◌*◌, ◌/◌, Bool, true, false, not, Option, none, some, List, [], ◌∷◌, Text,
  if◌then◌else◌, cannot_delete, device_timeout, verity_failed, cannot_read, StatusOr, ok, fail,
  Action, ltb,
}
use android_system_apex.Common.Effects.{◌>>=◌, ◌>>◌, pure, raise, ensure, skip, ignore}
use android_system_apex.Os.{Os, VerityTarget}
use android_system_apex.ApexFile.{path_exists}
use android_system_apex.Verity.{ApexVerityData}
use android_system_apex.Daemon.{Daemon, call, call_checked, look}

pub data WaitForDeviceMode : Type 0 where
  wait_to_be_created wait_to_be_deleted : WaitForDeviceMode

abbrev num_tries : WaitForDeviceMode → ℕ
num_tries wait_to_be_created = 10
num_tries wait_to_be_deleted = 15

abbrev reached : WaitForDeviceMode → StatusOr Bool → Bool
reached wait_to_be_created (ok b) = b
reached wait_to_be_deleted (ok b) = not b
reached mode (fail e) = false

-- `createVerityTable`: its one target.
unfoldable pub create_verity_table : ApexVerityData → Text → Bool → VerityTarget
create_verity_table verity_data loop restart_on_corruption = record {
  start = 0;
  length = desc.image_size / 512;
  version = desc.dm_verity_version;
  block_device = loop;
  hash_device = loop;
  data_block_size = desc.data_block_size;
  hash_block_size = desc.hash_block_size;
  num_data_blocks = desc.image_size / desc.data_block_size;
  hash_start_block = desc.tree_offset / desc.hash_block_size;
  hash_algorithm = desc.hash_algorithm;
  root_digest = verity_data.root_digest;
  salt = verity_data.salt;
  ignore_zero_blocks = true;
  restart_on_corruption = restart_on_corruption;
}
  where
    open verity_data use {desc}

abbrev pub block_size : ℕ
block_size = 4096

abbrev pub buf_size : ℕ
buf_size = 1024 * block_size

abbrev pub to_read : ℕ → ℕ
to_read bytes_left = if ltb buf_size bytes_left then buf_size else bytes_left

-- The sizes that the loop of `readVerityDevice` reads, on fuel; `none` when it runs out.
unfoldable pub read_sizes : ℕ → ℕ → Option (List ℕ)
read_sizes fuel zero = some []
read_sizes zero (suc n) = none
read_sizes (suc fuel) (suc n) = elim (read_sizes fuel (suc n - to_read (suc n))) [
  | none ↦ none
  | some sizes ↦ some (to_read (suc n) ∷ sizes)
]

-- `DmVerityDevice`.
pub record DmVerityDevice : Type 0 where
  pub name : Text
  pub dev_path : Text
  pub cleared : Bool

-- The constructors, and the move constructor: the new object and what is left of the other, whose
-- strings nobody reads.
abbrev pub no_verity_device : DmVerityDevice
no_verity_device = record { name = []; dev_path = []; cleared = true }

abbrev pub verity_device_at : Text → Text → DmVerityDevice
verity_device_at name dev_path = record { name = name; dev_path = dev_path; cleared = false }

abbrev pub verity_device : Text → DmVerityDevice
verity_device name = verity_device_at name []

-- `Release`.
abbrev pub release : DmVerityDevice → DmVerityDevice
release device = record device { cleared = true }

abbrev pub move_verity_device : DmVerityDevice → DmVerityDevice × DmVerityDevice
move_verity_device device = (device, release device)

-- The move assignment: the target, whose former value is overwritten, and what is left of the
-- other.
abbrev pub assign_verity_device : DmVerityDevice → DmVerityDevice → DmVerityDevice × DmVerityDevice
assign_verity_device target other = move_verity_device other

module _ {W : Type 0} (os : Os W) where
  wait_tries : ℕ → WaitForDeviceMode → Text → Action (Daemon W) (Unit {0})
  wait_tries zero mode device = raise device_timeout
  wait_tries (suc tries) mode device = do
    status ← look (path_exists os device)
    elim (reached mode status) [
      | true ↦ skip
      | false ↦ do
        call (λ w. (tt, elim tries [ zero ↦ w | suc _ ↦ os.sleep 50000 w ]))
        wait_tries tries mode device
    ]

  -- `waitForDevice`.
  unfoldable pub wait_for_device : Text → WaitForDeviceMode → Action (Daemon W) (Unit {0})
  unfolding wait_tries
  wait_for_device device mode = wait_tries (num_tries mode) mode device

  -- `DeleteVerityDevice(name, path)`.
  unfoldable pub delete_verity_device_at : Text → Text → Action (Daemon W) (Unit {0})
  delete_verity_device_at name path = do
    call_checked (os.dm_delete name) cannot_delete
    wait_for_device path wait_to_be_deleted

  -- `DeleteVerityDevice(name)`.
  unfoldable pub delete_verity_device : Text → Action (Daemon W) (Unit {0})
  delete_verity_device name = do
    path ← look (os.dm_path name)
    elim path [ none ↦ raise cannot_delete | some p ↦ delete_verity_device_at name p ]

  -- The destructor of DmVerityDevice.
  abbrev pub destroy_verity_device : DmVerityDevice → Action (Daemon W) (Unit {0})
  destroy_verity_device device = elim device.cleared [
    | true ↦ skip
    | false ↦ ignore (delete_verity_device_at device.name device.dev_path)
  ]

  delete_existing : Bool → Text → Action (Daemon W) (Unit {0})
  delete_existing true name = skip
  delete_existing false name = ignore (delete_verity_device name)

  -- `createVerityDevice`: the path of the device. When that cannot be found, the DmVerityDevice
  -- that holds the name alone is destroyed, which deletes the device and waits at the empty path.
  unfoldable pub create_verity_device : Text → VerityTarget → Action (Daemon W) Text
  unfolding delete_existing
  create_verity_device name table = do
    invalid ← look (os.dm_is_invalid name)
    delete_existing invalid name
    call_checked (os.dm_create name table) verity_failed
    path ← look (os.dm_path name)
    elim path [
      | none ↦ do destroy_verity_device (verity_device name); raise verity_failed
      | some p ↦ pure p
    ]

  read_blocks : Text → List ℕ → Action (Daemon W) (Unit {0})
  read_blocks device [] = skip
  read_blocks device (n ∷ sizes) = do
    call_checked (os.read_block device n) cannot_read
    read_blocks device sizes

  -- `readVerityDevice`: `device_size` is fuel enough, since each round reads a byte or more.
  unfoldable pub read_verity_device : Text → ℕ → Action (Daemon W) (Unit {0})
  unfolding read_blocks
  read_verity_device verity_device device_size = do
    opened ← look (os.can_open verity_device)
    ensure opened cannot_read
    elim (read_sizes device_size device_size) [
      | none ↦ raise cannot_read
      | some sizes ↦ read_blocks verity_device sizes
    ]
