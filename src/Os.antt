-- ===== src/Os.antt =====
-- What apexd calls and does not implement: system calls, std::filesystem, protobuf, libziparchive,
-- android-base and libdm, over a type of worlds. The code's own wrappers are models of their own.
use android_system_apex.Common.{ℕ, Bool, Option, List, Text, ℤ}
use android_system_apex.Manifest.{ApexManifest}
use android_system_apex.SessionState.{SessionState}

-- `errno` after a call; `no_error` when it returned 0.
pub data Errno : Type 0 where
  no_error enoent eexist einval enotdir enxio other_errno : Errno

abbrev pub is_success : Errno → Bool
is_success Errno.no_error = Bool.true
is_success e = Bool.false

-- What `stat` finds.
pub data FileKind : Type 0 where
  regular directory other_kind : FileKind
  unreadable : Errno → FileKind

-- A `directory_entry`.
pub record DirEntry : Type 0 where
  pub path : Text
  pub is_regular : Bool
  pub is_directory : Bool

-- An entry of a zip archive.
pub record ZipEntry : Type 0 where
  pub offset : ℕ
  pub uncompressed_length : ℕ
  pub extracted : Option Text

-- What libavb returns for a vbmeta image.
pub data VerifyResult : Type 0 where
  result_ok ok_not_signed hash_mismatch signature_mismatch : VerifyResult
  invalid_vbmeta_header unsupported_version unknown_result : VerifyResult

-- The footer of an image, validated.
pub record AvbFooter : Type 0 where
  pub vbmeta_offset : ℕ
  pub vbmeta_size : ℕ

-- A hashtree descriptor, validated.
pub record HashtreeDescriptor : Type 0 where
  pub image_size : ℕ
  pub tree_offset : ℕ
  pub data_block_size : ℕ
  pub hash_block_size : ℕ
  pub dm_verity_version : ℕ
  pub hash_algorithm : Text
  pub partition_name_len : ℕ
  pub salt_len : ℕ
  pub root_digest_len : ℕ

-- A descriptor of a vbmeta image: whether it validates, its tag, its fields if it validates as a
-- hashtree descriptor, and the bytes behind it.
pub record AvbDescriptor : Type 0 where
  pub validates : Bool
  pub is_hashtree : Bool
  pub hashtree : Option HashtreeDescriptor
  pub trailing : Text

-- The requests to a loop device.
pub data LoopRequest : Type 0 where
  set_fd : Text → LoopRequest
  set_status : ℕ → ℕ → LoopRequest
  flush_buffers set_block_size set_direct_io clr_fd : LoopRequest

-- The targets of a dm-verity table.
pub record VerityTarget : Type 0 where
  pub start : ℕ
  pub length : ℕ
  pub version : ℕ
  pub block_device : Text
  pub hash_device : Text
  pub data_block_size : ℕ
  pub hash_block_size : ℕ
  pub num_data_blocks : ℕ
  pub hash_start_block : ℕ
  pub hash_algorithm : Text
  pub root_digest : Text
  pub salt : Text
  pub ignore_zero_blocks : Bool
  pub restart_on_corruption : Bool

pub record Os (W : Type 0) : Type 0 where
  -- Reads of the file system.
  pub stat : Text → W → FileKind
  pub inode : Text → W → Option (ℕ × ℕ)
  -- `fs::exists`, and `none` when it sets its error code.
  pub exists : Text → W → Option Bool
  pub access : Text → W → Errno
  pub read_file : Text → W → Option Text
  -- Whether `open(path, O_RDONLY)` succeeds.
  pub can_open : Text → W → Bool
  -- Whether it is a regular file, and its permission bits; `none` when they cannot be read.
  pub file_status : Text → W → Option (Bool × ℕ)
  -- `fs::is_empty`, and `none` when it sets its error code.
  pub is_empty : Text → W → Option Bool
  -- The entries that the walk over a directory visits, and whether it ends without an error.
  pub list_dir : Text → W → List DirEntry × Bool
  pub is_block_file : Text → W → Bool
  -- Writes.
  pub write_file : Text → Text → W → Bool × W
  pub unlink : Text → W → Errno × W
  pub rmdir : Text → W → Errno × W
  pub remove_all : Text → W → Bool × W
  pub mkdir : Text → ℕ → W → Errno × W
  pub chmod : Text → ℕ → W → Errno × W
  pub link : Text → Text → W → Errno × W
  pub rename : Text → Text → W → Errno × W
  pub umount : Text → W → Errno × W
  pub bind_mount : Text → Text → W → Errno × W
  pub mount_ext4 : Text → Text → W → Errno × W
  -- Processes, properties and the clock.
  -- `fork` and the `execv` of the child: the child's id, if there is one.
  pub spawn : List Text → W → Option ℕ × W
  -- `waitpid`: the status word, if the child was waited for.
  pub waitpid : ℕ → W → Option ℕ × W
  -- The `execv` of a process itself: whether it failed.
  pub execv : Text → W → Bool × W
  -- `unshare(CLONE_NEWNS)`, and the mount of `/` as private.
  pub unshare : W → Errno × W
  pub make_private : W → Errno × W
  pub close : ℕ → W → W
  pub get_property : Text → W → Text
  -- `GetBoolProperty(name, default)`.
  pub get_bool_property : Text → Bool → W → Bool
  -- `WaitForProperty(name, value, 30s)`.
  pub wait_for_property : Text → Text → W → Bool × W
  pub set_property : Text → Text → W → Bool × W
  pub reboot : W → W
  -- libbinder: `addService`, `startThreadPool`, `joinThreadPool`.
  pub add_service : Text → W → W
  pub start_threads : W → W
  pub join_threads : W → W
  -- What happens during a wait of so many microseconds.
  pub sleep : ℕ → W → W
  -- The milliseconds of a Timer that was started in the first world and is read in the second.
  pub elapsed : W → W → ℕ
  -- libdm.
  pub dm_is_invalid : Text → W → Bool
  pub dm_path : Text → W → Option Text
  pub dm_create : Text → VerityTarget → W → Bool × W
  pub dm_delete : Text → W → Bool × W
  -- Loop devices. `loop_add` is LOOP_CTL_ADD, `loop_get_free` is LOOP_CTL_GET_FREE, `loop_name`
  -- is the name that LOOP_GET_STATUS64 reports.
  pub open_device : Text → W → Errno × W
  pub loop_add : ℕ → W → Errno × W
  pub loop_get_free : W → Option ℕ × W
  pub loop_request : Text → LoopRequest → W → Errno × W
  pub loop_name : Text → W → Option Text
  -- `ReadFully` of so many bytes from a device that is open.
  pub read_block : Text → ℕ → W → Bool × W
  -- `ReadFullyAtOffset`: path, offset, size.
  pub read_at : Text → ℕ → ℕ → W → Option Text
  -- libavb.
  pub avb_footer : Text → Option AvbFooter
  pub avb_verify : Text → VerifyResult × Text
  pub avb_property : Text → Text → Option Text
  pub avb_descriptors : Text → List AvbDescriptor
  -- vold: whether `getService` finds it, and its calls; `none` and `false` are binder errors.
  pub get_vold : W → Bool
  pub vold_supports_checkpoint : W → Option Bool
  pub vold_needs_checkpoint : W → Option Bool
  pub vold_needs_rollback : W → Option Bool
  pub vold_start_checkpoint : ℕ → W → Bool × W
  pub vold_abort_changes : Text → Bool → W → Bool × W
  -- Pure conversions.
  pub parse_int : Text → Option ℤ
  pub trim : Text → Text
  -- The SHA-512 of a text, in hexadecimal.
  pub sha512 : Text → Text
  pub json_to_manifest : Text → Option ApexManifest
  pub parse_session : Text → Option SessionState
  pub serialize_session : SessionState → Text
  -- The archive's table of contents.
  pub open_archive : Text → W → Option (Text → Option ZipEntry)
