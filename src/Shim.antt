-- ===== src/Shim.antt =====
-- apexd/apex_shim.cpp: what a shim package may hold, and which updates of it are allowed.
pub mod Laws
use android_system_apex.Common.{
  ℕ, ◌+◌, ◌/◌, ◌%◌, Bool, true, false, not, ◌&&◌, ◌||◌, Option, none, some, List, [], ◌∷◌, Text,
  codes, text_eq, is_empty, ◌==◌, if◌then◌else◌, any_of, cannot_read, cannot_scan, cannot_stat,
  illegal_entry, shim_has_hooks, unexpected_hash, not_empty, StatusOr, ok, fail, Status,
}
use android_system_apex.Common.Results.{◌>>=◌, ◌>>◌, check_that}
use android_system_apex.Os.{Os, DirEntry}
use android_system_apex.ApexFile.{ApexFile}
use android_system_apex.Paths.{filename, split, ◌/+◌}

abbrev pub apex_cts_shim_package : Text
apex_cts_shim_package = codes "com.android.apex.cts.shim"

abbrev pub hash_file_name : Text
hash_file_name = codes "hash.txt"

abbrev pub etc_folder_name : Text
etc_folder_name = codes "etc"

abbrev pub lost_found_folder_name : Text
lost_found_folder_name = codes "lost+found"

abbrev pub manifest_file_name : Text
manifest_file_name = codes "apex_manifest.json"

-- `permissions & kFordbiddenFilePermissions`: one of the three execute bits.
abbrev pub has_forbidden_permissions : ℕ → Bool
has_forbidden_permissions p = (p % 2 == 1) || ((p / 8 % 2 == 1) || (p / 64 % 2 == 1))

-- `IsShimApex`.
unfoldable pub is_shim_apex : ApexFile → Bool
is_shim_apex apex = text_eq apex.manifest.name apex_cts_shim_package

-- A walk over a directory that checks each entry, and fails at the first that is refused; when
-- the walk cannot go on it fails after the entries that it visited.
unfoldable pub check_entries : (DirEntry → Status) → List DirEntry → Bool → Status
check_entries check [] finished = check_that finished cannot_scan
check_entries check (e ∷ es) finished = check e >> check_entries check es finished

module _ {W : Type 0} (os : Os W) (w : W) where
  -- `IsRegularFile`.
  unfoldable pub is_regular_file : DirEntry → Status
  is_regular_file e = elim (os.file_status e.path w) [
    | none ↦ fail cannot_stat
    | some (regular_file, permissions) ↦
        check_that regular_file illegal_entry
        >> check_that (not (has_forbidden_permissions permissions)) illegal_entry
  ]

  -- `IsHashTxt`.
  unfoldable pub is_hash_txt : DirEntry → Status
  is_hash_txt e =
      is_regular_file e >> check_that (text_eq (filename e.path) hash_file_name) illegal_entry

  -- `IsWhitelistedTopLevelEntry`.
  unfoldable pub is_whitelisted_top_level_entry : DirEntry → Status
  is_whitelisted_top_level_entry e =
      let name = filename e.path in
      let (visited, finished) = os.list_dir e.path w in
      if text_eq name lost_found_folder_name
      then elim (os.is_empty e.path w) [
        | none ↦ fail cannot_scan
        | some empty ↦ check_that empty not_empty
      ]
      else if text_eq name etc_folder_name
      then elim (os.is_empty e.path w) [
        | none ↦ fail cannot_scan
        | some empty ↦
            check_that (not empty) illegal_entry >> check_entries is_hash_txt visited finished
      ]
      else if text_eq name manifest_file_name
      then is_regular_file e
      else fail illegal_entry

  -- `ValidateShimApex`.
  unfoldable pub validate_shim_apex : Text → ApexFile → Status
  validate_shim_apex mount_point apex =
      let (visited, finished) = os.list_dir mount_point w in
      check_that (is_empty apex.manifest.preinstallhook && is_empty apex.manifest.postinstallhook)
        shim_has_hooks
      >> check_entries is_whitelisted_top_level_entry visited finished

  -- `ReadSha512`: the lines of etc/hash.txt.
  read_sha512 : Text → StatusOr (List Text)
  read_sha512 path = elim (os.read_file (path /+ (etc_folder_name /+ hash_file_name)) w) [
    | none ↦ fail cannot_read
    | some hash ↦ ok (split 10 hash)
  ]

  -- `CalculateSha512`. For a package that cannot be opened the loop of the source does not end;
  -- here it is a failure, the one that the source is written to return.
  calculate_sha512 : Text → StatusOr Text
  calculate_sha512 path = elim (os.read_file path w) [
    | none ↦ fail cannot_read
    | some content ↦ ok (os.sha512 content)
  ]

  -- `ValidateUpdate`.
  unfoldable pub validate_update : Text → Text → Status
  unfolding read_sha512 calculate_sha512
  validate_update system_apex_path new_apex_path = do
    allowed ← read_sha512 system_apex_path
    actual ← calculate_sha512 new_apex_path
    check_that (any_of (text_eq actual) allowed) unexpected_hash
