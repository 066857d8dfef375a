-- ===== src/Populate.antt =====
-- apexd/apex_database.cpp: the database is filled from the mounts that are found at startup.
pub mod Valid
pub mod Bounds
pub mod Names
pub mod Marks
pub mod Newest
pub mod Mounts
use android_system_apex.Common.{
  ℕ, Bool, false, not, ◌&&◌, Option, none, some, List, [], ◌∷◌, Text, codes, text_eq, starts_with,
  contains_byte, ℤ, pos, negsuc, ltb_ℤ, ◌==◌, if◌then◌else◌, cannot_read, loop_failed, not_found,
  StatusOr, ok, fail,
}
use android_system_apex.Common.Results.{◌>>=◌}
use android_system_apex.Paths.{
  filename, parent_path, split, ◌/+◌, apex_root, apex_package_builtin_dirs,
}
use android_system_apex.Os.{Os, DirEntry}
use android_system_apex.ApexFile.{is_flattened_apex}
use android_system_apex.Database.Entry.{MountedApexData}
use android_system_apex.Database.{Database, add_mounted_apex, set_latest}

-- `parseMountInfo`: the block device and the mount point of a line of /proc/mounts.
unfoldable pub parse_mount_info : Text → Text × Text
parse_mount_info line = elim (split b' ' line) [
  | [] ↦ ([], [])
  | block ∷ rest ↦ elim rest [ [] ↦ ([], []) | mount_point ∷ _ ↦ (block, mount_point) ]
]

-- `parseMountPoint`: the package and the version in the last part of a mount point.
unfoldable pub parse_mount_point : (Text → Option ℤ) → Text → Text × ℤ
parse_mount_point parse_int mount_point =
    let package_id = filename mount_point in
    elim (split b'@' package_id) [
      | [] ↦ (package_id, negsuc 0)
      | name ∷ rest ↦ elim rest [
        | [] ↦ (package_id, negsuc 0)
        | version ∷ more ↦ elim more [
          | [] ↦ (name, elim (parse_int version) [ none ↦ negsuc 0 | some v ↦ v ])
          | _ ∷ _ ↦ (package_id, negsuc 0)
        ]
      ]
    ]

-- `isActiveMountPoint`.
unfoldable pub is_active_mount_point : Text → Bool
is_active_mount_point mount_point = not (contains_byte b'@' mount_point)

pub data BlockDeviceType : Type 0 where
  unknown_device loop_device device_mapper_device : BlockDeviceType

-- `BlockDevice::GetType`, of the device's name.
get_type : Text → BlockDeviceType
get_type name =
    if starts_with name (codes "loop")
    then loop_device
    else if starts_with name (codes "dm-")
    then device_mapper_device
    else unknown_device

-- The first slave, if it is a loop device.
abbrev first_loop_device : List Text → StatusOr Text
first_loop_device [] = fail loop_failed
first_loop_device (slave ∷ _) = elim (get_type slave) [
  | loop_device ↦ ok slave
  | _ ↦ fail loop_failed
]

abbrev sys_path : Text → Text
sys_path name = codes "/sys/block" /+ name

abbrev dev_path : Text → Text
dev_path name = codes "/dev/block" /+ name

module _ {W : Type 0} (os : Os W) (w : W) where
  -- `BlockDevice::GetProperty`.
  get_property : Text → Text → StatusOr Text
  get_property name property = elim (os.read_file (sys_path name /+ property) w) [
    | none ↦ fail cannot_read
    | some value ↦ ok (os.trim value)
  ]

  block_files : List DirEntry → List Text
  block_files [] = []
  block_files (e ∷ es) =
      let name = filename e.path in
      let rest = block_files es in if os.is_block_file (dev_path name) w then name ∷ rest else rest

  -- `BlockDevice::GetSlaves`: what was walked stays when the walk fails.
  get_slaves : Text → List Text
  get_slaves name = block_files (os.list_dir (sys_path name /+ codes "slaves") w).0

  abbrev InodeMap : Type 0
  InodeMap = List ((ℕ × ℕ) × Text)

  abbrev inode_eq : ℕ × ℕ → ℕ × ℕ → Bool
  inode_eq (d, i) (d', i') = (d == d') && (i == i')

  -- `inodeMap.find`: the last write to a key counts.
  find_inode : ℕ × ℕ → InodeMap → Option Text
  find_inode k [] = none
  find_inode k ((j, path) ∷ m) = if inode_eq k j then some path else find_inode k m

  scan_entries : InodeMap → List DirEntry → InodeMap
  scan_entries m [] = m
  scan_entries m (e ∷ es) =
      let found : InodeMap = elim (os.inode e.path w) [ none ↦ m | some i ↦ (i, e.path) ∷ m ] in
      scan_entries (if is_flattened_apex os e.path w then found else m) es

  scan_dirs : InodeMap → List Text → InodeMap
  scan_dirs m [] = m
  scan_dirs m (dir ∷ dirs) = scan_dirs (scan_entries m (os.list_dir dir w).0) dirs

  -- `scanFlattendedPackages`.
  scan_flattened_packages : InodeMap
  unfolding scan_entries scan_dirs
  scan_flattened_packages = scan_dirs [] apex_package_builtin_dirs

  abbrev mounted_data : Text → Text → Text → Text → MountedApexData
  mounted_data loop_name full_path mount_point device_name = record {
    loop_name = loop_name;
    full_path = full_path;
    mount_point = mount_point;
    device_name = device_name;
  }

  resolve_device : BlockDeviceType → Text → Text → StatusOr MountedApexData
  resolve_device loop_device block mount_point = do
    backing_file ← get_property block (codes "loop/backing_file")
    ok (mounted_data (dev_path block) backing_file mount_point [])
  resolve_device device_mapper_device block mount_point = do
    name ← get_property block (codes "dm/name")
    slave ← first_loop_device (get_slaves block)
    backing_file ← get_property slave (codes "loop/backing_file")
    ok (mounted_data (dev_path slave) backing_file mount_point name)
  resolve_device unknown_device block mount_point = fail not_found

  -- `resolveMountInfo`.
  unfoldable pub resolve_mount_info : Text → Text → StatusOr MountedApexData
  unfolding get_property get_slaves block_files find_inode resolve_device get_type
      scan_flattened_packages
  resolve_mount_info block mount_point =
      let by_device = resolve_device (get_type block) block mount_point in
      elim (os.inode mount_point w) [
        | none ↦ by_device
        | some i ↦ elim (find_inode i scan_flattened_packages) [
          | none ↦ by_device
          | some path ↦ ok (mounted_data [] path mount_point [])
        ]
      ]

-- `activeVersions`, with 0 for a package that has no entry.
abbrev pub Versions : Type 0
Versions = List (Text × ℤ)

unfoldable pub active_version : Text → Versions → ℤ
active_version pkg [] = pos 0
active_version pkg ((p, v) ∷ vs) = if text_eq p pkg then v else active_version pkg vs

-- One round of the loop on a mount point whose data were found: the entry is added, and becomes
-- the latest if its version is greater than that of the latest one so far.
unfoldable pub restore :
    Text → ℤ → MountedApexData → Database × Versions → Option (Database × Versions)
restore pkg version mounted (db, vs) = elim (add_mounted_apex pkg false mounted db) [
  | none ↦ none
  | some db' ↦
      if ltb_ℤ (active_version pkg vs) version
      then elim (set_latest pkg mounted.full_path db') [
        | none ↦ none
        | some db'' ↦ some (db'', (pkg, version) ∷ vs)
      ]
      else some (db', vs)
]

module _ {W : Type 0} (os : Os W) (w : W) where
  -- One line of /proc/mounts.
  unfoldable pub populate_line : Text → Database × Versions → Option (Database × Versions)
  unfolding parse_mount_info
  populate_line line state =
      let (block, mount_point) = parse_mount_info line in
      let (pkg, version) = parse_mount_point os.parse_int mount_point in
      if not (text_eq (parent_path mount_point) apex_root)
      then some state
      else if is_active_mount_point mount_point
      then some state
      else elim (resolve_mount_info os w (filename block) mount_point) [
        | fail e ↦ some state
        | ok mounted ↦ restore pkg version mounted state
      ]

  unfoldable pub populate_lines : List Text → Database × Versions → Option (Database × Versions)
  populate_lines [] state = some state
  populate_lines (line ∷ lines) state = elim (populate_line line state) [
    | none ↦ none
    | some state' ↦ populate_lines lines state'
  ]

  -- `PopulateFromMounts`, given the lines of /proc/mounts.
  unfoldable pub populate_from_mounts : List Text → Database → Option Database
  unfolding populate_lines
  populate_from_mounts lines db = elim (populate_lines lines (db, [])) [
    | none ↦ none
    | some (db', _) ↦ some db'
  ]
