-- ===== src/Keys.antt =====
-- apexd/apex_key.cpp: the public keys that the built-in packages carry.
pub mod Laws
use android_system_apex.Common.{
  Bool, true, false, not, Option, none, some, List, [], ◌∷◌, Text, text_eq, if◌then◌else◌,
  key_conflict, key_missing, illegal_key_dir, StatusOr, ok, fail, success,
}
use android_system_apex.Common.Results.{◌>>=◌}
use android_system_apex.Paths.{apex_package_builtin_dirs, is_path_for_builtin_apexes}
use android_system_apex.Os.{Os, Errno}
use android_system_apex.ApexFile.{open_apex, find_apex_files_by_name}

-- `gScannedApexKeys`.
abbrev pub ApexKeys : Type 0
ApexKeys = List (Text × Text)

unfoldable pub find_key : Text → ApexKeys → Option Text
find_key name [] = none
find_key name ((k, v) ∷ keys) = if text_eq k name then some v else find_key name keys

-- `updateScannedApexKeys`: the keys so far stay when it fails.
unfoldable pub update_scanned_apex_keys : ApexKeys → ApexKeys → StatusOr (Unit {0}) × ApexKeys
update_scanned_apex_keys [] keys = (success, keys)
update_scanned_apex_keys ((name, key) ∷ pairs) keys =
    let inserted = update_scanned_apex_keys pairs ((name, key) ∷ keys) in
    let kept = update_scanned_apex_keys pairs keys in
    elim (find_key name keys) [
      | none ↦ inserted
      | some existing ↦ if text_eq existing key then kept else (fail key_conflict, keys)
    ]

-- `getApexKey`.
unfoldable pub get_apex_key : ApexKeys → Text → StatusOr Text
get_apex_key keys name = elim (find_key name keys) [ none ↦ fail key_missing | some key ↦ ok key ]

module _ {W : Type 0} (os : Os W) where
  key_pairs : List Text → W → StatusOr ApexKeys
  key_pairs [] w = ok []
  key_pairs (file ∷ files) w = do
    apex ← open_apex os file w
    rest ← key_pairs files w
    ok ((apex.manifest.name, apex.bundled_public_key) ∷ rest)

  abbrev is_enoent : Errno → Bool
  is_enoent Errno.enoent = true
  is_enoent e = false

  -- `collectEmbedddedApexKeysFromDir`.
  unfoldable pub collect_embedded_apex_keys_from_dir : Text → W → StatusOr ApexKeys
  unfolding key_pairs
  collect_embedded_apex_keys_from_dir dir w =
      if is_enoent (os.access dir w)
      then ok []
      else if not (is_path_for_builtin_apexes dir)
      then fail illegal_key_dir
      else (do files ← find_apex_files_by_name os dir true w; key_pairs files w)

  collect_from_dirs : List Text → W → ApexKeys → StatusOr (Unit {0}) × ApexKeys
  collect_from_dirs [] w keys = (success, keys)
  collect_from_dirs (dir ∷ dirs) w keys = elim (collect_embedded_apex_keys_from_dir dir w) [
    | fail e ↦ (fail e, keys)
    | ok pairs ↦
        let (st, keys') = update_scanned_apex_keys pairs keys in
        elim st [ fail e ↦ (fail e, keys') | ok _ ↦ collect_from_dirs dirs w keys' ]
  ]

  -- `collectApexKeys`.
  unfoldable pub collect_apex_keys : W → ApexKeys → StatusOr (Unit {0}) × ApexKeys
  unfolding collect_from_dirs
  collect_apex_keys = collect_from_dirs apex_package_builtin_dirs
