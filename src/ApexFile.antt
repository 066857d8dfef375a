-- ===== src/ApexFile.antt =====
-- apexd/apex_file.cpp: opening a package, and finding packages in directories.
use android_system_apex.Common.{
  ℕ, ℤ, pos, to_i32, Bool, true, false, ◌&&◌, ◌||◌, Option, none, some, List, [], ◌∷◌, ◌++◌, Text,
  codes, ends_with, if◌then◌else◌, Error, cannot_read, cannot_open_package, cannot_scan,
  cannot_access, StatusOr, ok, fail,
}
use android_system_apex.Common.Results.{◌>>=◌}
use android_system_apex.Manifest.{ApexManifest, parse_manifest}
use android_system_apex.Os.{Os, regular, directory, other_kind, unreadable, DirEntry, is_success}
use android_system_apex.Paths.{◌/+◌, filename, apex_package_suffix, is_path_for_builtin_apexes}

-- The class ApexFile.
pub record ApexFile : Type 0 where
  pub apex_path : Text
  pub is_flattened : Bool
  pub image_offset : ℤ
  pub image_size : ℕ
  pub manifest : ApexManifest
  pub bundled_public_key : Text

abbrev manifest_filename : Text
manifest_filename = codes "apex_manifest.json"

abbrev bundled_public_key_filename : Text
bundled_public_key_filename = codes "apex_pubkey"

abbrev image_filename : Text
image_filename = codes "apex_payload.img"

abbrev or_fail {ℓ} : {A : Type ℓ} → Option A → Error → StatusOr A
or_fail none e = fail e
or_fail (some a) e = ok a

-- What opening leaves before the manifest is parsed.
record Contents : Type 0 where
  flattened : Bool
  offset : ℤ
  size : ℕ
  manifest_content : Text
  pubkey : Text

module _ {W : Type 0} (os : Os W) where
  -- `isFlattenedApex`.
  unfoldable pub is_flattened_apex : Text → W → Bool
  is_flattened_apex path w = elim (os.stat (path /+ manifest_filename) w) [
    | regular ↦ true
    | directory ↦ false
    | other_kind ↦ false
    | unreadable e ↦ false
  ]

  open_flattened : Text → W → StatusOr Contents
  open_flattened path w = do
    content ← or_fail (os.read_file (path /+ manifest_filename) w) cannot_read
    let pubkey_path = path /+ bundled_public_key_filename
    key ←
        if is_success (os.access pubkey_path w)
        then or_fail (os.read_file pubkey_path w) cannot_read
        else ok []
    ok (record {
      flattened = true;
      offset = pos 0;
      size = 0;
      manifest_content = content;
      pubkey = key;
    })

  open_zip : Text → W → StatusOr Contents
  open_zip path w = do
    find_entry ← or_fail (os.open_archive path w) cannot_open_package
    image ← or_fail (find_entry image_filename) cannot_open_package
    manifest_entry ← or_fail (find_entry manifest_filename) cannot_open_package
    content ← or_fail manifest_entry.extracted cannot_open_package
    key ← elim (find_entry bundled_public_key_filename) [
      | none ↦ ok []
      | some entry ↦ or_fail entry.extracted cannot_open_package
    ]
    ok (record {
      flattened = false;
      offset = to_i32 image.offset;
      size = image.uncompressed_length;
      manifest_content = content;
      pubkey = key;
    })

  -- `ApexFile::Open`.
  unfoldable pub open_apex : Text → W → StatusOr ApexFile
  unfolding open_flattened open_zip is_flattened_apex
  open_apex path w = do
    contents ← if is_flattened_apex path w then open_flattened path w else open_zip path w
    manifest ← parse_manifest os.json_to_manifest contents.manifest_content
    ok (record {
      apex_path = path;
      is_flattened = contents.flattened;
      image_offset = contents.offset;
      image_size = contents.size;
      manifest = manifest;
      bundled_public_key = contents.pubkey;
    })

  -- `ReadDir`: the paths of the entries that pass the filter.
  unfoldable pub filter_paths : (DirEntry → Bool) → List DirEntry → List Text
  filter_paths p [] = []
  filter_paths p (e ∷ es) = let rest = filter_paths p es in if p e then e.path ∷ rest else rest

  unfoldable pub read_dir : Text → (DirEntry → Bool) → W → StatusOr (List Text)
  unfolding filter_paths
  read_dir path p w =
      let (visited, finished) = os.list_dir path w in
      if finished then ok (filter_paths p visited) else fail cannot_scan

  -- The filter of `FindApexFilesByName`.
  unfoldable pub is_apex_entry : Bool → DirEntry → Bool
  is_apex_entry include_dirs e =
      (e.is_regular && ends_with (filename e.path) apex_package_suffix)
      || (e.is_directory && include_dirs)

  -- `FindApexFilesByName`.
  unfoldable pub find_apex_files_by_name : Text → Bool → W → StatusOr (List Text)
  unfolding is_apex_entry
  find_apex_files_by_name path include_dirs w = read_dir path (is_apex_entry include_dirs) w

  -- `PathExists`.
  unfoldable pub path_exists : Text → W → StatusOr Bool
  path_exists path w = or_fail (os.exists path w) cannot_access

  -- `FindApexes`.
  unfoldable pub find_apexes : List Text → W → StatusOr (List Text)
  find_apexes [] w = ok []
  find_apexes (path ∷ paths) w = do
    exist ← path_exists path w
    found ←
        if exist then find_apex_files_by_name path (is_path_for_builtin_apexes path) w else ok []
    rest ← find_apexes paths w
    ok (found ++ rest)
