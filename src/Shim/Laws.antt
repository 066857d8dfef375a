-- ===== src/Shim/Laws.antt =====
-- What `ValidateShimApex` and `ValidateUpdate` of apexd/apex_shim.cpp let through.
use android_system_apex.Common.{
  ℕ, ◌/◌, ◌%◌, ◌≡◌, ◌↔◌, ◌⊎◌, inl, inr, text_eq_iff, Bool, true, false, some, List, [], ◌∷◌, arith,
  Text, is_empty, All, All-map, success, Status, Option-cases,
}
use android_system_apex.Os.{Os, DirEntry}
use android_system_apex.ApexFile.{ApexFile}
use android_system_apex.Shim.{
  check_entries, is_whitelisted_top_level_entry, is_regular_file, is_hash_txt, validate_shim_apex,
  hash_file_name, lost_found_folder_name, etc_folder_name, manifest_file_name,
}
use android_system_apex.Paths.{filename}

check_entries_iff :
    (check : DirEntry → Status) (es : List DirEntry) (finished : Bool)
    → (check_entries check es finished ≡ success)
      ↔ (All (λ e. check e ≡ success) es × (finished ≡ true))
unfolding check_entries
check_entries_iff check [] finished = ground arith
check_entries_iff check (e ∷ es) finished = ground (arith, check_entries_iff check es finished)

All-map_iff :
    {A : Type 0} (P Q : A → Type 0) (xs : List A) → ((a : A) → P a ↔ Q a) → All P xs ↔ All Q xs
All-map_iff P Q xs same =
    (All-map {P = P} {Q = Q} xs (λ a. (same a).0), All-map {P = Q} {Q = P} xs (λ a. (same a).1))

module _ {W : Type 0} (os : Os W) (w : W) where
  -- A regular file with none of the execute bits.
  abbrev pub IsPlainFile : Text → Type 0
  IsPlainFile path =
      (p : ℕ) × (os.file_status path w ≡ some (true, p))
      × (p % 2 ≡ 0)
      × (p / 8 % 2 ≡ 0)
      × (p / 64 % 2 ≡ 0)

  is_regular_file_iff : (e : DirEntry) → (is_regular_file os w e ≡ success) ↔ IsPlainFile e.path
  unfolding is_regular_file
  is_regular_file_iff e = elim (Option-cases (os.file_status e.path w)) [
    | inl missing ↦ (λ h. ground arith, λ (p, h, x, y, z). ground arith)
    | inr ((true, p), found) ↦ (
      λ h. (p, found, ground arith, ground arith, ground arith),
      λ (p', h, x, y, z). ground arith,
    )
    | inr ((false, p), found) ↦ (λ h. ground arith, λ (p', h, x, y, z). ground arith)
  ]

  -- A file that the folder etc may hold.
  abbrev pub IsHashFile : DirEntry → Type 0
  IsHashFile e = IsPlainFile e.path × (filename e.path ≡ hash_file_name)

  is_hash_txt_iff : (e : DirEntry) → (is_hash_txt os w e ≡ success) ↔ IsHashFile e
  unfolding is_hash_txt
  is_hash_txt_iff e =
      ground (arith, is_regular_file_iff e, text_eq_iff (filename e.path) hash_file_name)

  -- What a shim package may hold: an empty lost+found, a folder etc that is not empty and holds no
  -- file but the list of hashes, and the manifest.
  abbrev pub Allowed : DirEntry → Type 0
  Allowed e =
      ((filename e.path ≡ lost_found_folder_name) × (os.is_empty e.path w ≡ some true))
      ⊎ ((filename e.path ≡ etc_folder_name)
          × (os.is_empty e.path w ≡ some false)
          × ((os.list_dir e.path w).1 ≡ true)
          × All IsHashFile (os.list_dir e.path w).0)
      ⊎ ((filename e.path ≡ manifest_file_name) × IsPlainFile e.path)

  is_whitelisted_top_level_entry_iff :
      (e : DirEntry) → (is_whitelisted_top_level_entry os w e ≡ success) ↔ Allowed e
  unfolding is_whitelisted_top_level_entry
  is_whitelisted_top_level_entry_iff e =
      let (visited, finished) = os.list_dir e.path w in
      ground (
        arith,
        is_regular_file_iff e,
        check_entries_iff (is_hash_txt os w) visited finished,
        All-map_iff (λ f. is_hash_txt os w f ≡ success) IsHashFile visited is_hash_txt_iff,
        text_eq_iff (filename e.path) lost_found_folder_name,
        text_eq_iff (filename e.path) etc_folder_name,
        text_eq_iff (filename e.path) manifest_file_name,
      )

  -- `ValidateShimApex` succeeds exactly when the package has no hook, the walk over the mount
  -- point ends without an error, and each entry of it is an empty lost+found, a folder etc that is
  -- not empty, can be walked and holds files hash.txt only, or the manifest, where these files are
  -- regular files with none of the execute bits.
  pub validate_shim_apex_iff :
      (mount_point : Text) (apex : ApexFile)
      → (validate_shim_apex os w mount_point apex ≡ success) ↔ (
          (is_empty apex.manifest.preinstallhook ≡ true)
          × (is_empty apex.manifest.postinstallhook ≡ true)
          × ((os.list_dir mount_point w).1 ≡ true)
          × All Allowed (os.list_dir mount_point w).0)
  unfolding validate_shim_apex
  validate_shim_apex_iff mount_point apex =
      let (visited, finished) = os.list_dir mount_point w in
      ground (
        arith,
        check_entries_iff (is_whitelisted_top_level_entry os w) visited finished,
        All-map_iff (λ e. is_whitelisted_top_level_entry os w e ≡ success) Allowed visited
            is_whitelisted_top_level_entry_iff,
      )
