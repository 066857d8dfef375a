-- ===== src/Tests/Examples.antt =====
-- Runs of the parts of apexd on a world of files.
use android_system_apex.Common.{
  ℕ, ◌≤◌, ◌<◌, ◌≡◌, ◌↔◌, ◌⊎◌, refl, true, false, none, some, List, [], ◌∷◌, arith, Text, codes,
  text_lt, text_eq, starts_with, ends_with, is_empty, pos, to_string, All, ok, success, done,
}
use android_system_apex.OrdMap.{find, emplace, is_new, update}
use android_system_apex.Os.{Os}
use android_system_apex.Manifest.{get_package_mount_point, get_active_mount_point}
use android_system_apex.Paths.{parent_path, apex_root, filename, split, split_last}
use android_system_apex.SessionState.{activated, unknown, succeeded}
use android_system_apex.Daemon.{Daemon}
use android_system_apex.ApexFile.{ApexFile}
use android_system_apex.Database.Entry.{MountedApexData, data_lt}
use android_system_apex.Database.{
  Database, add_mounted_apex, set_latest, set_latest_in, entries, latest_count,
  check_at_most_one_latest, check_unique_loop_dm,
}
use android_system_apex.Populate.{
  Versions, parse_mount_point, parse_mount_info, is_active_mount_point, resolve_mount_info,
  populate_from_mounts, populate_line, populate_lines, restore, active_version,
}
use android_system_apex.Populate.Names.{parse_mount_point-get_package_mount_point}
use android_system_apex.Populate.Bounds.{restore-parse_mount_point_bounds}
use android_system_apex.Populate.Marks.{Mount, Newest}
use android_system_apex.Populate.Mounts.{mounts_from, populate_from_mounts-Newest}
use android_system_apex.Session.{
  get_sessions, get_active_session, get_session, update_state_and_commit, create_session,
}
use android_system_apex.Session.Active.{
  only_one, unfinished, get_active_session-only_one, get_session-update_state_and_commit,
  create_session_returns,
}
use android_system_apex.Keys.{ApexKeys, find_key, update_scanned_apex_keys}
use android_system_apex.Keys.Laws.{Covers, first_key, update_scanned_apex_keys-Covers}
use android_system_apex.Shim.{validate_shim_apex}
use android_system_apex.Shim.Laws.{Allowed, validate_shim_apex_iff}
use android_system_apex.Devices.{read_sizes, buf_size}
use android_system_apex.Devices.Read.{sum, read_sizes_total}
use android_system_apex.Staging.{link_all}
use android_system_apex.Staging.Files.{Undone, Linked, link_all_atomic}
use android_system_apex.Tests.World.{Files, set_file, files_os, parse_digits, write_session}
use android_system_apex.Tests.Data.{
  no_files, media, media_manifest, daemon_on, session_7, files_os-KeepsSessions,
  files_os-IsFileSystem, shim_apex,
}

abbrev backing_path : Text
backing_path = codes "/sys/block/loop0/loop/backing_file"

-- One loop device with a backing file.
abbrev with_loop : Files
with_loop = set_file backing_path (some (codes "/data/apex/active/media.apex")) no_files

abbrev mounts : List Text
mounts =
    codes "/dev/block/loop0 /apex/com.android.media@1 ext4 ro 0 0"
    ∷ codes "/dev/block/loop0 /apex/com.android.media ext4 ro 0 0"
    ∷ []

abbrev media_1 : MountedApexData
media_1 = record {
  loop_name = codes "/dev/block/loop0";
  full_path = codes "/data/apex/active/media.apex";
  mount_point = codes "/apex/com.android.media@1";
  device_name = [];
}

abbrev restored : Database
restored = (media, (media_1, true) ∷ []) ∷ []

populated : populate_from_mounts files_os with_loop mounts [] ≡ some restored
unfolding populate_from_mounts populate_line populate_lines restore active_version parse_mount_point
    parse_mount_info is_active_mount_point resolve_mount_info add_mounted_apex set_latest
    set_latest_in check_at_most_one_latest check_unique_loop_dm latest_count entries emplace is_new
    update find data_lt text_lt text_eq starts_with ends_with filename parent_path split split_last
    parse_digits
populated = refl

populate_from_mounts-Newest_example :
    (vs : Versions) × Newest media (mounts_from files_os with_loop [] mounts) (restored, vs)
populate_from_mounts-Newest_example =
    populate_from_mounts-Newest files_os with_loop mounts media restored populated

abbrev media_mount : Mount
media_mount = record { pkg = media; version = pos 1; mounted = media_1 }

reads_back : parse_digits 0 (to_string (pos 12)) ≡ some (pos 12)
unfolding parse_digits to_string
reads_back = refl

beyond_32_bits : parse_digits 0 (to_string (pos 3000000000)) ≡ none
unfolding parse_digits to_string
beyond_32_bits = refl

parse_mount_point-get_package_mount_point_example :
    let m = media_manifest (pos 12) in
    (parse_mount_point (parse_digits 0) (get_package_mount_point m) ≡ (media, pos 12))
    × (parent_path (get_package_mount_point m) ≡ apex_root)
    × (is_active_mount_point (get_package_mount_point m) ≡ false)
    × (is_active_mount_point (get_active_mount_point m) ≡ true)
parse_mount_point-get_package_mount_point_example =
    parse_mount_point-get_package_mount_point (parse_digits 0) (media_manifest (pos 12)) refl refl
      reads_back

restore-parse_mount_point_bounds_example :
    let point = get_package_mount_point (media_manifest (pos 3000000000)) in
    let (pkg, version) = parse_mount_point (parse_digits 0) point in
    (vs : Versions) × (restore pkg version media_1 ([], [])
      ≡ some ((media, (media_1, false) ∷ []) ∷ [], vs))
restore-parse_mount_point_bounds_example =
    restore-parse_mount_point_bounds (parse_digits 0) (media_manifest (pos 3000000000)) 3000000000
      media_1 refl refl refl (omega arith) beyond_32_bits

-- Two packages to stage; a package's content is the name in its manifest.
abbrev staged_paths : List Text
staged_paths =
    codes "/data/app-staging/session_1/a.apex" ∷ codes "/data/app-staging/session_2/b.apex" ∷ []

abbrev with_staged : Files
with_staged = set_file (codes "/data/app-staging/session_1/a.apex") (some media) (
    set_file (codes "/data/app-staging/session_2/b.apex") (some (codes "com.android.tzdata"))
      no_files)

link_all_atomic_example :
    let d = daemon_on with_staged in
    let r = link_all files_os staged_paths ([], []) d in
    Undone files_os (λ p w. w p) d.world r ⊎ Linked files_os (λ p w. w p) d.world r
link_all_atomic_example =
    link_all_atomic files_os (λ p w. w p) staged_paths (daemon_on with_staged) files_os-IsFileSystem

-- A world in which each session is a directory.
abbrev sessions_os : Os Files
sessions_os = record files_os {
  list_dir = λ path w. (
    record { path = codes "/data/apex/sessions/7"; is_regular = false; is_directory = true }
        ∷ record { path = codes "/data/apex/sessions/9"; is_regular = false; is_directory = true }
        ∷ [],
    true,
  );
}

abbrev with_sessions : Files
with_sessions = set_file (codes "/data/apex/sessions/7/state") (some (write_session session_7)) (
    set_file (codes "/data/apex/sessions/9/state")
      (some (write_session (record session_7 { id = pos 9; state = succeeded }))) no_files)

get_active_session-only_one_example :
    get_active_session sessions_os with_sessions
    ≡ only_one (unfinished (get_sessions sessions_os with_sessions))
get_active_session-only_one_example = get_active_session-only_one sessions_os with_sessions

abbrev committed : Daemon Files
committed = (update_state_and_commit files_os session_7 activated (daemon_on no_files)).1

committed-done :
    update_state_and_commit files_os session_7 activated (daemon_on no_files)
    ≡ (done (record session_7 { state = activated }), committed)
unfolding update_state_and_commit
committed-done = refl

get_session-update_state_and_commit_example :
    (record session_7 { state = activated } ≡ record session_7 { state = activated })
    × (get_session files_os (pos 7) committed.world ≡ ok (record session_7 { state = activated }))
get_session-update_state_and_commit_example =
    get_session-update_state_and_commit files_os session_7 (record session_7 { state = activated })
      activated (daemon_on no_files) committed files_os-KeepsSessions committed-done

create_session_returns_example :
    (create_session files_os (pos 7) (daemon_on no_files)).0
    ≡ done (record {
      id = pos 7;
      state = unknown;
      child_session_ids = [];
      expected_build_fingerprint = [];
    })
create_session_returns_example = create_session_returns files_os (pos 7) (daemon_on no_files)

abbrev old_keys : ApexKeys
old_keys = (media, codes "key-a") ∷ []

abbrev new_pairs : ApexKeys
new_pairs = (codes "com.android.tzdata", codes "key-b") ∷ (media, codes "key-a") ∷ []

new_pairs-updated : (update_scanned_apex_keys new_pairs old_keys).0 ≡ success
unfolding update_scanned_apex_keys find_key text_eq
new_pairs-updated = refl

update_scanned_apex_keys-Covers_example :
    Covers (update_scanned_apex_keys new_pairs old_keys).1 new_pairs
    × (find_key media (update_scanned_apex_keys new_pairs old_keys).1
        ≡ first_key (find_key media old_keys) (find_key media new_pairs))
update_scanned_apex_keys-Covers_example =
    update_scanned_apex_keys-Covers media new_pairs old_keys new_pairs-updated

abbrev hooked_apex : ApexFile
hooked_apex = record shim_apex {
  manifest = record (media_manifest (pos 1)) { preinstallhook = codes "bin/pre" };
}

-- A world in which each directory holds a manifest.
abbrev shim_os : Os Files
shim_os = record files_os {
  list_dir = λ path w. (
    record {
      path = codes "/apex/shim@1/apex_manifest.json";
      is_regular = true;
      is_directory = false;
    }
        ∷ [],
    true,
  );
}

abbrev shim_mount : Text
shim_mount = codes "/apex/shim@1"

abbrev shim_files : Files
shim_files = set_file (codes "/apex/shim@1/apex_manifest.json") (some media) no_files

validate_shim_apex_iff_example :
    (validate_shim_apex shim_os shim_files shim_mount shim_apex ≡ success) ↔ (
      (is_empty shim_apex.manifest.preinstallhook ≡ true)
      × (is_empty shim_apex.manifest.postinstallhook ≡ true)
      × ((shim_os.list_dir shim_mount shim_files).1 ≡ true)
      × All (Allowed shim_os shim_files) (shim_os.list_dir shim_mount shim_files).0)
validate_shim_apex_iff_example = validate_shim_apex_iff shim_os shim_files shim_mount shim_apex

read_sizes_total_example :
    (sizes : List ℕ) × (read_sizes 6000 6000 ≡ some sizes)
    × (sum sizes ≡ 6000)
    × All (λ k. (0 < k) × (k ≤ buf_size)) sizes
read_sizes_total_example = read_sizes_total 6000 6000 (omega arith)
