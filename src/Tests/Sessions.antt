-- ===== src/Tests/Sessions.antt =====
-- Runs of the life of a session, of staging and of verification (apexd/apexd.cpp,
-- apexd/apex_file.cpp).
use android_system_apex.Common.{
  List, to_string, ◌≡◌, ◌↔◌, ◌⊎◌, refl, true, false, some, [], ◌∷◌, Text, codes, text_eq, is_empty,
  pos, All, Any, Error, ok, success, done, failed, aborted,
}
use android_system_apex.Os.{Os, is_success, result_ok}
use android_system_apex.Config.{Config}
use android_system_apex.Paths.{◌/+◌}
use android_system_apex.Manifest.{parse_manifest}
use android_system_apex.SessionState.{
  staged, activated, activation_failed, rolled_back, rollback_failed,
}
use android_system_apex.Daemon.{Daemon}
use android_system_apex.Database.{PackageMap}
use android_system_apex.Session.{get_sessions_in_state}
use android_system_apex.Session.Active.{OnlySession, KeepsSessions}
use android_system_apex.Session.Commit.{Writes, OnDisk}
use android_system_apex.Lifecycle.{activate_session, stage_session, mark_staged_session_ready}
use android_system_apex.Lifecycle.Sessions.{stage_session_outcome}
use android_system_apex.Lifecycle.Lifetime.{write_verified_lifetime, staged_session, Scanned}
use android_system_apex.Rollback.{restore_active, rollback_activated_session}
use android_system_apex.Rollback.Outcomes.{started, rollback_activated_session_outcome}
use android_system_apex.ApexFile.{ApexFile}
use android_system_apex.Lifecycle.{packages_to_submit, submit_staged_session, write_verified}
use android_system_apex.Lifecycle.Submission.{Submitted, submit_staged_session_outcome}
use android_system_apex.Rollback.Resume.{Resumed, resume_rollback-Resumed}
use android_system_apex.Staging.{contains, remove_previously_active_apex_files}
use android_system_apex.Staging.Files.{IsFileSystem}
use android_system_apex.Staging.Removal.{remove_previously_active_apex_files_keeps}
use android_system_apex.Activate.{look_for_version}
use android_system_apex.Activate.Versions.{IsNotNewer, IsSame, look_for_version_iff}
use android_system_apex.Keys.{ApexKeys, find_key}
use android_system_apex.Verity.{verify_manifest_matches, verify_vb_meta_signature}
use android_system_apex.Verity.Laws.{verify_manifest_matches_iff, verify_vb_meta_signature_iff}
use android_system_apex.Tests.World.{Files, set_file, files_os}
use android_system_apex.Tests.Data.{
  no_files, media, daemon_on, session_7, files_os-KeepsSessions, files_os-IsFileSystem, shim_apex,
}

files_os-Writes : Writes files_os
files_os-Writes path content w = refl

abbrev pub config : Config
config = record {
  updatable = true;
  force_dm_verity_on_system = false;
  debug_allow_bundled_key = false;
}

stage_session_outcome_example :
    let d = daemon_on no_files in
    let r = stage_session files_os config session_7 d in
    (((activate_session files_os config session_7 d).0 ≡ done tt)
      × (r.0 ≡ done tt)
      × OnDisk files_os session_7 activated r.1)
    ⊎ ((((e : Error) × ((activate_session files_os config session_7 d).0 ≡ failed e))
          × (r.0 ≡ done tt)
          × OnDisk files_os session_7 activation_failed r.1)
        ⊎ (((activate_session files_os config session_7 d).0 ≡ aborted) × (r.0 ≡ aborted)))
stage_session_outcome_example =
    stage_session_outcome files_os config session_7 (daemon_on no_files) files_os-KeepsSessions
      files_os-Writes

-- A world whose directories hold the session's directory alone.
abbrev session_os : Os Files
session_os = record files_os {
  list_dir = λ path w. (
    record { path = codes "/data/apex/sessions/7"; is_regular = false; is_directory = true } ∷ [],
    true,
  );
}

-- The session is submitted and found ready, and nothing else happens between.
abbrev submitted : Daemon Files
submitted = (write_verified session_os config (pos 7) (pos 8 ∷ []) (daemon_on no_files)).1

abbrev marked : Daemon Files
marked = (mark_staged_session_ready session_os (pos 7) submitted).1

session_os-KeepsSessions : KeepsSessions session_os
session_os-KeepsSessions = record {
  read_written = files_os-KeepsSessions.read_written;
  parse_serialized = files_os-KeepsSessions.parse_serialized;
}

session_os-Writes : Writes session_os
session_os-Writes path content w = refl

session_os-OnlySession : OnlySession session_os (pos 7) marked.world
unfolding to_string
session_os-OnlySession = refl

write_verified_lifetime_example :
    let s = staged_session session_os config (pos 7) (pos 8 ∷ []) (daemon_on no_files) in
    ((mark_staged_session_ready session_os (pos 7) submitted).0 ≡ done tt)
    × (get_sessions_in_state session_os staged marked.world ≡ s ∷ [])
    × Scanned session_os config s marked
write_verified_lifetime_example =
    write_verified_lifetime session_os config (pos 7) (pos 8 ∷ []) (daemon_on no_files) submitted
      marked session_os-KeepsSessions session_os-Writes refl refl session_os-OnlySession

rollback_activated_session_outcome_example :
    let d = daemon_on no_files in
    let r = rollback_activated_session files_os session_7 d in
    (((restore_active files_os (started files_os session_7 d)).0 ≡ done tt)
      × (r.0 ≡ done tt)
      × OnDisk files_os session_7 rolled_back r.1)
    ⊎ ((e : Error) × ((restore_active files_os (started files_os session_7 d)).0 ≡ failed e)
        × (r.0 ≡ failed e)
        × OnDisk files_os session_7 rollback_failed r.1)
rollback_activated_session_outcome_example =
    rollback_activated_session_outcome files_os session_7 (daemon_on no_files)
      files_os-KeepsSessions files_os-Writes refl

resume_rollback-Resumed_example : Resumed files_os session_7 (daemon_on no_files)
resume_rollback-Resumed_example =
    resume_rollback-Resumed files_os session_7 (daemon_on no_files) files_os-KeepsSessions
      files_os-Writes refl

submit_staged_session_outcome_example :
    let d = daemon_on no_files in
    let packages = packages_to_submit files_os config (pos 7) (pos 8 ∷ []) d in
    let r = submit_staged_session files_os config (pos 7) (pos 8 ∷ []) d in
    ((apexes : List ApexFile) × (packages.0 ≡ done apexes)
      × (r.0 ≡ done apexes)
      × Submitted files_os config (pos 7) (pos 8 ∷ []) packages.1 r.1)
    ⊎ (((e : Error) × (packages.0 ≡ failed e) × (r ≡ (failed e, packages.1)))
        ⊎ ((packages.0 ≡ aborted) × (r ≡ (aborted, packages.1))))
submit_staged_session_outcome_example =
    submit_staged_session_outcome files_os config (pos 7) (pos 8 ∷ []) (daemon_on no_files)
      files_os-KeepsSessions files_os-Writes

abbrev kept : Text
kept = codes "/data/apex/active/com.android.media@1.apex"

abbrev other_kept : Text
other_kept = codes "/data/apex/active/com.android.media@2.apex"

-- A world whose active directory holds two versions of a package.
abbrev active_os : Os Files
active_os = record files_os {
  list_dir = λ path w. (
    record { path = other_kept; is_regular = true; is_directory = false }
        ∷ record { path = kept; is_regular = true; is_directory = false }
        ∷ [],
    true,
  );
}

abbrev active_files : Files
active_files = set_file kept (some media) (set_file other_kept (some media) no_files)

active_os-IsFileSystem : IsFileSystem active_os (λ p w. w p)
active_os-IsFileSystem = record {
  link_ok = files_os-IsFileSystem.link_ok;
  link_fail = files_os-IsFileSystem.link_fail;
  unlink_ok = files_os-IsFileSystem.unlink_ok;
  unlink_fail = files_os-IsFileSystem.unlink_fail;
}

kept-contained : contains kept (kept ∷ []) ≡ true
unfolding text_eq
kept-contained = refl

remove_previously_active_apex_files_keeps_example :
    (remove_previously_active_apex_files active_os
        (media ∷ [])
        (kept ∷ [])
        (daemon_on active_files)).1.world
      kept
    ≡ active_files kept
remove_previously_active_apex_files_keeps_example =
    remove_previously_active_apex_files_keeps active_os (λ p w. w p) (media ∷ []) (kept ∷ []) kept
      (daemon_on active_files) active_os-IsFileSystem kept-contained

missing_second :
    is_success (files_os.access other_kept (set_file kept (some media) no_files)) ≡ false
unfolding text_eq
missing_second = refl

abbrev active_mounts : PackageMap
active_mounts =
    (
      record { loop_name = codes "loop0"; full_path = kept; mount_point = []; device_name = [] },
      true,
    )
    ∷ []

look_for_version_iff_example :
    (((look_for_version files_os 2 active_mounts active_files).is_newest_version ≡ true)
      ↔ All (IsNotNewer files_os 2 active_files) active_mounts)
    × (((look_for_version files_os 2 active_mounts active_files).version_found_mounted ≡ true)
        ↔ Any (IsSame files_os 2 active_files) active_mounts)
look_for_version_iff_example = look_for_version_iff files_os 2 active_files active_mounts

verify_manifest_matches_iff_example :
    let w = set_file (codes "/apex/shim@1/apex_manifest.json") (some media) no_files in
    let mount_path = codes "/apex/shim@1" in
    (verify_manifest_matches files_os shim_apex mount_path w ≡ success) ↔ (
      (content : Text) × (files_os.read_file (mount_path /+ codes "apex_manifest.json") w
        ≡ some content)
      × (parse_manifest files_os.json_to_manifest content ≡ ok shim_apex.manifest))
verify_manifest_matches_iff_example =
    verify_manifest_matches_iff files_os shim_apex (codes "/apex/shim@1")
      (set_file (codes "/apex/shim@1/apex_manifest.json") (some media) no_files)

-- A library that accepts each image as signed by `key-a` for the package.
abbrev signed_os : Os Files
signed_os = record files_os {
  avb_verify = λ vbmeta. (result_ok, codes "key-a");
  avb_property = λ vbmeta name. some media;
}

abbrev keys : ApexKeys
keys = (media, codes "key-a") ∷ []

verify_vb_meta_signature_iff_example :
    (verify_vb_meta_signature signed_os false keys shim_apex (codes "AVB0") ≡ success) ↔ (
      ((signed_os.avb_verify (codes "AVB0")).0 ≡ result_ok)
      × (signed_os.avb_property (codes "AVB0") (codes "apex.key") ≡ some media)
      × (is_empty media ≡ false)
      × (find_key media keys ≡ some (signed_os.avb_verify (codes "AVB0")).1))
verify_vb_meta_signature_iff_example =
    verify_vb_meta_signature_iff signed_os keys shim_apex (codes "AVB0")
