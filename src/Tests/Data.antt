-- ===== src/Tests/Data.antt =====
-- Data that the runs share.
use android_system_apex.Common.{
  refl, arith, false, none, [], ◌∷◌, Text, codes, text_eq_refl, ℤ, pos,
}
use android_system_apex.Manifest.{ApexManifest}
use android_system_apex.SessionState.{SessionState, staged}
use android_system_apex.Daemon.{Daemon}
use android_system_apex.ApexFile.{ApexFile}
use android_system_apex.Session.Active.{KeepsSessions}
use android_system_apex.Staging.Files.{IsFileSystem}
use android_system_apex.Tests.World.{
  Files, files_os, link_file_ok, link_file_fail, read_session-write_session,
}

abbrev pub no_files : Files
no_files path = none

abbrev pub media : Text
media = codes "com.android.media"

abbrev pub media_manifest : ℤ → ApexManifest
media_manifest version = record {
  name = media;
  version = version;
  preinstallhook = [];
  postinstallhook = [];
  version_name = [];
}

abbrev pub daemon_on : Files → Daemon Files
daemon_on w = record {
  mounted_apexes = [];
  vold_service = none;
  supports_fs_checkpoints = false;
  in_fs_checkpoint_mode = false;
  bootstrap = false;
  scanned_apex_keys = [];
  world = w;
}

pub files_os-IsFileSystem : IsFileSystem files_os (λ p w. w p)
files_os-IsFileSystem = record {
  link_ok = link_file_ok;
  link_fail = link_file_fail;
  unlink_ok = λ a p w h. refl;
  unlink_fail = λ a p w h. absurd (ground arith);
}

abbrev pub session_7 : SessionState
session_7 = record {
  id = pos 7;
  state = staged;
  child_session_ids = pos 8 ∷ pos 9 ∷ [];
  expected_build_fingerprint = codes "build/1";
}

pub files_os-KeepsSessions : KeepsSessions files_os
files_os-KeepsSessions = record {
  read_written = λ path content w _. rw (text_eq_refl path) refl;
  parse_serialized = read_session-write_session;
}

abbrev pub shim_apex : ApexFile
shim_apex = record {
  apex_path = codes "/system/apex/shim.apex";
  is_flattened = false;
  image_offset = pos 4096;
  image_size = 8192;
  manifest = media_manifest (pos 1);
  bundled_public_key = [];
}
