-- ===== src/Manifest.antt =====
-- apexd/apex_manifest.cpp and the message of proto/apex_manifest.proto. Turning JSON into the
-- message is protobuf's: the parameter `json_to_manifest`.
use android_system_apex.Common.{
  not, Option, none, some, ◌∷◌, ◌++◌, Text, is_empty, ℤ, is_zero, to_string, cannot_parse,
  missing_name, missing_version, StatusOr, ok, fail,
}
use android_system_apex.Common.Results.{◌>>=◌, ◌>>◌, check_that}
use android_system_apex.Paths.{◌/+◌, apex_root}

pub record ApexManifest : Type 0 where
  pub name : Text
  pub version : ℤ
  pub preinstallhook : Text
  pub postinstallhook : Text
  pub version_name : Text

-- `JsonToApexManifestMessage`, over protobuf's conversion.
json_to_apex_manifest_message : (Text → Option ApexManifest) → Text → StatusOr ApexManifest
json_to_apex_manifest_message json_to_manifest content = elim (json_to_manifest content) [
  | none ↦ fail cannot_parse
  | some m ↦ ok m
]

-- `ParseManifest`.
unfoldable pub parse_manifest : (Text → Option ApexManifest) → Text → StatusOr ApexManifest
unfolding json_to_apex_manifest_message
parse_manifest json_to_manifest content = do
  apex_manifest ← json_to_apex_manifest_message json_to_manifest content
  check_that (not (is_empty apex_manifest.name)) missing_name
  check_that (not (is_zero apex_manifest.version)) missing_version
  ok apex_manifest

-- `GetPackageId`.
unfoldable pub get_package_id : ApexManifest → Text
get_package_id m = m.name ++ (b'@' ∷ to_string m.version)

-- `GetPackageMountPoint`.
unfoldable pub get_package_mount_point : ApexManifest → Text
get_package_mount_point m = apex_root /+ get_package_id m

-- `GetActiveMountPoint`.
unfoldable pub get_active_mount_point : ApexManifest → Text
get_active_mount_point m = apex_root /+ m.name
