-- ===== src/Verity.antt =====
-- apexd/apex_file.cpp: the AVB checks of a package (`VerifyApexVerity`) and the comparison of its
-- manifest with the one in its image (`VerifyManifestMatches`). libavb's parsers are parameters.
pub mod Laws
use android_system_apex.Common.{
  ℕ, zero, suc, ◌+◌, ◌-◌, ◌*◌, ◌/◌, ◌%◌, ◌^◌, Option, to_u64, Bool, false, not, ◌&&◌, none, some,
  List, [], ◌∷◌, Text, codes, text_eq, is_empty, ltb, if◌then◌else◌, ℤ, pos, negsuc, ◌==◌,
  cannot_read, verity_failed, verification_failed, key_missing, StatusOr, ok, fail, Status,
}
use android_system_apex.Common.Results.{◌>>=◌, ◌>>◌, check_that}
use android_system_apex.Manifest.{ApexManifest, parse_manifest}
use android_system_apex.Os.{Os, result_ok, AvbFooter, AvbDescriptor, HashtreeDescriptor}
use android_system_apex.ApexFile.{ApexFile}
use android_system_apex.Paths.{◌/+◌}
use android_system_apex.Keys.{ApexKeys, get_apex_key}

-- `ApexVerityData`.
pub record ApexVerityData : Type 0 where
  pub desc : HashtreeDescriptor
  pub salt : Text
  pub root_digest : Text

abbrev pub avb_footer_size : ℕ
avb_footer_size = 64

abbrev pub vb_meta_max_size : ℕ
vb_meta_max_size = 64 * 1024

abbrev hex_digit : ℕ → ℕ
hex_digit n = if ltb n 10 then 48 + n else 87 + n

-- `bytes_to_hex` of the first `n` bytes.
unfoldable pub bytes_to_hex : ℕ → Text → Text
bytes_to_hex zero s = []
bytes_to_hex (suc n) [] = []
bytes_to_hex (suc n) (b ∷ s) = hex_digit (b / 16) ∷ hex_digit (b % 16) ∷ bytes_to_hex n s

abbrev drop : ℕ → Text → Text
drop zero s = s
drop (suc n) [] = []
drop (suc n) (b ∷ s) = drop n s

-- `getSalt`.
get_salt : HashtreeDescriptor → Text → Text
get_salt desc trailing = bytes_to_hex desc.salt_len (drop desc.partition_name_len trailing)

-- `getDigest`.
get_digest : HashtreeDescriptor → Text → Text
get_digest desc trailing =
    bytes_to_hex desc.root_digest_len (drop (desc.partition_name_len + desc.salt_len) trailing)

-- `verifyPublicKey`: the lengths and the bytes agree.
verify_public_key : Text → Text → Status
verify_public_key key content = check_that (text_eq content key) verification_failed

-- `findDescriptor`: the first hashtree descriptor, unless one before it does not validate.
unfoldable pub find_descriptor : List AvbDescriptor → StatusOr AvbDescriptor
find_descriptor [] = fail verity_failed
find_descriptor (d ∷ ds) =
    let rest = find_descriptor ds in
    if not d.validates then fail verity_failed else if d.is_hashtree then ok d else rest

-- `verifyDescriptor`.
verify_descriptor : AvbDescriptor → StatusOr HashtreeDescriptor
verify_descriptor d = elim d.hashtree [ none ↦ fail verity_failed | some h ↦ ok h ]

module _ {W : Type 0} (os : Os W) (debug_allow_bundled_key : Bool) (keys : ApexKeys) where
  -- The sums that give an offset are of 64 bits and without a sign, and then an off_t with one: an
  -- offset before the file's start cannot be read from. `from` and `shift` are the summands.
  read_sum : Text → ℕ → ℕ → ℕ → W → Option Text
  read_sum path from shift size w =
      let offset = (from + shift) % 2 ^ 64 in
      if ltb offset (2 ^ 63) then os.read_at path offset size w else none

  -- `getAvbFooter`. What `lseek` returns is cut to an int before it is compared with -1.
  get_avb_footer : ApexFile → W → StatusOr AvbFooter
  unfolding read_sum
  get_avb_footer apex w =
      let start = apex.image_size + (2 ^ 64 - avb_footer_size) in
      if (start + to_u64 apex.image_offset) % 2 ^ 32 == 2 ^ 32 - 1
      then fail cannot_read
      else elim (read_sum apex.apex_path start (to_u64 apex.image_offset) avb_footer_size w) [
        | none ↦ fail cannot_read
        | some footer_data ↦ elim (os.avb_footer footer_data) [
          | none ↦ fail verification_failed
          | some footer ↦ ok footer
        ]
      ]

  -- `getPublicKeyName`.
  get_public_key_name : ApexFile → Text → StatusOr Text
  get_public_key_name apex vbmeta = elim (os.avb_property vbmeta (codes "apex.key")) [
    | none ↦ fail key_missing
    | some key_name ↦
        if is_empty key_name
        then fail key_missing
        else if text_eq key_name apex.manifest.name
        then ok key_name
        else fail verification_failed
  ]

  -- `verifyVbMetaSignature`.
  unfoldable pub verify_vb_meta_signature : ApexFile → Text → Status
  unfolding get_public_key_name verify_public_key
  verify_vb_meta_signature apex vbmeta =
      let (res, pk) = os.avb_verify vbmeta in
      elim res [
        | result_ok ↦ do
          key_name ← get_public_key_name apex vbmeta
          elim (get_apex_key keys key_name) [
            | ok public_key ↦ verify_public_key pk public_key
            | fail e ↦
                if debug_allow_bundled_key
                then verify_public_key pk apex.bundled_public_key
                else fail e
          ]
        | _ ↦ fail verification_failed
      ]

  -- `verifyVbMeta`.
  verify_vb_meta : ApexFile → AvbFooter → W → StatusOr Text
  unfolding read_sum
  verify_vb_meta apex footer w =
      if ltb vb_meta_max_size footer.vbmeta_size
      then fail verity_failed
      else elim (read_sum apex.apex_path (to_u64 apex.image_offset) footer.vbmeta_offset
          footer.vbmeta_size w) [
            | none ↦ fail cannot_read
            | some vbmeta ↦ verify_vb_meta_signature apex vbmeta >> ok vbmeta
          ]

  -- `VerifyApexVerity`.
  unfoldable pub verify_apex_verity : ApexFile → W → StatusOr ApexVerityData
  unfolding get_avb_footer verify_vb_meta verify_descriptor get_salt get_digest
  verify_apex_verity apex w = if not (os.can_open apex.apex_path w) then fail cannot_read else (do
    footer ← get_avb_footer apex w
    vbmeta ← verify_vb_meta apex footer w
    descriptor ← find_descriptor (os.avb_descriptors vbmeta)
    desc ← verify_descriptor descriptor
    ok (record {
      desc = desc;
      salt = get_salt desc descriptor.trailing;
      root_digest = get_digest desc descriptor.trailing;
    }))

abbrev version_eq : ℤ → ℤ → Bool
version_eq (pos a) (pos b) = a == b
version_eq (negsuc a) (negsuc b) = a == b
version_eq a b = false

-- `MessageDifferencer::Equals`.
unfoldable pub manifest_eq : ApexManifest → ApexManifest → Bool
manifest_eq a b =
    text_eq a.name b.name
    && (version_eq a.version b.version
        && (text_eq a.preinstallhook b.preinstallhook
            && (text_eq a.postinstallhook b.postinstallhook
                && text_eq a.version_name b.version_name)))

-- `VerifyManifestMatches`.
unfoldable pub verify_manifest_matches : {W : Type 0} → Os W → ApexFile → Text → W → Status
verify_manifest_matches os apex mount_path w =
    elim (os.read_file (mount_path /+ codes "apex_manifest.json") w) [
      | none ↦ fail cannot_read
      | some content ↦ elim (parse_manifest os.json_to_manifest content) [
        | fail e ↦ fail e
        | ok verified ↦ check_that (manifest_eq apex.manifest verified) verification_failed
      ]
    ]
