-- ===== src/Verity/Laws.antt =====
-- What a verified package guarantees (apexd/apex_file.cpp).
use android_system_apex.Common.{
  ◌≡◌, ◌↔◌, inl, inr, refl, ◌∙◌, sym, ap, true, false, some, arith, Text, text_eq, text_eq_iff,
  text_eq_refl, is_empty, codes, ℤ, pos, negsuc, ==_iff, Bool-cases, Option-cases, ok, success,
  StatusOr-cases,
}
use android_system_apex.Manifest.{ApexManifest, parse_manifest}
use android_system_apex.Os.{Os, result_ok}
use android_system_apex.ApexFile.{ApexFile}
use android_system_apex.Keys.{ApexKeys, find_key, get_apex_key}
use android_system_apex.Paths.{◌/+◌}
use android_system_apex.Verity.{
  version_eq, manifest_eq, verify_manifest_matches, verify_vb_meta_signature,
}

version_eq_iff : (a b : ℤ) → (version_eq a b ≡ true) ↔ (a ≡ b)
version_eq_iff (pos a) (pos b) = ground (arith, ==_iff a b)
version_eq_iff (pos a) (negsuc b) = ((λ h. cc), λ h. cc)
version_eq_iff (negsuc a) (pos b) = ((λ h. cc), λ h. cc)
version_eq_iff (negsuc a) (negsuc b) = ground (arith, ==_iff a b)

manifest_eq-cases :
    (a b : ApexManifest)
    → manifest_eq a b ≡ true
    → (text_eq a.name b.name ≡ true)
      × (version_eq a.version b.version ≡ true)
      × (text_eq a.preinstallhook b.preinstallhook ≡ true)
      × (text_eq a.postinstallhook b.postinstallhook ≡ true)
      × (text_eq a.version_name b.version_name ≡ true)
unfolding manifest_eq
manifest_eq-cases a b h = ground arith

-- The comparison of the messages is equality.
manifest_eq_iff : (a b : ApexManifest) → (manifest_eq a b ≡ true) ↔ (a ≡ b)
unfolding manifest_eq
manifest_eq_iff a b = (
  λ h.
      let (n, v, p, q, m) = manifest_eq-cases a b h in
      let en = (text_eq_iff a.name b.name).0 n in
      let ev = (version_eq_iff a.version b.version).0 v in
      let ep = (text_eq_iff a.preinstallhook b.preinstallhook).0 p in
      let eq = (text_eq_iff a.postinstallhook b.postinstallhook).0 q in
      let em = (text_eq_iff a.version_name b.version_name).0 m in
      λ i. record {
        name = en i;
        version = ev i;
        preinstallhook = ep i;
        postinstallhook = eq i;
        version_name = em i;
      },
  λ h. rw (← h) (
      rw
        (
          text_eq_refl a.name,
          (version_eq_iff a.version a.version).1 refl,
          text_eq_refl a.preinstallhook,
          text_eq_refl a.postinstallhook,
          text_eq_refl a.version_name,
        )
        refl),
)

module _ {W : Type 0} (os : Os W) where
  -- `VerifyManifestMatches` succeeds exactly when the manifest inside the mounted image can be
  -- read and parsed, and is the manifest of the package.
  pub verify_manifest_matches_iff :
      (apex : ApexFile) (mount_path : Text) (w : W)
      → (verify_manifest_matches os apex mount_path w ≡ success) ↔ (
          (content : Text) × (os.read_file (mount_path /+ codes "apex_manifest.json") w
            ≡ some content)
          × (parse_manifest os.json_to_manifest content ≡ ok apex.manifest))
  unfolding verify_manifest_matches
  verify_manifest_matches_iff apex mount_path w =
      elim (Option-cases (os.read_file (mount_path /+ codes "apex_manifest.json") w)) [
        | inl missing ↦ ((λ h. ground arith), λ (c, h, k). ground arith)
        | inr (content, found) ↦
            elim (StatusOr-cases (parse_manifest os.json_to_manifest content)) [
              | inr (e, refused) ↦ ((λ h. ground arith), λ (c, h, k). ground arith)
              | inl (inner, parsed) ↦
                  let i = manifest_eq_iff apex.manifest inner in
                  (
                    λ h. (content, found, parsed ∙ ap ok (sym (i.0 (ground arith)))),
                    λ (c, h, k). ground (arith, i),
                  )
            ]
      ]

  accepted :
      (keys : ApexKeys) (apex : ApexFile) (vbmeta : Text)
      → verify_vb_meta_signature os false keys apex vbmeta ≡ success
      → ((os.avb_verify vbmeta).0 ≡ result_ok)
        × (os.avb_property vbmeta (codes "apex.key") ≡ some apex.manifest.name)
        × (is_empty apex.manifest.name ≡ false)
        × (find_key apex.manifest.name keys ≡ some (os.avb_verify vbmeta).1)
  unfolding verify_vb_meta_signature get_apex_key
  accepted keys apex vbmeta h = elim (Option-cases (os.avb_property vbmeta (codes "apex.key"))) [
    | inl missing ↦ ground arith
    | inr (key_name, found) ↦ elim (Bool-cases (text_eq key_name apex.manifest.name)) [
      | inr other ↦ ground arith
      | inl same ↦ elim (Option-cases (find_key key_name keys)) [
        | inl unknown ↦ ground arith
        | inr (key, known) ↦ ground (
          arith,
          text_eq_iff key_name apex.manifest.name,
          text_eq_iff key apex.manifest.name,
          text_eq_iff key (os.avb_verify vbmeta).1,
        )
      ]
    ]
  ]

  -- Where bundled keys are not allowed, the signature of a package's vbmeta is accepted exactly
  -- when libavb verifies it, it names the package as its key, the name is not empty, and the key
  -- that signed it is the key known for the package.
  pub verify_vb_meta_signature_iff :
      (keys : ApexKeys) (apex : ApexFile) (vbmeta : Text)
      → (verify_vb_meta_signature os false keys apex vbmeta ≡ success) ↔ (
          ((os.avb_verify vbmeta).0 ≡ result_ok)
          × (os.avb_property vbmeta (codes "apex.key") ≡ some apex.manifest.name)
          × (is_empty apex.manifest.name ≡ false)
          × (find_key apex.manifest.name keys ≡ some (os.avb_verify vbmeta).1))
  unfolding verify_vb_meta_signature get_apex_key
  verify_vb_meta_signature_iff keys apex vbmeta = (
    λ h. accepted keys apex vbmeta h,
    λ (v, p, n, k).
        ground (arith, text_eq_refl apex.manifest.name, text_eq_refl (os.avb_verify vbmeta).1),
  )
