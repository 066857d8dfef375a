-- ===== src/Keys/Laws.antt =====
-- What `updateScannedApexKeys` of apexd/apex_key.cpp does to the keys.
use android_system_apex.Common.{
  ◌≡◌, inl, inr, refl, sym, ap, ◌∙◌, subst, true, false, Option, none, some, [], arith, ◌∷◌, Text,
  text_eq, text_eq_iff, text_eq_refl, All, Bool-cases, Option-cases, key_conflict, fail, success,
}
use android_system_apex.Keys.{ApexKeys, find_key, update_scanned_apex_keys}

find_key-cons :
    (name key n k : Text) (keys : ApexKeys)
    → find_key n keys ≡ none
    → find_key name keys ≡ some key
    → find_key name ((n, k) ∷ keys) ≡ some key
unfolding find_key
find_key-cons name key n k keys unknown h = elim (Bool-cases (text_eq n name)) [
  | inl e ↦
      let q = (text_eq_iff n name).0 e in
      let q' : find_key name keys ≡ none = subst (λ x. find_key x keys ≡ none) q unknown in cc
  | inr e ↦ rw e h
]

find_key-cons_self : (n k : Text) (keys : ApexKeys) → find_key n ((n, k) ∷ keys) ≡ some k
unfolding find_key
find_key-cons_self n k keys = rw (text_eq_refl n) refl

-- A key that is known is never replaced, whether the update succeeds or fails.
pub find_key-update_scanned_apex_keys :
    (name key : Text) (pairs keys : ApexKeys)
    → find_key name keys ≡ some key
    → find_key name (update_scanned_apex_keys pairs keys).1 ≡ some key
unfolding update_scanned_apex_keys
find_key-update_scanned_apex_keys name key [] keys h = h
find_key-update_scanned_apex_keys name key ((n, k) ∷ pairs) keys h =
    elim (Option-cases (find_key n keys)) [
      | inl unknown ↦
          rw (unknown, update_scanned_apex_keys)
            (find_key-update_scanned_apex_keys name key pairs ((n, k) ∷ keys)
              (find_key-cons name key n k keys unknown h))
      | inr (e, known) ↦ elim (Bool-cases (text_eq e k)) [
        | inl same ↦
            rw (known, update_scanned_apex_keys)
              (rw same (find_key-update_scanned_apex_keys name key pairs keys h))
        | inr other ↦ rw (known, update_scanned_apex_keys) (rw other h)
      ]
    ]

-- Every pair of the list is among the keys.
abbrev pub Covers : ApexKeys → ApexKeys → Type 0
Covers keys = All (λ p. find_key p.0 keys ≡ some p.1)

update-same :
    (n k e : Text) (pairs keys : ApexKeys)
    → find_key n keys ≡ some e
    → text_eq e k ≡ true
    → update_scanned_apex_keys ((n, k) ∷ pairs) keys ≡ update_scanned_apex_keys pairs keys
unfolding update_scanned_apex_keys
update-same n k e pairs keys known same = rw (known, update_scanned_apex_keys) (rw same refl)

update-unknown :
    (n k : Text) (pairs keys : ApexKeys)
    → find_key n keys ≡ none
    → update_scanned_apex_keys ((n, k) ∷ pairs) keys
      ≡ update_scanned_apex_keys pairs ((n, k) ∷ keys)
unfolding update_scanned_apex_keys
update-unknown n k pairs keys unknown = rw (unknown, update_scanned_apex_keys) refl

update-conflict :
    (n k e : Text) (pairs keys : ApexKeys)
    → find_key n keys ≡ some e
    → text_eq e k ≡ false
    → update_scanned_apex_keys ((n, k) ∷ pairs) keys ≡ (fail key_conflict, keys)
unfolding update_scanned_apex_keys
update-conflict n k e pairs keys known other = rw (known, update_scanned_apex_keys) (rw other refl)

covers :
    (pairs keys : ApexKeys)
    → (update_scanned_apex_keys pairs keys).0 ≡ success
    → Covers (update_scanned_apex_keys pairs keys).1 pairs
unfolding update_scanned_apex_keys
covers [] keys h = tt
covers ((n, k) ∷ pairs) keys h = elim (Option-cases (find_key n keys)) [
  | inl unknown ↦
      let keys' : ApexKeys = (n, k) ∷ keys in
      let step = update-unknown n k pairs keys unknown in
      subst (λ r. Covers r.1 ((n, k) ∷ pairs)) (sym step)
        (
          find_key-update_scanned_apex_keys n k pairs keys' (find_key-cons_self n k keys),
          covers pairs keys' (sym (ap (λ r. r.0) step) ∙ h),
        )
  | inr (e, known) ↦ elim (Bool-cases (text_eq e k)) [
    | inl same ↦
        let q : find_key n keys ≡ some k = known ∙ ap some ((text_eq_iff e k).0 same) in
        let step = update-same n k e pairs keys known same in
        subst (λ r. Covers r.1 ((n, k) ∷ pairs)) (sym step)
          (
            find_key-update_scanned_apex_keys n k pairs keys q,
            covers pairs keys (sym (ap (λ r. r.0) step) ∙ h),
          )
    | inr other ↦
        absurd
          (fail-ne-success (sym (ap (λ r. r.0) (update-conflict n k e pairs keys known other)) ∙ h))
  ]
]
  where
    fail-ne-success : fail key_conflict ≡ success → ⊥
    fail-ne-success q = cc

-- The first of two keys that is there.
abbrev pub first_key : Option Text → Option Text → Option Text
first_key none k = k
first_key (some k) k' = some k

-- The key of a package is the one that it had, or the first that is listed.
keeps_or_adds :
    (name : Text) (pairs keys : ApexKeys)
    → (update_scanned_apex_keys pairs keys).0 ≡ success
    → find_key name (update_scanned_apex_keys pairs keys).1
      ≡ first_key (find_key name keys) (find_key name pairs)
unfolding update_scanned_apex_keys find_key
keeps_or_adds name [] keys h = ground arith
keeps_or_adds name ((n, k) ∷ pairs) keys h = elim (Option-cases (find_key n keys)) [
  | inl unknown ↦ ground (arith, text_eq_iff n name, keeps_or_adds name pairs ((n, k) ∷ keys))
  | inr (e, known) ↦ ground (arith, text_eq_iff n name, keeps_or_adds name pairs keys)
]

-- A successful update leaves every listed package with the listed key. A package keeps the key
-- that it had; one that had none has the first that is listed for it, and none if none is listed.
pub update_scanned_apex_keys-Covers :
    (name : Text) (pairs keys : ApexKeys)
    → (update_scanned_apex_keys pairs keys).0 ≡ success
    → Covers (update_scanned_apex_keys pairs keys).1 pairs
      × (find_key name (update_scanned_apex_keys pairs keys).1
          ≡ first_key (find_key name keys) (find_key name pairs))
update_scanned_apex_keys-Covers name pairs keys h =
    (covers pairs keys h, keeps_or_adds name pairs keys h)
