-- ===== src/Database/Unique.antt =====
-- `CheckUniqueLoopDm` of apexd/apex_database.h as an invariant: no two mounted packages share a
-- loop device or a dm-verity device.

use android_system_apex.Common.{
  ◌≡◌, ◌↔◌, refl, sym, ◌∙◌, inl, inr, Bool, true, false, ◌&&◌, none, some, List, [], ◌∷◌, map,
  arith, Text, text_eq, All, any_of, Bool-cases,
}
use android_system_apex.Common.Insertion.{clash, clash_comm, Avoids, Distinct}
use android_system_apex.Database.Entry.{text_order, data_order}
use android_system_apex.Database.{
  PackageMap, Database, entries, insert_checked, check_unique_from, check_unique_loop_dm,
}

abbrev pub loop_names : PackageMap → List Text
loop_names = map λ e. e.0.loop_name

abbrev pub device_names : PackageMap → List Text
device_names = map λ e. e.0.device_name

-- No two entries share a loop device, and no two a dm-verity device.
pub record UniqueDevices (m : PackageMap) : Type 0 where
  pub loops : Distinct (loop_names m)
  pub devices : Distinct (device_names m)

-- One of the two sets of the loop, on its own.
all_new : List Text → List Text → Bool
all_new seen [] = true
all_new seen (a ∷ names) = elim (insert_checked a seen) [ none ↦ false | some s ↦ all_new s names ]

check_unique_from-all_new :
    (ls ds : List Text) (m : PackageMap)
    → check_unique_from ls ds m ≡ (all_new ls (loop_names m) && all_new ds (device_names m))
unfolding check_unique_from all_new
check_unique_from-all_new ls ds [] = refl
check_unique_from-all_new ls ds ((d, l) ∷ m) = ground (
  arith,
  check_unique_from-all_new ls ds m,
  check_unique_from-all_new (d.loop_name ∷ ls) ds m,
  check_unique_from-all_new ls (d.device_name ∷ ds) m,
  check_unique_from-all_new (d.loop_name ∷ ls) (d.device_name ∷ ds) m,
)

abbrev Unseen : List Text → List Text → Type 0
Unseen seen = All (λ a. any_of (clash a) seen ≡ false)

Avoids-nil : (names : List Text) → Avoids [] names
Avoids-nil [] = tt
Avoids-nil (a ∷ names) = (refl, Avoids-nil names)

Unseen-nil : (names : List Text) → Unseen [] names
Unseen-nil [] = tt
Unseen-nil (a ∷ names) = (refl, Unseen-nil names)

Unseen-cons_iff :
    (a : Text) (seen names : List Text)
    → Unseen (a ∷ seen) names ↔ (Avoids a names × Unseen seen names)
Unseen-cons_iff a seen [] = (λ _. (tt, tt), λ _. tt)
Unseen-cons_iff a seen (b ∷ names) = ground (arith, Unseen-cons_iff a seen names, clash_comm a b)

all_new_iff :
    (seen names : List Text) → (all_new seen names ≡ true) ↔ (Distinct names × Unseen seen names)
unfolding all_new
all_new_iff seen [] = (λ _. (tt, tt), λ _. refl)
all_new_iff seen ([] ∷ names) =
    let ih = all_new_iff seen names in
    (λ h. ((Avoids-nil names, (ih.0 h).0), (any_of_nil seen, (ih.0 h).1)), λ h. ih.1 (h.0.1, h.1.1))
  where
    any_of_nil : (s : List Text) → any_of (clash []) s ≡ false
    any_of_nil [] = refl
    any_of_nil (b ∷ s) = any_of_nil s
all_new_iff seen ((c ∷ a) ∷ names) =
    let ih = all_new_iff ((c ∷ a) ∷ seen) names in
    let u = Unseen-cons_iff (c ∷ a) seen names in
    elim (Bool-cases (any_of (text_eq (c ∷ a)) seen)) [
      | inl e ↦ rw (e, all_new) ((λ h. cc), λ h. cc)
      | inr e ↦
          rw (e, all_new)
            (
              λ h. let (d, w) = ih.0 h in (((u.0 w).0, d), (refl, (u.0 w).1)),
              λ h. ih.1 (h.0.1, u.1 (h.0.0, h.1.1)),
            )
    ]

-- The walk with the two sets passes exactly when no two mounted packages share a loop device and
-- no two share a dm-verity device.
pub check_unique_loop_dm_iff :
    (db : Database) → (check_unique_loop_dm db ≡ true) ↔ UniqueDevices (entries db)
unfolding check_unique_loop_dm
check_unique_loop_dm_iff db =
    let e = check_unique_from-all_new [] [] (entries db) in
    let l = all_new_iff [] (loop_names (entries db)) in
    let d = all_new_iff [] (device_names (entries db)) in
    (
      λ h.
          let (p, q) = and_true _ _ (sym e ∙ h) in
          record { loops = (l.0 p).0; devices = (d.0 q).0 },
      λ u. rw (e, l.1 (u.loops, Unseen-nil _), d.1 (u.devices, Unseen-nil _)) refl,
    )
  where
    and_true : (p q : Bool) → (p && q) ≡ true → (p ≡ true) × (q ≡ true)
    and_true p q h = ground arith
