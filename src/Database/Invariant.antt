-- ===== src/Database/Invariant.antt =====
-- The invariant of MountedApexDatabase (apexd/apex_database.h), and every method against it.

use mathlib.Core.List.{map-append, append_assoc}
use android_system_apex.Common.{
  ◌≡◌, ◌↔◌, refl, sym, ap, ◌∙◌, subst, inl, inr, ◌⊎◌, Bool, some, [], ◌∷◌, ◌++◌, map, arith, Text,
  text_eq, Bool-cases, Option-cases,
}
use android_system_apex.Common.Insertion.{
  Inserted, here, there, Inserted-append_left, Inserted-append_right, Inserted-map,
  Inserted-Distinct, Avoids, Distinct,
}
use android_system_apex.OrdMap.{find, update}
use android_system_apex.OrdMap.Laws.{update-missing}
use android_system_apex.Database.Entry.{MountedApexData, text_order, data_order}
use android_system_apex.Database.Latest.{
  OneLatest, set_latest-OneLatest, unset_latest_forall-OneLatest, remove_mounted_apex-OneLatest,
  datas, datas-reset, set_latest-cases, set_latest_in-Marked,
}
use android_system_apex.Database.Unique.{UniqueDevices, loop_names, device_names}
use android_system_apex.Database.{
  PackageMap, Database, entries, remove_mounted_apex, erase_path, set_latest, unset_latest_forall,
  reset,
}

-- What the CHECKs of the class are there to keep.
pub record IsValid (db : Database) : Type 0 where
  pub latest : OneLatest db
  pub unique : UniqueDevices (entries db)

-- Where the entries of a package stand among all entries.
pub record Split (pkg : Text) (db : Database) (m : PackageMap) : Type 0 where
  pub before : PackageMap
  pub after : PackageMap
  pub whole : entries db ≡ before ++ (m ++ after)
  pub changed : (f : PackageMap → PackageMap) → entries (update pkg f db) ≡ before ++ (f m ++ after)

pub find-Split :
    (pkg : Text) (db : Database) {m : PackageMap} → find pkg db ≡ some m → Split pkg db m
unfolding find update entries
find-Split pkg [] h = cc
find-Split pkg ((j, w) ∷ db) {m} h = elim (Bool-cases (text_order.lt pkg j)) [
  | inl e ↦ ground arith
  | inr e ↦ elim (Bool-cases (text_order.lt j pkg)) [
    | inl e' ↦
        let s = find-Split pkg db {m = m} (ground arith) in
        record {
          before = w ++ s.before;
          after = s.after;
          whole = ap (◌++◌ w) s.whole ∙ sym (append_assoc w s.before _);
          changed =
              λ f. rw (e, e', update) (ap (◌++◌ w) (s.changed f) ∙ sym (append_assoc w s.before _));
        }
    | inr e' ↦
        let q : w ≡ m = ground arith in
        record {
          before = [];
          after = entries db;
          whole = rw q refl;
          changed = λ f. rw (e, e', update) (rw q refl);
        }
  ]
]

-- A change of one package that takes no data away or brings any in.
entries-update_same :
    (pkg : Text) (f : PackageMap → PackageMap) (db : Database)
    → ((m : PackageMap) → find pkg db ≡ some m → datas (f m) ≡ datas m)
    → datas (entries (update pkg f db)) ≡ datas (entries db)
entries-update_same pkg f db same = elim (Option-cases (find pkg db)) [
  | inl missing ↦ ap (λ d. datas (entries d)) (update-missing pkg f db missing)
  | inr (m, found) ↦
      let s = find-Split pkg db {m = m} found in
      rw (s.changed f, s.whole)
        (datas-append s.before (f m) s.after
          ∙ ap (λ d. datas s.before ++ (d ++ datas s.after)) (same m found)
          ∙ sym (datas-append s.before m s.after))
]
  where
    datas-append : (a b c : PackageMap) → datas (a ++ (b ++ c)) ≡ datas a ++ (datas b ++ datas c)
    datas-append a b c = simp map-append

UniqueDevices-datas : (m m' : PackageMap) → datas m' ≡ datas m → UniqueDevices m → UniqueDevices m'
UniqueDevices-datas m m' e u = record {
  loops = subst Distinct (names (λ d. d.loop_name)) u.loops;
  devices = subst Distinct (names (λ d. d.device_name)) u.devices;
}
  where
    map-datas : (f : MountedApexData → Text) (n : PackageMap) → map f (datas n) ≡ map (λ x. f x.0) n
    map-datas f [] = refl
    map-datas f (x ∷ n) = ap (◌∷◌ (f x.0)) (map-datas f n)

    names : (f : MountedApexData → Text) → map (λ x. f x.0) m ≡ map (λ x. f x.0) m'
    names f = sym (map-datas f m) ∙ sym (ap (map f) e) ∙ map-datas f m'

-- When `SetLatest` returns on a valid database, the database is valid, though it runs no check.
pub set_latest-IsValid :
    (pkg path : Text) (db db' : Database)
    → set_latest pkg path db ≡ some db'
    → IsValid db
    → IsValid db'
set_latest-IsValid pkg path db db' h v =
    let (m, m', found, marked, e) = set_latest-cases pkg path db h in
    record {
      latest = set_latest-OneLatest pkg path db h v.latest;
      unique =
          UniqueDevices-datas (entries db) (entries db')
            (rw e (
              entries-update_same pkg (λ _. m') db
                (λ n f.
                  (set_latest_in-Marked path m marked).1 ∙ ap datas (some_inj (sym found ∙ f)))))
            v.unique;
    }
  where
    some_inj : {a b : PackageMap} → some a ≡ some b → a ≡ b
    some_inj h = cc

pub unset_latest_forall-IsValid :
    (pkg : Text) (db : Database) → IsValid db → IsValid (unset_latest_forall pkg db)
unfolding unset_latest_forall
unset_latest_forall-IsValid pkg db v = record {
  latest = unset_latest_forall-OneLatest pkg db v.latest;
  unique =
      UniqueDevices-datas (entries db) _ (entries-update_same pkg reset db (λ m _. datas-reset m))
        v.unique;
}

-- An entry that leaves takes its two device names with it.
pub Inserted-UniqueDevices :
    {e : MountedApexData × Bool} {m m' : PackageMap}
    → Inserted e m m'
    → UniqueDevices m' ↔ (
        Avoids e.0.loop_name (loop_names m)
        × Avoids e.0.device_name (device_names m)
        × UniqueDevices m)
Inserted-UniqueDevices i =
    let l = Inserted-Distinct (Inserted-map (λ x. x.0.loop_name) i) in
    let d = Inserted-Distinct (Inserted-map (λ x. x.0.device_name) i) in
    (
      λ u.
          let (fl, dl) = l.0 u.loops in
          let (fd, dd) = d.0 u.devices in (fl, fd, record { loops = dl; devices = dd }),
      λ (fl, fd, u). record { loops = l.1 (fl, u.loops); devices = d.1 (fd, u.devices) },
    )

pub Split-Inserted :
    {pkg : Text} {db : Database} {m : PackageMap} {e : MountedApexData × Bool} (s : Split pkg db m)
    {n n' : PackageMap}
    → Inserted e n n'
    → Inserted e (s.before ++ (n ++ s.after)) (s.before ++ (n' ++ s.after))
Split-Inserted s i = Inserted-append_left s.before (Inserted-append_right s.after i)

pub erase_path-cases :
    (path : Text) (m : PackageMap)
    → (erase_path path m ≡ m) ⊎ ((e : MountedApexData × Bool) × Inserted e (erase_path path m) m)
unfolding erase_path
erase_path-cases path [] = inl refl
erase_path-cases path ((d, l) ∷ m) = elim (Bool-cases (text_eq d.full_path path)) [
  | inl e ↦ rw (e, erase_path) (inr ((d, l), here m))
  | inr e ↦
      rw (e, erase_path)
        (elim (erase_path-cases path m) [
          | inl same ↦ inl (ap (◌∷◌ (d, l)) same)
          | inr (x, i) ↦ inr (x, there (d, l) i)
        ])
]

-- `RemoveMountedApex` leaves a valid database valid.
pub remove_mounted_apex-IsValid :
    (pkg path : Text) (db : Database) → IsValid db → IsValid (remove_mounted_apex pkg path db)
unfolding remove_mounted_apex
remove_mounted_apex-IsValid pkg path db v = record {
  latest = remove_mounted_apex-OneLatest pkg path db v.latest;
  unique = elim (Option-cases (find pkg db)) [
    | inl missing ↦ rw (update-missing pkg (erase_path path) db missing) v.unique
    | inr (m, found) ↦
        let s = find-Split pkg db {m = m} found in
        elim (erase_path-cases path m) [
          | inl same ↦
              subst UniqueDevices
                (s.whole
                  ∙ sym (s.changed (erase_path path) ∙ ap (λ n. s.before ++ (n ++ s.after)) same))
                v.unique
          | inr (x, i) ↦
              rw (s.changed (erase_path path))
                ((Inserted-UniqueDevices (Split-Inserted s i)).0
                  (subst UniqueDevices s.whole v.unique)).2
        ]
  ];
}
