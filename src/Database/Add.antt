-- ===== src/Database/Add.antt =====
-- `AddMountedApex` of apexd/apex_database.h: when its CHECKs pass, and what it adds.
use mathlib.Core.Option
use android_system_apex.Common.{
  ◌≡◌, ◌≢◌, ◌↔◌, refl, sym, ap, ◌∙◌, subst, inl, inr, Bool, true, false, some, [], ◌∷◌, ◌++◌, arith,
  Text, Bool-cases,
}
use android_system_apex.Common.Insertion.{Inserted, here, there, Avoids}
use android_system_apex.OrdMap.{find, update, emplace, is_new}
use android_system_apex.OrdMap.Laws.{
  find-update_self, find-emplace_self, find-emplace_ne, find-update_ne, All-update, All-emplace,
}
use android_system_apex.Database.Entry.{MountedApexData, text_order, data_order}
use android_system_apex.Database.Latest.{OneLatest, HasOneLatest, check_at_most_one_latest_iff}
use android_system_apex.Database.Unique.{loop_names, device_names, check_unique_loop_dm_iff}
use android_system_apex.Database.Invariant.{
  IsValid, Split, find-Split, Split-Inserted, Inserted-UniqueDevices,
}
use android_system_apex.Database.{
  PackageMap, Database, entries, latest_count, package_map, add_mounted_apex,
  check_at_most_one_latest, check_unique_loop_dm,
}

pub emplace-Inserted :
    (d : MountedApexData) (l : Bool) (m : PackageMap)
    → is_new d m ≡ true
    → Inserted (d, l) m (emplace d l m)
unfolding is_new emplace
emplace-Inserted d l [] h = here []
emplace-Inserted d l ((j, w) ∷ m) h = elim (Bool-cases (data_order.lt d j)) [
  | inl e ↦ rw (e, emplace) (here _)
  | inr e ↦
      rw (e, emplace)
        (elim (Bool-cases (data_order.lt j d)) [
          | inl e' ↦ rw e' (there (j, w) (emplace-Inserted d l m (ground arith)))
          | inr e' ↦ absurd (ground arith)
        ])
]

emplace-HasOneLatest :
    (d : MountedApexData) (m : PackageMap) → latest_count (emplace d false m) ≡ latest_count m
unfolding emplace latest_count
emplace-HasOneLatest d [] = refl
emplace-HasOneLatest d ((j, true) ∷ m) = ground (arith, emplace-HasOneLatest d m)
emplace-HasOneLatest d ((j, false) ∷ m) = ground (arith, emplace-HasOneLatest d m)

-- `mounted_apexes_.emplace(package, {})` brings in no entry.
entries-emplace : (pkg : Text) (db : Database) → entries (emplace pkg [] db) ≡ entries db
unfolding entries emplace
entries-emplace pkg [] = refl
entries-emplace pkg ((j, w) ∷ db) = ground (arith, ap (◌++◌ w) (entries-emplace pkg db))

module _ (pkg : Text) (d : MountedApexData) (db : Database) where
  abbrev created : Database
  created = emplace pkg [] db

  abbrev added : Database
  added = update pkg (emplace d false) created

  created-Split : Split pkg created (package_map pkg db)
  created-Split = find-Split pkg created (find-emplace_self pkg [] db)

  added-Inserted :
      is_new d (package_map pkg db) ≡ true → Inserted (d, false) (entries db) (entries added)
  added-Inserted new =
      let s = created-Split in
      rw (s.changed (emplace d false)) (
        subst
          (λ es.
            Inserted (d, false) es (s.before ++ (emplace d false (package_map pkg db) ++ s.after)))
          (sym s.whole ∙ entries-emplace pkg db)
          (Split-Inserted s (emplace-Inserted d false (package_map pkg db) new)))

  added-OneLatest : OneLatest db → OneLatest added
  added-OneLatest v =
      All-update {P = HasOneLatest} pkg (emplace d false) created
        (λ m h. omega (arith, emplace-HasOneLatest d m))
        (All-emplace HasOneLatest pkg [] db (unfold latest_count in omega arith) v)

  -- The entry is new in its package, and its two devices are used by no mounted package.
  pub record CanAdd : Type 0 where
    pub new : is_new d (package_map pkg db) ≡ true
    pub loop : Avoids d.loop_name (loop_names (entries db))
    pub device : Avoids d.device_name (device_names (entries db))

  CanAdd-checks : IsValid db → CanAdd → add_mounted_apex pkg false d db ≡ some added
  unfolding add_mounted_apex
  CanAdd-checks v c =
      let u = (Inserted-UniqueDevices (added-Inserted c.new)).1 (c.loop, c.device, v.unique) in
      rw (
        c.new,
        (check_at_most_one_latest_iff added).1 (added-OneLatest v.latest),
        (check_unique_loop_dm_iff added).1 u,
      )

  add-checks :
      {db' : Database}
      → add_mounted_apex pkg false d db ≡ some db'
      → (is_new d (package_map pkg db) ≡ true)
        × (check_at_most_one_latest added ≡ true)
        × (check_unique_loop_dm added ≡ true)
        × (added ≡ db')
  unfolding add_mounted_apex
  add-checks h = ground arith

  -- On a valid database, `AddMountedApex` with an entry that is not the latest returns, and does
  -- not abort, exactly when the entry is new in its package, its loop device is empty or used by
  -- no mounted package, and its dm-verity device is empty or used by none.
  pub add_mounted_apex_iff :
      IsValid db → ((db' : Database) × (add_mounted_apex pkg false d db ≡ some db')) ↔ CanAdd
  add_mounted_apex_iff v = (
    λ (db', h).
        let (new, latest, unique, e) = add-checks h in
        let (fl, fd, u) =
          (Inserted-UniqueDevices (added-Inserted new)).0
            ((check_unique_loop_dm_iff added).0 unique) in
        record { new = new; loop = fl; device = fd },
    λ c. (added, CanAdd-checks v c),
  )

  pub add_mounted_apex_self :
      (db' : Database)
      → add_mounted_apex pkg false d db ≡ some db'
      → IsValid db' × Inserted (d, false) (package_map pkg db) (package_map pkg db')
  add_mounted_apex_self db' h =
      let (new, latest, unique, e) = add-checks h in
      let self : find pkg db' ≡ some (emplace d false (package_map pkg db)) = rw (← e) (
        find-update_self pkg (emplace d false) created
        ∙ ap (Option.map (emplace d false)) (find-emplace_self pkg [] db)) in
      (
        subst IsValid e (record {
          latest = (check_at_most_one_latest_iff added).0 latest;
          unique = (check_unique_loop_dm_iff added).0 unique;
        }),
        rw self (emplace-Inserted d false (package_map pkg db) new),
      )

  pub add_mounted_apex_others :
      (other : Text) (db' : Database)
      → add_mounted_apex pkg false d db ≡ some db'
      → other ≢ pkg
      → find other db' ≡ find other db
  add_mounted_apex_others other db' h ne =
      let (new, latest, unique, e) = add-checks h in
      rw (← e)
        (find-update_ne other pkg (emplace d false) created ne ∙ find-emplace_ne other pkg [] db ne)

  -- When `AddMountedApex` returns, the database is valid, the package has its former entries
  -- and the new one, and the entries of every other package are unchanged.
  pub add_mounted_apex-IsValid :
      (other : Text) (db' : Database)
      → add_mounted_apex pkg false d db ≡ some db'
      → other ≢ pkg
      → IsValid db'
        × Inserted (d, false) (package_map pkg db) (package_map pkg db')
        × (find other db' ≡ find other db)
  add_mounted_apex-IsValid other db' h ne =
      let (valid, inserted) = add_mounted_apex_self db' h in
      (valid, inserted, add_mounted_apex_others other db' h ne)
