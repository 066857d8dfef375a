-- ===== src/Database/Reachable.antt =====
-- The databases that the methods of MountedApexDatabase (apexd/apex_database.h) can lead to.
use android_system_apex.Common.{◌≡◌, subst, Bool, true, some, [], arith, Text}
use android_system_apex.OrdMap.{emplace, update}
use android_system_apex.Database.Entry.{MountedApexData, data_order, text_order}
use android_system_apex.Database.Latest.{check_at_most_one_latest_iff}
use android_system_apex.Database.Unique.{check_unique_loop_dm_iff}
use android_system_apex.Database.Invariant.{
  IsValid, set_latest-IsValid, unset_latest_forall-IsValid, remove_mounted_apex-IsValid,
}
use android_system_apex.Database.{
  Database, entries, add_mounted_apex, remove_mounted_apex, set_latest, unset_latest_forall,
  check_at_most_one_latest, check_unique_loop_dm,
}

-- A call that returns, on a database that earlier calls led to.
pub data Reachable : Database → Type 0 where
  created : Reachable []
  added :
      (pkg : Text) (latest : Bool) (d : MountedApexData) {db db' : Database}
      → Reachable db
      → add_mounted_apex pkg latest d db ≡ some db'
      → Reachable db'
  removed :
      (pkg path : Text) {db : Database} → Reachable db → Reachable (remove_mounted_apex pkg path db)
  marked :
      (pkg path : Text) {db db' : Database}
      → Reachable db
      → set_latest pkg path db ≡ some db'
      → Reachable db'
  unmarked : (pkg : Text) {db : Database} → Reachable db → Reachable (unset_latest_forall pkg db)

added-checks :
    (pkg : Text) (latest : Bool) (d : MountedApexData) (db : Database) {db' : Database}
    → add_mounted_apex pkg latest d db ≡ some db'
    → (check_at_most_one_latest db' ≡ true) × (check_unique_loop_dm db' ≡ true)
unfolding add_mounted_apex
added-checks pkg latest d db {db'} h =
    let n = update pkg (emplace d latest) (emplace pkg [] db) in
    let (one, unique, e) : (check_at_most_one_latest n ≡ true)
        × (check_unique_loop_dm n ≡ true)
        × (n ≡ db') =
      ground arith in
    (
      subst (λ x. check_at_most_one_latest x ≡ true) e one,
      subst (λ x. check_unique_loop_dm x ≡ true) e unique,
    )

-- Whatever calls of the methods have returned on a database that was empty at first, each package
-- has at most one latest entry, and no two mounted packages share a loop device or a dm-verity
-- device.
pub Reachable-IsValid : {db : Database} → Reachable db → IsValid db
unfolding entries
Reachable-IsValid created = record { latest = tt; unique = record { loops = tt; devices = tt } }
Reachable-IsValid (added pkg latest d {db} {db'} r h) =
    let (one, unique) = added-checks pkg latest d db h in
    record {
      latest = (check_at_most_one_latest_iff db').0 one;
      unique = (check_unique_loop_dm_iff db').0 unique;
    }
Reachable-IsValid (removed pkg path {db} r) =
    remove_mounted_apex-IsValid pkg path db (Reachable-IsValid r)
Reachable-IsValid (marked pkg path {db} {db'} r h) =
    set_latest-IsValid pkg path db db' h (Reachable-IsValid r)
Reachable-IsValid (unmarked pkg {db} r) = unset_latest_forall-IsValid pkg db (Reachable-IsValid r)
