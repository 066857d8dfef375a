-- ===== src/Database.antt =====
-- apexd/apex_database.h: the class MountedApexDatabase. A method that ends in a failed CHECK or
-- in LOG(FATAL) returns `none`.
pub mod Entry
pub mod Latest
pub mod Unique
pub mod Invariant
pub mod Add
pub mod Effects
pub mod Refines
pub mod Reachable
use mathlib.Core.Option
use android_system_apex.Common.{
  ℕ, suc, ◌+◌, Bool, true, false, ◌&&◌, Option, none, some, List, [], ◌∷◌, ◌++◌, map, Text, text_eq,
  is_empty, leb, if◌then◌else◌, all_of, any_of,
}
use android_system_apex.OrdMap.{find, emplace, is_new, update}
use Entry.{MountedApexData, data_order, text_order}

abbrev pub PackageMap : Type 0
PackageMap = List (MountedApexData × Bool)

-- `mounted_apexes_`.
abbrev pub Database : Type 0
Database = List (Text × PackageMap)

-- All entries, in the order in which the class walks them.
unfoldable pub entries : Database → PackageMap
entries [] = []
entries ((_, m) ∷ db) = m ++ entries db

unfoldable pub latest_count : PackageMap → ℕ
latest_count [] = 0
latest_count ((_, true) ∷ m) = suc (latest_count m)
latest_count ((_, false) ∷ m) = latest_count m

-- `CheckAtMostOneLatest`: false where its CHECK fails.
unfoldable pub check_at_most_one_latest : Database → Bool
check_at_most_one_latest db = all_of (λ p. leb (latest_count p.1) 1) db

-- `CHECK(set.insert(name).second)` for a name that is not empty.
abbrev insert_checked : Text → List Text → Option (List Text)
insert_checked name seen =
    if is_empty name
    then some seen
    else if any_of (text_eq name) seen
    then none
    else some (name ∷ seen)

check_unique_from : List Text → List Text → PackageMap → Bool
check_unique_from loops devices [] = true
check_unique_from loops devices ((d, _) ∷ m) = elim (insert_checked d.loop_name loops) [
  | none ↦ false
  | some loops' ↦ elim (insert_checked d.device_name devices) [
    | none ↦ false
    | some devices' ↦ check_unique_from loops' devices' m
  ]
]

-- `CheckUniqueLoopDm`: false where one of its CHECKs fails.
unfoldable pub check_unique_loop_dm : Database → Bool
unfolding check_unique_from
check_unique_loop_dm db = check_unique_from [] [] (entries db)

abbrev pub package_map : Text → Database → PackageMap
package_map pkg db = Option.get_or (find pkg db) []

-- `AddMountedApex`.
unfoldable pub add_mounted_apex : Text → Bool → MountedApexData → Database → Option Database
add_mounted_apex pkg latest data' db =
    let created = emplace pkg [] db in
    let db' = update pkg (emplace data' latest) created in
    if is_new data' (package_map pkg db)
      && (check_at_most_one_latest db' && check_unique_loop_dm db')
    then some db'
    else none

-- The loop of `RemoveMountedApex`: it erases the first entry with the path.
unfoldable pub erase_path : Text → PackageMap → PackageMap
erase_path path [] = []
erase_path path ((d, l) ∷ m) = if text_eq d.full_path path then m else (d, l) ∷ erase_path path m

-- `RemoveMountedApex`.
unfoldable pub remove_mounted_apex : Text → Text → Database → Database
remove_mounted_apex pkg path db = update pkg (erase_path path) db

abbrev pub reset : PackageMap → PackageMap
reset = map λ e. (e.0, false)

-- The loops of `SetLatest`: the first entry with the path becomes the only latest one.
unfoldable pub set_latest_in : Text → PackageMap → Option PackageMap
set_latest_in path [] = none
set_latest_in path ((d, l) ∷ m) =
    if text_eq d.full_path path
    then some ((d, true) ∷ reset m)
    else Option.map (λ r. (d, false) ∷ r) (set_latest_in path m)

-- `SetLatest`.
unfoldable pub set_latest : Text → Text → Database → Option Database
set_latest pkg path db = elim (find pkg db) [
  | none ↦ none
  | some m ↦ Option.map (λ m'. update pkg (λ _. m') db) (set_latest_in path m)
]

-- `UnsetLatestForall`.
pub unset_latest_forall : Text → Database → Database
unset_latest_forall pkg db = update pkg reset db

-- What the handler of `ForallMountedApexes(package, handler)` is called with, in order.
abbrev pub mounted : Text → Database → PackageMap
mounted = package_map
