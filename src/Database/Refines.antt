-- ===== src/Database/Refines.antt =====
-- apexd/apex_database.h: a sequence of calls of MountedApexDatabase against steps of an abstract
-- database, which is a function from names of packages to their entries.
use android_system_apex.Common.{
  ◌≡◌, ◌≢◌, refl, sym, ap, ◌∙◌, Bool, Option, none, some, List, [], ◌∷◌, arith, Text, true,
  Option-cases, inl, inr,
}
use android_system_apex.Common.Insertion.{Inserted}
use android_system_apex.OrdMap.{find, update, emplace, is_new}
use android_system_apex.OrdMap.Laws.{
  find-update_self, find-update_ne, find-emplace_self, find-emplace_ne,
}
use android_system_apex.Database.Entry.{MountedApexData, text_order, data_order}
use android_system_apex.Database.Latest.{set_latest-cases}
use android_system_apex.Database.Add.{emplace-Inserted}
use android_system_apex.Database.Effects.{
  Erased, MarkedAt, Unmarked, erase_path-Erased, set_latest_in-MarkedAt, reset-Unmarked,
}
use android_system_apex.Database.{
  PackageMap, Database, package_map, add_mounted_apex, remove_mounted_apex, erase_path, set_latest,
  unset_latest_forall, reset,
}

-- A call of a method that changes the database.
pub data Call : Type 0 where
  add : Text → Bool → MountedApexData → Call
  remove mark : Text → Text → Call
  unmark : Text → Call

abbrev target : Call → Text
target (add pkg latest d) = pkg
target (remove pkg path) = pkg
target (mark pkg path) = pkg
target (unmark pkg) = pkg

-- The call on the database: `none` when a CHECK fails.
abbrev pub perform : Call → Database → Option Database
perform (add pkg latest d) db = add_mounted_apex pkg latest d db
perform (remove pkg path) db = some (remove_mounted_apex pkg path db)
perform (mark pkg path) db = set_latest pkg path db
perform (unmark pkg) db = some (unset_latest_forall pkg db)

abbrev pub perform_all : List Call → Database → Option Database
perform_all [] db = some db
perform_all (c ∷ calls) db = elim (perform c db) [ none ↦ none | some db' ↦ perform_all calls db' ]

-- What a call may do to the entries of its package.
abbrev pub Effect : Call → PackageMap → PackageMap → Type 0
Effect (add pkg latest d) = Inserted (d, latest)
Effect (remove pkg path) = Erased path
Effect (mark pkg path) = MarkedAt path
Effect (unmark pkg) = Unmarked

-- The entries of each package, whatever the map behind them.
abbrev pub View : Type 0
View = Text → PackageMap

abbrev pub view : Database → View
view db pkg = package_map pkg db

-- A step changes the entries of the call's package, and of no other.
abbrev pub Step : Call → View → View → Type 0
Step c v v' =
    Effect c (v (target c)) (v' (target c))
    × ((other : Text) → other ≢ target c → v' other ≡ v other)

abbrev pub Steps : List Call → View → View → Type 0
Steps [] v v' = (pkg : Text) → v' pkg ≡ v pkg
Steps (c ∷ calls) v v' = (mid : View) × Step c v mid × Steps calls mid v'

view-update_self :
    (pkg : Text) (f : PackageMap → PackageMap) (db : Database)
    → f [] ≡ []
    → view (update pkg f db) pkg ≡ f (view db pkg)
view-update_self pkg f db empty =
    rw (find-update_self pkg f db) (elim (Option-cases (find pkg db)) [
      | inl missing ↦ rw missing (sym empty)
      | inr (m, found) ↦ rw found refl
    ])

view-update_ne :
    (pkg other : Text) (f : PackageMap → PackageMap) (db : Database)
    → other ≢ pkg
    → view (update pkg f db) other ≡ view db other
view-update_ne pkg other f db ne = rw (find-update_ne other pkg f db ne) refl

add-Step :
    (pkg : Text) (latest : Bool) (d : MountedApexData) (db db' : Database)
    → add_mounted_apex pkg latest d db ≡ some db'
    → Step (add pkg latest d) (view db) (view db')
unfolding add_mounted_apex
add-Step pkg latest d db db' h =
    let created = emplace pkg [] db in
    let e : update pkg (emplace d latest) created ≡ db' = ground arith in
    let new : is_new d (package_map pkg db) ≡ true = ground arith in
    rw (← e) (
      rw (find-update_self pkg (emplace d latest) created, find-emplace_self pkg [] db)
          (emplace-Inserted d latest (package_map pkg db) new),
      λ other ne.
          view-update_ne pkg other (emplace d latest) created ne
          ∙ rw (find-emplace_ne other pkg [] db ne) refl,
    )

mark-Step :
    (pkg path : Text) (db db' : Database)
    → set_latest pkg path db ≡ some db'
    → Step (mark pkg path) (view db) (view db')
mark-Step pkg path db db' h =
    let (m, m', found, marked, e) = set_latest-cases pkg path db h in
    rw e (
      rw (find-update_self pkg (λ _. m') db, found) (set_latest_in-MarkedAt path m m' marked),
      λ other ne. view-update_ne pkg other (λ _. m') db ne,
    )

perform-Step :
    (c : Call) (db db' : Database) → perform c db ≡ some db' → Step c (view db) (view db')
unfolding remove_mounted_apex unset_latest_forall erase_path
perform-Step (add pkg latest d) db db' h = add-Step pkg latest d db db' h
perform-Step (remove pkg path) db db' h =
    let e : update pkg (erase_path path) db ≡ db' = cc in
    rw (← e) (
      rw (view-update_self pkg (erase_path path) db refl) (erase_path-Erased path (view db pkg)),
      λ other ne. view-update_ne pkg other (erase_path path) db ne,
    )
perform-Step (mark pkg path) db db' h = mark-Step pkg path db db' h
perform-Step (unmark pkg) db db' h =
    let e : update pkg reset db ≡ db' = cc in
    rw (← e) (
      rw (view-update_self pkg reset db refl) (reset-Unmarked (view db pkg)),
      λ other ne. view-update_ne pkg other reset db ne,
    )

-- When a sequence of calls returns, the database has made one step for each call, which changed the
-- entries of the call's package alone: AddMountedApex has put one entry in, with the given mark;
-- RemoveMountedApex has taken away the first entry with the path, if there is one; SetLatest has
-- found an entry with the path, has marked the first one and unmarked all others; and
-- UnsetLatestForall has unmarked all entries. Otherwise the entries stay in their order.
pub perform_all-Steps :
    (calls : List Call) (db db' : Database)
    → perform_all calls db ≡ some db'
    → Steps calls (view db) (view db')
perform_all-Steps [] db db' h = let e : db' ≡ db = cc in λ pkg. ap (λ x. view x pkg) e
perform_all-Steps (c ∷ calls) db db' h = elim (Option-cases (perform c db)) [
  | inl failed ↦ absurd (ground arith)
  | inr (mid, done) ↦
      (view mid, perform-Step c db mid done, perform_all-Steps calls mid db' (ground arith))
]
