-- ===== src/Database/Latest.antt =====
-- The mark of the active version in apexd/apex_database.h: `SetLatest`, `UnsetLatestForall`, and
-- `CheckAtMostOneLatest` as an invariant.
use mathlib.Core.Option
use android_system_apex.Common.{
  suc, ◌≤◌, ◌≡◌, ◌≢◌, ◌↔◌, refl, inl, inr, true, false, some, List, [], ◌∷◌, map, ap, ◌∙◌, subst,
  arith, Text, text_eq, text_eq_iff, leb, All, all_of_iff, Option-cases, Bool-cases,
}
use android_system_apex.OrdMap.{find, update}
use android_system_apex.OrdMap.Laws.{find-update_self, find-update_ne, All-update}
use android_system_apex.Database.Entry.{MountedApexData, text_order}
use android_system_apex.Database.{
  PackageMap, Database, latest_count, check_at_most_one_latest, reset, set_latest_in, set_latest,
  unset_latest_forall, erase_path, remove_mounted_apex, package_map,
}

abbrev pub HasOneLatest : PackageMap → Type 0
HasOneLatest m = latest_count m ≤ 1

-- Every package has at most one latest entry.
abbrev pub OneLatest : Database → Type 0
OneLatest db = All (λ p. HasOneLatest p.1) db

abbrev OneLatest-All : Database → Type 0
OneLatest-All db = All (λ p. leb (latest_count p.1) 1 ≡ true) db

OneLatest-iff_All : (db : Database) → OneLatest db ↔ OneLatest-All db
OneLatest-iff_All [] = (λ _. tt, λ _. tt)
OneLatest-iff_All (p ∷ db) =
    let ih = OneLatest-iff_All db in (λ h. (ground arith, ih.0 h.1), λ h. (ground arith, ih.1 h.1))

pub check_at_most_one_latest_iff :
    (db : Database) → (check_at_most_one_latest db ≡ true) ↔ OneLatest db
unfolding check_at_most_one_latest
check_at_most_one_latest_iff db =
    let e = all_of_iff (λ (p : Text × PackageMap). leb (latest_count p.1) 1) db in
    let i = OneLatest-iff_All db in (λ h. i.1 (e.0 h), λ h. e.1 (i.0 h))

pub latest_count-reset : (m : PackageMap) → latest_count (reset m) ≡ 0
unfolding latest_count
latest_count-reset [] = refl
latest_count-reset (e ∷ m) = latest_count-reset m

abbrev pub datas : PackageMap → List MountedApexData
datas = map λ e. e.0

pub datas-reset : (m : PackageMap) → datas (reset m) ≡ datas m
datas-reset [] = refl
datas-reset ((d, l) ∷ m) = ap (◌∷◌ d) (datas-reset m)

-- Only entries with the path are marked.
abbrev pub MarksOnly : Text → PackageMap → Type 0
MarksOnly path m = All (λ e. e.1 ≡ true → e.0.full_path ≡ path) m

MarksOnly-reset : (path : Text) (m : PackageMap) → MarksOnly path (reset m)
MarksOnly-reset path [] = tt
MarksOnly-reset path ((d, l) ∷ m) = (λ e. cc, MarksOnly-reset path m)

abbrev pub Marked : Text → PackageMap → PackageMap → Type 0
Marked path m m' = (latest_count m' ≡ 1) × (datas m' ≡ datas m) × MarksOnly path m'

pub set_latest_in-Marked :
    (path : Text) (m : PackageMap) {m' : PackageMap}
    → set_latest_in path m ≡ some m'
    → Marked path m m'
unfolding set_latest_in latest_count
set_latest_in-Marked path [] h = cc
set_latest_in-Marked path ((d, l) ∷ m) {m'} h = elim (Bool-cases (text_eq d.full_path path)) [
  | inl e ↦
      let q : (d, true) ∷ reset m ≡ m' = ground arith in
      subst (Marked path ((d, l) ∷ m)) q (
        ap suc (latest_count-reset m),
        ap (◌∷◌ d) (datas-reset m),
        (λ _. (text_eq_iff d.full_path path).0 e, MarksOnly-reset path m),
      )
  | inr e ↦ elim (Option-cases (set_latest_in path m)) [
    | inl missing ↦ ground arith
    | inr (r, found) ↦
        let (one, same, only) = set_latest_in-Marked path m found in
        let q : (d, false) ∷ r ≡ m' = ground arith in
        subst (Marked path ((d, l) ∷ m)) q (one, ap (◌∷◌ d) same, (λ t. cc, only))
  ]
]

pub set_latest-cases :
    (pkg path : Text) (db : Database) {db' : Database}
    → set_latest pkg path db ≡ some db'
    → (m : PackageMap) × (m' : PackageMap) × (find pkg db ≡ some m)
      × (set_latest_in path m ≡ some m')
      × (db' ≡ update pkg (λ _. m') db)
unfolding set_latest
set_latest-cases pkg path db h = elim (Option-cases (find pkg db)) [
  | inl missing ↦ ground arith
  | inr (m, found) ↦ elim (Option-cases (set_latest_in path m)) [
    | inl missing ↦ ground arith
    | inr (m', marked) ↦ (m, m', found, marked, ground arith)
  ]
]

pub set_latest_self :
    (pkg path : Text) (db db' : Database)
    → set_latest pkg path db ≡ some db'
    → Marked path (package_map pkg db) (package_map pkg db')
set_latest_self pkg path db db' h =
    let (m, m', found, marked, e) = set_latest-cases pkg path db h in
    let self : find pkg db' ≡ some m' =
      rw e (find-update_self pkg (λ _. m') db ∙ ap (Option.map (λ _. m')) found) in
    rw (found, self) (set_latest_in-Marked path m marked)

pub set_latest_others :
    (pkg path other : Text) (db db' : Database)
    → set_latest pkg path db ≡ some db'
    → other ≢ pkg
    → find other db' ≡ find other db
set_latest_others pkg path other db db' h ne =
    let (m, m', found, marked, e) = set_latest-cases pkg path db h in
    rw e (find-update_ne other pkg (λ _. m') db ne)

-- When `SetLatest` returns, the package has exactly one latest entry, it is one with the given
-- path, the package's entries are otherwise the same in the same order, and the entries of every
-- other package are unchanged.
pub set_latest-Marked :
    (pkg path other : Text) (db db' : Database)
    → set_latest pkg path db ≡ some db'
    → other ≢ pkg
    → Marked path (package_map pkg db) (package_map pkg db') × (find other db' ≡ find other db)
set_latest-Marked pkg path other db db' h ne =
    (set_latest_self pkg path db db' h, set_latest_others pkg path other db db' h ne)

pub set_latest-OneLatest :
    (pkg path : Text) (db : Database) {db' : Database}
    → set_latest pkg path db ≡ some db'
    → OneLatest db
    → OneLatest db'
set_latest-OneLatest pkg path db h v =
    let (m, m', found, marked, e) = set_latest-cases pkg path db h in
    rw e (
      All-update {P = HasOneLatest} pkg (λ _. m') db
        (λ _ _. omega (arith, (set_latest_in-Marked path m marked).0)) v)

pub unset_latest_forall-OneLatest :
    (pkg : Text) (db : Database) → OneLatest db → OneLatest (unset_latest_forall pkg db)
unfolding unset_latest_forall
unset_latest_forall-OneLatest pkg db =
    All-update {P = HasOneLatest} pkg reset db (λ m _. omega (arith, latest_count-reset m))

erase_path-HasOneLatest :
    (path : Text) (m : PackageMap) → latest_count (erase_path path m) ≤ latest_count m
unfolding latest_count erase_path
erase_path-HasOneLatest path [] = omega arith
erase_path-HasOneLatest path ((d, true) ∷ m) = ground (arith, erase_path-HasOneLatest path m)
erase_path-HasOneLatest path ((d, false) ∷ m) = ground (arith, erase_path-HasOneLatest path m)

pub remove_mounted_apex-OneLatest :
    (pkg path : Text) (db : Database) → OneLatest db → OneLatest (remove_mounted_apex pkg path db)
unfolding remove_mounted_apex
remove_mounted_apex-OneLatest pkg path db =
    All-update {P = HasOneLatest} pkg (erase_path path) db
      (λ m h. omega (arith, erase_path-HasOneLatest path m))
