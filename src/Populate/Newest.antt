-- ===== src/Populate/Newest.antt =====
-- Which entry `PopulateFromMounts` (apexd/apex_database.cpp) marks as the latest: the first mount
-- of the package's greatest version.
use mathlib.Core.Option
use mathlib.Core.Path.{subst₂}
use android_system_apex.Common.{
  ◌≡◌, ◌≢◌, ◌⊎◌, inl, inr, refl, sym, ap, ◌∙◌, subst, true, false, Option, some, List, [], ◌∷◌,
  arith, Text, text_eq, text_eq_iff, ℤ, ltb_ℤ, All-map, Bool-cases, Option-cases,
}
use android_system_apex.OrdMap.{find}
use android_system_apex.Database.Entry.{text_order}
use android_system_apex.Database.Latest.{set_latest_self, set_latest_others}
use android_system_apex.Database.Invariant.{IsValid, set_latest-IsValid}
use android_system_apex.Database.Add.{add_mounted_apex_self, add_mounted_apex_others}
use android_system_apex.Database.{
  PackageMap, Database, latest_count, package_map, add_mounted_apex, set_latest, entries,
}
use android_system_apex.Populate.{Versions, active_version, restore}
use android_system_apex.Populate.Marks.{
  Mount, restores, Restored, started, next, IsBest, IsBound, IsMarked, Newest, ltb_ℤ-trans_false,
  ltb_ℤ-irrefl, Inserted-latest_count, Inserted-MarksOnly, Any-map,
}

-- The two ways in which a round goes on.
pub restore-cases :
    (m : Mount) (db : Database) (vs : Versions) {t : Database × Versions}
    → restores m (db, vs) ≡ some t
    → (db' : Database) × (add_mounted_apex m.pkg false m.mounted db ≡ some db')
      × (((ltb_ℤ (active_version m.pkg vs) m.version ≡ false) × (t ≡ (db', vs)))
          ⊎ ((ltb_ℤ (active_version m.pkg vs) m.version ≡ true)
              × ((db'' : Database) × (set_latest m.pkg m.mounted.full_path db' ≡ some db'')
                  × (t ≡ (db'', (m.pkg, m.version) ∷ vs)))))
unfolding restore
restore-cases m db vs h = elim (Option-cases (add_mounted_apex m.pkg false m.mounted db)) [
  | inl refused ↦ ground arith
  | inr (db', added) ↦ elim (Bool-cases (ltb_ℤ (active_version m.pkg vs) m.version)) [
    | inl newer ↦ elim (Option-cases (set_latest m.pkg m.mounted.full_path db')) [
      | inl refused ↦ ground arith
      | inr (db'', set) ↦ (db', added, inr (newer, (db'', set, ground arith)))
    ]
    | inr older ↦ (db', added, inl (older, ground arith))
  ]
]

-- A round that leaves the package's entries and version as they are.
Newest-keep :
    (pkg : Text) (m : Mount) (ms : List Mount) (s t : Database × Versions)
    → m.pkg ≢ pkg
    → IsValid t.0
    → find pkg t.0 ≡ find pkg s.0
    → active_version pkg t.1 ≡ active_version pkg s.1
    → Newest pkg ms s
    → Newest pkg (m ∷ ms) t
Newest-keep pkg m ms s t ne valid same version n = record {
  valid = valid;
  bound = subst (λ v. IsBound pkg v (m ∷ ms)) (sym version) ((λ e. absurd (ne e)), n.bound);
  marked =
      subst₂ (λ v es. IsMarked pkg v es (m ∷ ms)) (sym version)
        (sym (ap (λ (o : Option PackageMap). Option.get_or o []) same)) (later n.marked);
}
  where
    later :
        IsMarked pkg (active_version pkg s.1) (package_map pkg s.0) ms
        → IsMarked pkg (active_version pkg s.1) (package_map pkg s.0) (m ∷ ms)
    later (inl z) = inl z
    later (inr (one, best)) = inr (one, inr best)

active_version-cons_ne :
    (pkg p : Text) (v : ℤ) (vs : Versions)
    → p ≢ pkg
    → active_version pkg ((p, v) ∷ vs) ≡ active_version pkg vs
unfolding active_version
active_version-cons_ne pkg p v vs ne = ground (arith, text_eq_iff p pkg)

active_version-cons_self : (p : Text) (v : ℤ) (vs : Versions) → active_version p ((p, v) ∷ vs) ≡ v
unfolding active_version
active_version-cons_self p v vs = ground (arith, text_eq_iff p p)

Newest-other :
    (pkg : Text) (m : Mount) (ms : List Mount) (db : Database) (vs : Versions)
    (t : Database × Versions)
    → restores m (db, vs) ≡ some t
    → m.pkg ≢ pkg
    → Newest pkg ms (db, vs)
    → Newest pkg (m ∷ ms) t
Newest-other pkg m ms db vs t h ne n =
    let (db', added, rest) = restore-cases m db vs h in
    let valid' = (add_mounted_apex_self m.pkg m.mounted db db' added).0 in
    let ne' : pkg ≢ m.pkg = λ e. ne (sym e) in
    let same' = add_mounted_apex_others m.pkg m.mounted db pkg db' added ne' in
    elim rest [
      | inl (_, e) ↦ rw e (Newest-keep pkg m ms (db, vs) (db', vs) ne valid' same' refl n)
      | inr (_, (db'', set, e)) ↦ rw e (
          Newest-keep pkg m ms (db, vs) (db'', (m.pkg, m.version) ∷ vs) ne
            (set_latest-IsValid m.pkg m.mounted.full_path db' db'' set valid')
            (set_latest_others m.pkg m.mounted.full_path pkg db' db'' set ne' ∙ same')
            (active_version-cons_ne pkg m.pkg m.version vs ne) n)
    ]

Newest-older :
    (m : Mount) (ms : List Mount) (db db' : Database) (vs : Versions)
    → add_mounted_apex m.pkg false m.mounted db ≡ some db'
    → ltb_ℤ (active_version m.pkg vs) m.version ≡ false
    → Newest m.pkg ms (db, vs)
    → Newest m.pkg (m ∷ ms) (db', vs)
Newest-older m ms db db' vs added older n =
    let (valid', inserted) = add_mounted_apex_self m.pkg m.mounted db db' added in
    let count = Inserted-latest_count inserted in
    record {
      valid = valid';
      bound = ((λ _. older), n.bound);
      marked = elim n.marked [
        | inl (zero_version, none_marked) ↦ inl (zero_version, count ∙ none_marked)
        | inr (one, best) ↦ inr (
          count ∙ one,
          inr (
              Any-map {P = IsBest m.pkg (active_version m.pkg vs) (package_map m.pkg db)}
                {Q = IsBest m.pkg (active_version m.pkg vs) (package_map m.pkg db')} ms
                (λ b h. record {
                  of_pkg = h.of_pkg;
                  of_version = h.of_version;
                  marks = Inserted-MarksOnly b.mounted.full_path inserted h.marks;
                })
                best),
        )
      ];
    }

Newest-newer :
    (m : Mount) (ms : List Mount) (db db' db'' : Database) (vs : Versions)
    → add_mounted_apex m.pkg false m.mounted db ≡ some db'
    → ltb_ℤ (active_version m.pkg vs) m.version ≡ true
    → set_latest m.pkg m.mounted.full_path db' ≡ some db''
    → Newest m.pkg ms (db, vs)
    → Newest m.pkg (m ∷ ms) (db'', (m.pkg, m.version) ∷ vs)
Newest-newer m ms db db' db'' vs added newer set n =
    let (valid', _) = add_mounted_apex_self m.pkg m.mounted db db' added in
    let (one, _, only) = set_latest_self m.pkg m.mounted.full_path db' db'' set in
    let version = active_version-cons_self m.pkg m.version vs in
    record {
      valid = set_latest-IsValid m.pkg m.mounted.full_path db' db'' set valid';
      bound =
          subst (λ v. IsBound m.pkg v (m ∷ ms)) (sym version)
            (
              (λ _. ltb_ℤ-irrefl m.version),
              All-map {P = λ b. b.pkg ≡ m.pkg → ltb_ℤ (active_version m.pkg vs) b.version ≡ false}
                  {Q = λ b. b.pkg ≡ m.pkg → ltb_ℤ m.version b.version ≡ false} ms
                  (λ b h e.
                    ltb_ℤ-trans_false (active_version m.pkg vs) m.version b.version newer (h e))
                  n.bound,
            );
      marked = inr (one, inl (record { of_pkg = refl; of_version = sym version; marks = only }));
    }

Newest-restores :
    (pkg : Text) (m : Mount) (ms : List Mount) (s t : Database × Versions)
    → restores m s ≡ some t
    → Newest pkg ms s
    → Newest pkg (m ∷ ms) t
Newest-restores pkg m ms (db, vs) t h n = elim (Bool-cases (text_eq m.pkg pkg)) [
  | inr other ↦ Newest-other pkg m ms db vs t h (λ e. cc ((text_eq_iff m.pkg pkg).1 e)) n
  | inl same ↦
      let q = (text_eq_iff m.pkg pkg).0 same in
      let n' = subst (λ p. Newest p ms (db, vs)) (sym q) n in
      let (db', added, rest) = restore-cases m db vs h in
      subst (λ p. Newest p (m ∷ ms) t) q
        (elim rest [
          | inl (older, e) ↦ rw e (Newest-older m ms db db' vs added older n')
          | inr (newer, (db'', set, e)) ↦ rw e (Newest-newer m ms db db' db'' vs added newer set n')
        ])
]

-- After the mounts `ms` the database is valid, and for each package: no mount of it has a version
-- above the recorded one; and either the recorded version is still 0 and no entry is marked, or
-- exactly one is, at the path of a mount of the package with the recorded version.
pub Restored-Newest :
    (pkg : Text) {ms : List Mount} {s : Database × Versions} → Restored ms s → Newest pkg ms s
unfolding latest_count active_version find entries
Restored-Newest pkg started = record {
  valid = record { latest = tt; unique = record { loops = tt; devices = tt } };
  bound = tt;
  marked = inl (refl, refl);
}
Restored-Newest pkg (next m {ms} {s} {t} r h) =
    Newest-restores pkg m ms s t h (Restored-Newest pkg r)
