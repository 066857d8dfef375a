-- ===== src/Database/Effects.antt =====
-- apexd/apex_database.h: what each call of MountedApexDatabase does to the entries of its package,
-- as a relation that does not name the functions of the database.
use android_system_apex.Common.{
  ◌≡◌, ◌≢◌, refl, ap, ◌⊎◌, inl, inr, Bool, true, false, some, [], ◌∷◌, ◌++◌, map, arith, Text,
  text_eq, text_eq_iff, All, Bool-cases, Option-cases,
}
use android_system_apex.Database.Entry.{MountedApexData}
use android_system_apex.Database.{PackageMap, erase_path, set_latest_in, reset}

-- The first entry with a path.
pub record At (path : Text) (m : PackageMap) : Type 0 where
  pub before : PackageMap
  pub after : PackageMap
  pub entry : MountedApexData × Bool
  pub whole : m ≡ before ++ (entry ∷ after)
  pub hit : entry.0.full_path ≡ path
  pub first : All (λ e. e.0.full_path ≢ path) before

at_head :
    (path : Text) (d : MountedApexData) (l : Bool) (m : PackageMap)
    → text_eq d.full_path path ≡ true
    → At path ((d, l) ∷ m)
at_head path d l m same = record {
  before = [];
  after = m;
  entry = (d, l);
  whole = refl;
  hit = (text_eq_iff d.full_path path).0 same;
  first = tt;
}

at_tail :
    (path : Text) (d : MountedApexData) (l : Bool) (m : PackageMap)
    → text_eq d.full_path path ≡ false
    → At path m
    → At path ((d, l) ∷ m)
at_tail path d l m other a = record {
  before = (d, l) ∷ a.before;
  after = a.after;
  entry = a.entry;
  whole = ap (λ r. (d, l) ∷ r) a.whole;
  hit = a.hit;
  first = (λ e. ground (arith, text_eq_iff d.full_path path), a.first);
}

-- The same packages in the same order, and none of them is the latest.
abbrev pub Unmarked : PackageMap → PackageMap → Type 0
Unmarked m m' = (map (λ e. e.0) m' ≡ map (λ e. e.0) m) × All (λ e. e.1 ≡ false) m'

-- The first entry with the path is gone, if there is one.
abbrev pub Erased : Text → PackageMap → PackageMap → Type 0
Erased path m m' =
    ((a : At path m) × (m' ≡ a.before ++ a.after)) ⊎ (All (λ e. e.0.full_path ≢ path) m × (m' ≡ m))

-- The first entry with the path is the latest, and no other entry is.
abbrev pub MarkedAt : Text → PackageMap → PackageMap → Type 0
MarkedAt path m m' =
    (a : At path m) × (before : PackageMap) × (after : PackageMap) × (m'
      ≡ before ++ ((a.entry.0, true) ∷ after))
    × Unmarked a.before before
    × Unmarked a.after after

pub reset-Unmarked : (m : PackageMap) → Unmarked m (reset m)
reset-Unmarked [] = (refl, tt)
reset-Unmarked ((d, l) ∷ m) =
    let (same, none_latest) = reset-Unmarked m in (ap (λ r. d ∷ r) same, (refl, none_latest))

pub erase_path-Erased : (path : Text) (m : PackageMap) → Erased path m (erase_path path m)
unfolding erase_path at_head at_tail
erase_path-Erased path [] = inr (tt, refl)
erase_path-Erased path ((d, l) ∷ m) = elim (Bool-cases (text_eq d.full_path path)) [
  | inl same ↦ rw same (inl (at_head path d l m same, refl))
  | inr other ↦ rw other (elim (erase_path-Erased path m) [
    | inl (a, e) ↦ inl (at_tail path d l m other a, ap (λ r. (d, l) ∷ r) e)
    | inr (missing, e) ↦
        inr ((λ q. ground (arith, text_eq_iff d.full_path path), missing), ap (λ r. (d, l) ∷ r) e)
  ])
]

pub set_latest_in-MarkedAt :
    (path : Text) (m m' : PackageMap) → set_latest_in path m ≡ some m' → MarkedAt path m m'
unfolding set_latest_in at_head at_tail
set_latest_in-MarkedAt path [] m' h = ground arith
set_latest_in-MarkedAt path ((d, l) ∷ m) m' h = elim (Bool-cases (text_eq d.full_path path)) [
  | inl same ↦ (at_head path d l m same, [], reset m, ground arith, (refl, tt), reset-Unmarked m)
  | inr other ↦ elim (Option-cases (set_latest_in path m)) [
    | inl missing ↦ absurd (ground arith)
    | inr (rest, marked) ↦
        let (a, before, after, e, (b, none_b), c) = set_latest_in-MarkedAt path m rest marked in
        (
          at_tail path d l m other a,
          (d, false) ∷ before,
          after,
          ground (arith, e),
          (ap (λ r. d ∷ r) b, (refl, none_b)),
          c,
        )
  ]
]
