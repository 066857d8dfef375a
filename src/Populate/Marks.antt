-- ===== src/Populate/Marks.antt =====
-- The entries that `PopulateFromMounts` (apexd/apex_database.cpp) marks, as a property of the mounts
-- that it has seen.

use android_system_apex.Common.{
  ◌≡◌, ◌⊎◌, inl, inr, refl, true, false, Option, some, List, [], ◌∷◌, arith, Text, ℤ, pos, negsuc,
  ltb_ℤ, All, Any,
}
use android_system_apex.Common.Insertion.{Inserted, here, there, Inserted-All}
use android_system_apex.Database.Entry.{MountedApexData, text_order}
use android_system_apex.Database.Latest.{MarksOnly}
use android_system_apex.Database.Invariant.{IsValid}
use android_system_apex.Database.{PackageMap, Database, latest_count, package_map, entries}
use android_system_apex.Populate.{Versions, active_version, restore}

-- A mount that was found: its package, its version and its data.
pub record Mount : Type 0 where
  pub pkg : Text
  pub version : ℤ
  pub mounted : MountedApexData

abbrev pub restores : Mount → Database × Versions → Option (Database × Versions)
restores m = restore m.pkg m.version m.mounted

-- The states that the loop reaches, with the mounts so far, the newest first.
pub data Restored : List Mount → Database × Versions → Type 0 where
  started : Restored [] ([], [])
  next :
      (m : Mount) {ms : List Mount} {s t : Database × Versions}
      → Restored ms s
      → restores m s ≡ some t
      → Restored (m ∷ ms) t

-- `m` is a mount of the package with version `v`, and only entries at its path are marked.
pub record IsBest (pkg : Text) (v : ℤ) (entries : PackageMap) (m : Mount) : Type 0 where
  pub of_pkg : m.pkg ≡ pkg
  pub of_version : m.version ≡ v
  pub marks : MarksOnly m.mounted.full_path entries

-- No mount of the package has a version above `v`.
abbrev pub IsBound : Text → ℤ → List Mount → Type 0
IsBound pkg v = All (λ m. m.pkg ≡ pkg → ltb_ℤ v m.version ≡ false)

-- Either the version is 0 and no entry is marked, or one is, at the path of a best mount.
abbrev pub IsMarked : Text → ℤ → PackageMap → List Mount → Type 0
IsMarked pkg v entries ms =
    ((v ≡ pos 0) × (latest_count entries ≡ 0))
    ⊎ ((latest_count entries ≡ 1) × Any (IsBest pkg v entries) ms)

-- What holds of a package after the mounts `ms`.
pub record Newest (pkg : Text) (ms : List Mount) (s : Database × Versions) : Type 0 where
  pub valid : IsValid s.0
  pub bound : IsBound pkg (active_version pkg s.1) ms
  pub marked : IsMarked pkg (active_version pkg s.1) (package_map pkg s.0) ms

pub ltb_ℤ-trans_false : (a b c : ℤ) → ltb_ℤ a b ≡ true → ltb_ℤ a c ≡ false → ltb_ℤ b c ≡ false
ltb_ℤ-trans_false (pos a) (pos b) (pos c) h k = ground arith
ltb_ℤ-trans_false (pos a) (pos b) (negsuc c) h k = refl
ltb_ℤ-trans_false (pos a) (negsuc b) c h k = cc
ltb_ℤ-trans_false (negsuc a) (pos b) (pos c) h k = cc
ltb_ℤ-trans_false (negsuc a) (pos b) (negsuc c) h k = refl
ltb_ℤ-trans_false (negsuc a) (negsuc b) (pos c) h k = cc
ltb_ℤ-trans_false (negsuc a) (negsuc b) (negsuc c) h k = ground arith

pub ltb_ℤ-irrefl : (a : ℤ) → ltb_ℤ a a ≡ false
ltb_ℤ-irrefl (pos a) = ground arith
ltb_ℤ-irrefl (negsuc a) = ground arith

pub Inserted-latest_count :
    {d : MountedApexData} {m m' : PackageMap}
    → Inserted (d, false) m m'
    → latest_count m' ≡ latest_count m
unfolding latest_count
Inserted-latest_count (here xs) = refl
Inserted-latest_count (there (y, true) i) = omega (arith, Inserted-latest_count i)
Inserted-latest_count (there (y, false) i) = Inserted-latest_count i

pub Inserted-MarksOnly :
    {d : MountedApexData} {m m' : PackageMap} (path : Text)
    → Inserted (d, false) m m'
    → MarksOnly path m
    → MarksOnly path m'
Inserted-MarksOnly path i h =
    (Inserted-All (λ e. e.1 ≡ true → e.0.full_path ≡ path) i).1 (λ e. cc, h)

pub Any-map :
    {P Q : Mount → Type 0} (ms : List Mount) → ((m : Mount) → P m → Q m) → Any P ms → Any Q ms
Any-map [] f h = absurd h
Any-map (m ∷ ms) f (inl h) = inl (f m h)
Any-map {P} {Q} (m ∷ ms) f (inr h) = inr (Any-map {P = P} {Q = Q} ms f h)
