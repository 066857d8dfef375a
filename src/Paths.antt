-- ===== src/Paths.antt =====
-- Paths: the constants of apexd/apex_constants.h, and the parts of a path and of a line that
-- apexd/apex_database.cpp and apexd/apex_file.cpp take apart.
pub mod Laws
use android_system_apex.Common.{
  ℕ, Bool, Option, none, some, List, [], ◌∷◌, ◌++◌, Text, codes, any_of, starts_with, ◌==◌,
  if◌then◌else◌,
}

abbrev pub apex_data_dir : Text
apex_data_dir = codes "/data/apex"

abbrev pub active_apex_packages_data_dir : Text
active_apex_packages_data_dir = codes "/data/apex/active"

abbrev pub apex_backup_dir : Text
apex_backup_dir = codes "/data/apex/backup"

abbrev pub apex_package_system_dir : Text
apex_package_system_dir = codes "/system/apex"

abbrev pub apex_package_builtin_dirs : List Text
apex_package_builtin_dirs = apex_package_system_dir ∷ codes "/product/apex" ∷ []

abbrev pub apex_root : Text
apex_root = codes "/apex"

abbrev pub staged_sessions_dir : Text
staged_sessions_dir = codes "/data/app-staging"

abbrev pub apex_package_suffix : Text
apex_package_suffix = codes ".apex"

-- `dir + "/" + name`.
infixr 66 ◌/+◌
abbrev pub ◌/+◌ : Text → Text → Text
dir /+ name = dir ++ (b'/' ∷ name)

-- What stands before and after the last `c`.
unfoldable pub split_last : ℕ → Text → Option (Text × Text)
split_last c [] = none
split_last c (b ∷ s) = elim (split_last c s) [
  | some (p, q) ↦ some (b ∷ p, q)
  | none ↦ if b == c then some ([], s) else none
]

-- `fs::path(path).filename()`.
unfoldable pub filename : Text → Text
filename path = elim (split_last b'/' path) [ none ↦ path | some (p, q) ↦ q ]

-- `fs::path(path).parent_path()`.
unfoldable pub parent_path : Text → Text
parent_path path = elim (split_last b'/' path) [
  | none ↦ []
  | some ([], q) ↦ b'/' ∷ []
  | some (b ∷ p, q) ↦ b ∷ p
]

abbrev push_first : ℕ → List Text → List Text
push_first b [] = (b ∷ []) ∷ []
push_first b (t ∷ ts) = (b ∷ t) ∷ ts

-- `Split(s, c)` for one delimiter byte: empty tokens stay.
unfoldable pub split : ℕ → Text → List Text
split c [] = [] ∷ []
split c (b ∷ s) = let rest = split c s in if b == c then [] ∷ rest else push_first b rest

-- `isPathForBuiltinApexes`.
unfoldable pub is_path_for_builtin_apexes : Text → Bool
is_path_for_builtin_apexes path = any_of (starts_with path) apex_package_builtin_dirs
