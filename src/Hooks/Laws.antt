-- ===== src/Hooks/Laws.antt =====
-- Which package's hook `StageFnInstall` (apexd/apexd_prepostinstall.cpp) runs.
use android_system_apex.Common.{
  ◌≡◌, inl, inr, refl, Option, none, some, List, [], ◌∷◌, if◌then◌else◌, too_many_hooks, StatusOr,
  ok, fail, Bool-cases,
}
use android_system_apex.ApexFile.{ApexFile}
use android_system_apex.Hooks.{Hook, has_hook, hook_file}

-- The packages with a hook, in order.
unfoldable pub with_hook : Hook → List ApexFile → List ApexFile
with_hook hook [] = []
with_hook hook (f ∷ fs) = let rest = with_hook hook fs in if has_hook hook f then f ∷ rest else rest

abbrev pub only_hook : List ApexFile → StatusOr (Option ApexFile)
only_hook [] = ok none
only_hook (f ∷ []) = ok (some f)
only_hook (f ∷ g ∷ more) = fail too_many_hooks

hook_file-some :
    (hook : Hook) (g : ApexFile) (fs : List ApexFile)
    → hook_file hook (some g) fs ≡ only_hook (g ∷ with_hook hook fs)
unfolding hook_file with_hook
hook_file-some hook g [] = refl
hook_file-some hook g (f ∷ fs) = elim (Bool-cases (has_hook hook f)) [
  | inl e ↦ rw (e, hook_file, with_hook) refl
  | inr e ↦ rw (e, hook_file, with_hook) (hook_file-some hook g fs)
]

-- The package with a hook is found when there is exactly one; there is none when no package has
-- a hook, and an error when two or more have.
pub hook_file-only_hook :
    (hook : Hook) (fs : List ApexFile) → hook_file hook none fs ≡ only_hook (with_hook hook fs)
unfolding hook_file with_hook
hook_file-only_hook hook [] = refl
hook_file-only_hook hook (f ∷ fs) = elim (Bool-cases (has_hook hook f)) [
  | inl e ↦ rw (e, hook_file, with_hook) (hook_file-some hook f fs)
  | inr e ↦ rw (e, hook_file, with_hook) (hook_file-only_hook hook fs)
]
