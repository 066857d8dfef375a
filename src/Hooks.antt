-- ===== src/Hooks.antt =====
-- apexd/apexd_prepostinstall.cpp, and its callers in apexd/apexd.cpp: the pre- and post-install
-- hooks of a set of packages. What the forked process does (`RunFnInstall`) is not modelled.
pub mod Valid
pub mod Laws
pub mod Child
use android_system_apex.Common.{
  Bool, true, false, not, Option, none, some, List, [], ◌∷◌, ◌++◌, map, Text, codes, is_empty,
  if◌then◌else◌, any_of, empty_inputs, too_many_hooks, cannot_mkdir, hook_failed, cannot_fork,
  StatusOr, ok, fail, Status, success, Action, ◌==◌,
}
use android_system_apex.Common.Effects.{
  ◌>>=◌, ◌>>◌, pure, raise, abort, gets, skip, ignore, try_run, lift_status,
}
use android_system_apex.Os.{Os, Errno}
use android_system_apex.Config.{Config, mkdir_mode}
use android_system_apex.Manifest.{get_package_mount_point, get_active_mount_point}
use android_system_apex.ApexFile.{ApexFile, open_apex}
use android_system_apex.Daemon.{Daemon, call, look_status}
use android_system_apex.Process.{fork_and_run}
use android_system_apex.Mount.{mount_package, unmount_package, is_mounted}

pub data Hook : Type 0 where
  pre_install post_install : Hook

-- `(f.GetManifest().*fn)()`.
abbrev pub hook_of : Hook → ApexFile → Text
hook_of pre_install apex = apex.manifest.preinstallhook
hook_of post_install apex = apex.manifest.postinstallhook

abbrev pub has_hook : Hook → ApexFile → Bool
has_hook hook apex = not (is_empty (hook_of hook apex))

abbrev argument : Hook → Text
argument pre_install = codes "--pre-install"
argument post_install = codes "--post-install"

-- The one package with a hook; a second one is an error.
unfoldable pub hook_file : Hook → Option ApexFile → List ApexFile → StatusOr (Option ApexFile)
hook_file hook found [] = ok found
hook_file hook found (f ∷ fs) =
    let kept = hook_file hook found fs in
    let taken = hook_file hook (some f) fs in
    if has_hook hook f then elim found [ none ↦ taken | some g ↦ fail too_many_hooks ] else kept

-- The other packages, in order: without the one that has the hook.
unfoldable pub without_hook : Hook → List ApexFile → List ApexFile
without_hook hook [] = []
without_hook hook (f ∷ fs) = if has_hook hook f then fs else f ∷ without_hook hook fs

-- `mounted_apexes` and `activation_dirs`.
record Prepared : Type 0 where
  mounted : List ApexFile
  dirs : List Text

module _ {W : Type 0} (os : Os W) (config : Config) where
  mount_if_needed : Bool → ApexFile → Action (Daemon W) (Unit {0})
  mount_if_needed true apex = skip
  mount_if_needed false apex = mount_package os config apex (get_package_mount_point apex.manifest)

  abbrev note_mount : Bool → ApexFile → Prepared → Prepared
  note_mount true apex p = p
  note_mount false apex p = record p { mounted = p.mounted ++ (apex ∷ []) }

  -- The loop that mounts the packages and makes their activation points.
  prepare : List ApexFile → Prepared → Action (Daemon W) (Prepared × Status)
  prepare [] p = pure (p, success)
  prepare (apex ∷ apexes) p = do
    db ← gets (λ d. d.mounted_apexes)
    let already = is_mounted os apex.manifest.name apex.apex_path db
    status ← try_run (mount_if_needed already apex)
    elim status [
      | fail e ↦ pure (p, fail e)
      | ok _ ↦ do
        let active_point = get_active_mount_point apex.manifest
        let p' = note_mount already apex p
        r ← call (os.mkdir active_point mkdir_mode)
        elim r [
          | Errno.no_error ↦ prepare apexes (record p' { dirs = p'.dirs ++ (active_point ∷ []) })
          | Errno.eexist ↦ prepare apexes p'
          | _ ↦ pure (p', fail cannot_mkdir)
        ]
    ]

  unmount_all : List ApexFile → Action (Daemon W) (Unit {0})
  unmount_all [] = skip
  unmount_all (f ∷ fs) = do ignore (unmount_package os f false); unmount_all fs

  remove_dirs : List Text → Action (Daemon W) (Unit {0})
  remove_dirs [] = skip
  remove_dirs (dir ∷ dirs) = do call (os.rmdir dir); remove_dirs dirs

  run_hook : Status → List Text → Action (Daemon W) Status
  run_hook (fail e) args = pure (fail e)
  run_hook (ok _) args = do
    rc ← fork_and_run os args
    pure (elim rc [
      | none ↦ fail cannot_fork
      | some status ↦ if status == 0 then success else fail hook_failed
    ])

  -- `StageFnInstall`, with its guard at the end of every path.
  unfoldable pub stage_fn_install : Hook → List ApexFile → Action (Daemon W) (Unit {0})
  unfolding mount_if_needed prepare unmount_all remove_dirs run_hook
  stage_fn_install hook apexes = do
    found ← lift_status (λ _. hook_file hook none apexes)
    elim found [
      | none ↦ abort
      | some f ↦ do
        (p, prepared) ← prepare apexes (record { mounted = []; dirs = [] })
        result ← run_hook prepared (
            codes "/system/bin/apexd"
            ∷ argument hook
            ∷ f.apex_path
            ∷ map (λ a. a.apex_path) (without_hook hook apexes))
        unmount_all p.mounted
        remove_dirs p.dirs
        lift_status (λ _. result)
    ]

  -- `PrePostinstallPackages`.
  unfoldable pub pre_postinstall_packages : Hook → List ApexFile → Action (Daemon W) (Unit {0})
  pre_postinstall_packages hook [] = raise empty_inputs
  pre_postinstall_packages hook (f ∷ fs) = elim (any_of (has_hook hook) (f ∷ fs)) [
    | false ↦ skip
    | true ↦ stage_fn_install hook (f ∷ fs)
  ]

  -- The first half of `HandlePackages`.
  unfoldable pub open_packages : List Text → W → StatusOr (List ApexFile)
  open_packages [] w = ok []
  open_packages (path ∷ paths) w = elim (open_apex os path w) [
    | fail e ↦ fail e
    | ok apex ↦ elim (open_packages paths w) [ fail e ↦ fail e | ok apexes ↦ ok (apex ∷ apexes) ]
  ]

  -- `preinstallPackages` and `postinstallPackages`.
  unfoldable pub install_hook_packages : Hook → List Text → Action (Daemon W) (Unit {0})
  install_hook_packages hook [] = raise empty_inputs
  install_hook_packages hook (path ∷ paths) = do
    apexes ← look_status (open_packages (path ∷ paths))
    pre_postinstall_packages hook apexes
