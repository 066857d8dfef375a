-- ===== src/Hooks/Child.antt =====
-- apexd/apexd_prepostinstall.cpp: `RunFnInstall`, the forked process that runs a hook. Its result
-- is the code that the process exits with; a hook that starts takes the process over.
pub mod Frame
pub mod Exec
use android_system_apex.Common.{ℕ, true, false, List, [], ◌∷◌, Text, ok, fail, Action}
use android_system_apex.Common.Effects.{◌>>=◌, ◌>>◌, pure, try_run}
use android_system_apex.Os.{Os, is_success}
use android_system_apex.Paths.{◌/+◌}
use android_system_apex.Manifest.{get_package_mount_point, get_active_mount_point}
use android_system_apex.ApexFile.{open_apex}
use android_system_apex.Daemon.{Daemon, call, look}
use android_system_apex.Mount.Bind.{bind_mount}
use android_system_apex.Hooks.{Hook, hook_of}

-- How the process ends: with `_exit(code)`, or as the hook at a path.
pub data ChildEnd : Type 0 where
  exited : ℕ → ChildEnd
  became : Text → ChildEnd

-- What `bind_fn` returns, or the code that it exits with.
pub data Bound : Type 0 where
  exit_with : ℕ → Bound
  bound : Text → Text → Bound

module _ {W : Type 0} (os : Os W) where
  -- `bind_fn`: the active point of the package and its hook.
  pub bind_fn : Hook → Text → Action (Daemon W) Bound
  bind_fn hook path = do
    opened ← look (open_apex os path)
    elim opened [
      | fail e ↦ pure (exit_with 202)
      | ok apex ↦ do
        let mount_point = get_package_mount_point apex.manifest
        let active_point = get_active_mount_point apex.manifest
        status ← try_run (bind_mount os active_point mount_point)
        elim status [
          | fail e ↦ pure (exit_with 203)
          | ok _ ↦ pure (bound active_point (hook_of hook apex))
        ]
    ]

  -- `CloseSTDDescriptors`.
  abbrev pub close_std_descriptors : W → W
  close_std_descriptors w = os.close 2 (os.close 1 (os.close 0 w))

  pub run_program : Text → Action (Daemon W) ChildEnd
  run_program path = do
    call (λ w. (tt, close_std_descriptors w))
    failed ← call (os.execv path)
    elim failed [ true ↦ pure (exited 204) | false ↦ pure (became path) ]

  -- The packages after the first are bound, then the hook runs.
  pub bind_others : Hook → Text → List Text → Action (Daemon W) ChildEnd
  unfolding run_program
  bind_others hook hook_path [] = run_program hook_path
  bind_others hook hook_path (path ∷ paths) = do
    r ← bind_fn hook path
    elim r [ exit_with code ↦ pure (exited code) | bound p h ↦ bind_others hook hook_path paths ]

  pub bind_first : Hook → Text → List Text → Action (Daemon W) ChildEnd
  bind_first hook path paths = do
    r ← bind_fn hook path
    elim r [
      | exit_with code ↦ pure (exited code)
      | bound active_point hook_name ↦ bind_others hook (active_point /+ hook_name) paths
    ]

  -- `RunFnInstall`, over `in_argv` from its third word on, of which there is one.
  unfoldable pub run_fn_install : Hook → Text → List Text → Action (Daemon W) ChildEnd
  unfolding bind_fn bind_others bind_first
  run_fn_install hook path paths = do
    unshared ← call os.unshare
    elim (is_success unshared) [
      | false ↦ pure (exited 200)
      | true ↦ do
        private ← call os.make_private
        elim (is_success private) [ false ↦ pure (exited 201) | true ↦ bind_first hook path paths ]
    ]
