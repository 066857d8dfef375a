-- ===== src/Hooks/Child/Exec.antt =====
-- apexd/apexd_prepostinstall.cpp: what the forked process of a hook can become.
use android_system_apex.Common.{
  ◌≤◌, ◌≡◌, true, List, [], ◌∷◌, Text, refl, arith, StatusOr-cases, ok, Outcome, done, failed,
  aborted, inl, inr, Bool-cases, ◌⊎◌, Outcome-cases,
}
use android_system_apex.Os.{Os, is_success}
use android_system_apex.Paths.{◌/+◌}
use android_system_apex.Manifest.{get_package_mount_point, get_active_mount_point}
use android_system_apex.ApexFile.{ApexFile, open_apex}
use android_system_apex.Daemon.{Daemon}
use android_system_apex.Mount.Bind.{bind_mount, bind_mount_returns}
use android_system_apex.Hooks.{Hook, hook_of}
use android_system_apex.Hooks.Child.{
  ChildEnd, exited, became, bind_fn, bind_first, bind_others, close_std_descriptors, run_program,
  run_fn_install, exit_with, bound,
}

-- The process exits with one of its five codes, or becomes a program whose path is as it should be.
abbrev pub Ended : (Text → Type 0) → Outcome ChildEnd → Type 0
Ended P (done (exited code)) = (200 ≤ code) × (code ≤ 204)
Ended P (done (became path)) = P path
Ended P (failed e) = ⊥
Ended P aborted = ⊥

Ended-map :
    {P Q : Text → Type 0} (o : Outcome ChildEnd)
    → ((path : Text) → P path → Q path)
    → Ended P o
    → Ended Q o
Ended-map (done (exited code)) f h = h
Ended-map (done (became path)) f h = f path h
Ended-map (failed e) f h = h
Ended-map aborted f h = h

module _ {W : Type 0} (os : Os W) where
  abbrev Binds : Hook → Text → Daemon W → ApexFile → Type 0
  Binds hook path d apex =
      (open_apex os path d.world ≡ ok apex)
      × ((bind_fn os hook path d).0
          ≡ done (bound (get_active_mount_point apex.manifest) (hook_of hook apex)))

  bind_fn-cases :
      (hook : Hook) (path : Text) (d : Daemon W)
      → ((bind_fn os hook path d).0 ≡ done (exit_with 202))
        ⊎ ((bind_fn os hook path d).0 ≡ done (exit_with 203))
        ⊎ ((apex : ApexFile) × Binds hook path d apex)
  unfolding bind_fn
  bind_fn-cases hook path d = elim (StatusOr-cases (open_apex os path d.world)) [
    | inr (e, unreadable) ↦ inl (ground arith)
    | inl (apex, opened) ↦
        let mount_point = get_package_mount_point apex.manifest in
        let active_point = get_active_mount_point apex.manifest in
        elim (Outcome-cases (bind_mount os active_point mount_point d).0) [
          | inl (_, fine) ↦ inr (inr (apex, (opened, ground arith)))
          | inr (inl (e, refused)) ↦ inr (inl (ground arith))
          | inr (inr gone) ↦ absurd (bind_mount_returns os active_point mount_point d gone)
        ]
  ]

  bind_others-Ended :
      (hook : Hook) (hook_path : Text) (paths : List Text) (d : Daemon W)
      → Ended (λ p. p ≡ hook_path) (bind_others os hook hook_path paths d).0
  unfolding bind_others run_program
  bind_others-Ended hook hook_path [] d =
      elim (Bool-cases (os.execv hook_path (close_std_descriptors os d.world)).0) [
        | inl refused ↦ rw (refused, bind_others, Ended) (omega arith, omega arith)
        | inr started ↦ rw (started, bind_others, Ended) refl
      ]
  bind_others-Ended hook hook_path (path ∷ paths) d = elim (bind_fn-cases hook path d) [
    | inl a ↦ rw (a, bind_others, Ended) (omega arith, omega arith)
    | inr (inl b) ↦ rw (b, bind_others, Ended) (omega arith, omega arith)
    | inr (inr (apex, (opened, c))) ↦
        rw (c, bind_others, Ended)
          (bind_others-Ended hook hook_path paths (bind_fn os hook path d).1)
  ]

  -- The hook of the package, under its active mount point.
  abbrev pub IsHookOf : Hook → Text → Daemon W → Text → Type 0
  IsHookOf hook path d p =
      (apex : ApexFile) × (open_apex os path d.world ≡ ok apex)
      × (p ≡ get_active_mount_point apex.manifest /+ hook_of hook apex)

  bind_first-Ended :
      (hook : Hook) (path : Text) (paths : List Text) (d : Daemon W)
      → Ended (IsHookOf hook path d) (bind_first os hook path paths d).0
  unfolding bind_first
  bind_first-Ended hook path paths d = elim (bind_fn-cases hook path d) [
    | inl a ↦ rw (a, bind_first, Ended) (omega arith, omega arith)
    | inr (inl b) ↦ rw (b, bind_first, Ended) (omega arith, omega arith)
    | inr (inr (apex, (opened, c))) ↦
        let hook_path = get_active_mount_point apex.manifest /+ hook_of hook apex in
        rw (c, bind_first, Ended)
          (Ended-map {P = λ p. p ≡ hook_path} {Q = IsHookOf hook path d} _
            (λ p e. (apex, opened, e))
            (bind_others-Ended hook hook_path paths (bind_fn os hook path d).1))
  ]

  -- The process with mounts of its own.
  abbrev pub private_mounts : Daemon W → Daemon W
  private_mounts d = record d { world = (os.make_private (os.unshare d.world).1).1 }

  -- Both calls that give the process mounts of its own succeed.
  abbrev pub Unshares : Daemon W → Type 0
  Unshares d =
      (is_success (os.unshare d.world).0 ≡ true)
      × (is_success (os.make_private (os.unshare d.world).1).0 ≡ true)

  -- Whatever fails, the process of a hook ends with a code from 200 to 204; it becomes a program
  -- only where it has its own private mounts and its first package opens, and then the program is
  -- that package's hook under its active mount point.
  pub run_fn_install-Ended :
      (hook : Hook) (path : Text) (paths : List Text) (d : Daemon W)
      → Ended
          (λ p. Unshares d × IsHookOf hook path (private_mounts d) p)
          (run_fn_install os hook path paths d).0
  unfolding run_fn_install
  run_fn_install-Ended hook path paths d = elim (Bool-cases (is_success (os.unshare d.world).0)) [
    | inr shared ↦ rw (shared, run_fn_install, Ended) (omega arith, omega arith)
    | inl unshared ↦ elim (Bool-cases (is_success (os.make_private (os.unshare d.world).1).0)) [
      | inr public ↦ rw (unshared, public, run_fn_install, Ended) (omega arith, omega arith)
      | inl private ↦
          rw (unshared, private, run_fn_install, Ended)
            (Ended-map {P = IsHookOf hook path (private_mounts d)}
              {Q = λ p. Unshares d × IsHookOf hook path (private_mounts d) p} _
              (λ p h. ((unshared, private), h))
              (bind_first-Ended hook path paths (private_mounts d)))
    ]
  ]
