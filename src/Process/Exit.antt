-- ===== src/Process/Exit.antt =====
-- apexd/apexd_utils.h: when ForkAndRun reports success.
use android_system_apex.Common.{
  ℕ, ◌%◌, ◌/◌, ◌≡◌, ◌↔◌, some, List, Text, arith, done, inl, inr, Option-cases,
}
use android_system_apex.Os.{Os}
use android_system_apex.Daemon.{Daemon}
use android_system_apex.Process.{fork_and_run, wait_child}

module _ {W : Type 0} (os : Os W) where
  -- The child was started and waited for, and it exited by itself with the code 0.
  abbrev pub RanWell : List Text → Daemon W → Type 0
  RanWell args d =
      (pid : ℕ) × (status : ℕ) × ((os.spawn args d.world).0 ≡ some pid)
      × ((os.waitpid pid (os.spawn args d.world).1).0 ≡ some status)
      × (status % 128 ≡ 0)
      × (status / 256 % 256 ≡ 0)

  -- ForkAndRun returns 0 exactly when the child was started and waited for, was ended by no signal,
  -- and exited with the code 0.
  pub fork_and_run_iff :
      (args : List Text) (d : Daemon W)
      → ((fork_and_run os args d).0 ≡ done (some 0)) ↔ RanWell args d
  unfolding fork_and_run wait_child
  fork_and_run_iff args d = elim (Option-cases (os.spawn args d.world).0) [
    | inl refused ↦ ground arith
    | inr (pid, started) ↦ elim (Option-cases (os.waitpid pid (os.spawn args d.world).1).0) [
      | inl lost ↦ ground arith
      | inr (status, waited) ↦
          (λ h. (pid, status, started, waited, ground arith, ground arith), λ h. ground arith)
    ]
  ]
