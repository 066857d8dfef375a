-- ===== src/Process.antt =====
-- apexd/apexd_utils.h: running a program in a child process, and waiting for a file.
pub mod Frame
pub mod Wait
pub mod Exit
use android_system_apex.Common.{
  ℕ, zero, suc, ◌+◌, ◌/◌, ◌%◌, ◌==◌, Bool, true, false, ◌&&◌, Option, none, some, List, Text, ltb,
  if◌then◌else◌, device_timeout, Action,
}
use android_system_apex.Common.Effects.{◌>>=◌, ◌>>◌, pure, raise, abort, skip}
use android_system_apex.Os.{Os, FileKind, unreadable}
use android_system_apex.Daemon.{Daemon, call, look}

-- `WIFEXITED(status) && WEXITSTATUS(status) == 0`.
abbrev pub exited_with_0 : ℕ → Bool
exited_with_0 status = (status % 128 == 0) && (status / 256 % 256 == 0)

abbrev pub child_status : Option ℕ → ℕ
child_status none = 1
child_status (some status) = if exited_with_0 status then 0 else status

abbrev stat_works : FileKind → Bool
stat_works (unreadable e) = false
stat_works kind = true

module _ {W : Type 0} (os : Os W) where
  -- `WaitChild`.
  unfoldable pub wait_child : ℕ → Action (Daemon W) ℕ
  wait_child pid = do status ← call (os.waitpid pid); pure (child_status status)

  -- `ForkAndRun`; `none` is its -1.
  unfoldable pub fork_and_run : List Text → Action (Daemon W) (Option ℕ)
  fork_and_run args = do
    pid ← call (os.spawn args)
    elim pid [ none ↦ pure none | some p ↦ do rc ← wait_child p; pure (some rc) ]

  -- The loop of `WaitForFile`, on fuel; out of fuel it aborts.
  pub wait_rounds : ℕ → W → Text → ℕ → Action (Daemon W) (Unit {0})
  wait_rounds zero timer path timeout = abort
  wait_rounds (suc fuel) timer path timeout = do
    now ← look (os.elapsed timer)
    elim (ltb now timeout) [
      | false ↦ raise device_timeout
      | true ↦ do
        kind ← look (os.stat path)
        elim (stat_works kind) [
          | true ↦ skip
          | false ↦ do call (λ w. (tt, os.sleep 5000 w)); wait_rounds fuel timer path timeout
        ]
    ]

  -- `WaitForFile`, with a timeout in milliseconds: a round takes five or more.
  unfoldable pub wait_for_file : Text → ℕ → Action (Daemon W) (Unit {0})
  unfolding wait_rounds
  wait_for_file path timeout = do
    timer ← look (λ w. w)
    wait_rounds (suc (timeout / 5 + 1)) timer path timeout
