-- ===== src/Service/Usage.antt =====
-- apexd/apexservice.cpp: what shellCommand does with a command that it refuses.
use android_system_apex.Common.{
  All, some, codes, Bool-cases, inl, inr, ℕ, ◌==◌, leb, length, ◌≡◌, refl, Bool, false, List, [],
  ◌∷◌, Text, ℤ, arith, done,
}
use android_system_apex.Os.{Os}
use android_system_apex.Config.{Config}
use android_system_apex.Daemon.{Daemon}
use android_system_apex.Service.{Binder}
use android_system_apex.Service.Help.{Stream, Printed, to_err, print_help}
use android_system_apex.Service.Shell.{
  bad_value, Command, stage_one, stage_many, list_all, list_active, show_active, activate,
  deactivate, show_session, submit, preinstall, postinstall, help, unrecognized, command_of,
  bad_stream, run_command, shell_command,
}

-- The number of arguments that a command takes.
abbrev pub takes : Command → ℕ → Bool
takes stage_one n = n == 1
takes stage_many n = leb 1 n
takes list_all n = n == 0
takes list_active n = n == 0
takes show_active n = n == 1
takes activate n = n == 1
takes deactivate n = n == 1
takes show_session n = n == 1
takes submit n = n == 1
takes preinstall n = leb 1 n
takes postinstall n = leb 1 n
takes help n = n == 0
takes unrecognized n = false

-- A command with a number of arguments that it takes.
abbrev pub accepts : List Text → Bool
accepts [] = false
accepts (cmd ∷ args) = takes (command_of cmd) (length args)

-- A message on the error stream.
abbrev pub OnError : Stream × Text → Type 0
OnError (stream, text) = stream ≡ to_err

module _ {W : Type 0} (os : Os W) (config : Config) (binder : Binder) where
  run_command-Refused :
      (c : Command) (args : List Text) (d : Daemon W)
      → takes c (length args) ≡ false
      → (printed : Printed) × All OnError printed
        × (run_command os config binder c args d ≡ (done (bad_value, printed), d))
  unfolding run_command print_help
  run_command-Refused stage_one [] d wrong = (_, (refl, tt), refl)
  run_command-Refused stage_one (a ∷ []) d wrong = ground arith
  run_command-Refused stage_one (a ∷ b ∷ args) d wrong = (_, (refl, tt), refl)
  run_command-Refused stage_many [] d wrong = (_, (refl, tt), refl)
  run_command-Refused stage_many (a ∷ args) d wrong = ground arith
  run_command-Refused list_all [] d wrong = ground arith
  run_command-Refused list_all (a ∷ args) d wrong = (_, (refl, tt), refl)
  run_command-Refused list_active [] d wrong = ground arith
  run_command-Refused list_active (a ∷ args) d wrong = (_, (refl, tt), refl)
  run_command-Refused show_active [] d wrong = (_, (refl, tt), refl)
  run_command-Refused show_active (a ∷ []) d wrong = ground arith
  run_command-Refused show_active (a ∷ b ∷ args) d wrong = (_, (refl, tt), refl)
  run_command-Refused activate [] d wrong = (_, (refl, tt), refl)
  run_command-Refused activate (a ∷ []) d wrong = ground arith
  run_command-Refused activate (a ∷ b ∷ args) d wrong = (_, (refl, tt), refl)
  run_command-Refused deactivate [] d wrong = (_, (refl, tt), refl)
  run_command-Refused deactivate (a ∷ []) d wrong = ground arith
  run_command-Refused deactivate (a ∷ b ∷ args) d wrong = (_, (refl, tt), refl)
  run_command-Refused show_session [] d wrong = (_, (refl, tt), refl)
  run_command-Refused show_session (a ∷ []) d wrong = ground arith
  run_command-Refused show_session (a ∷ b ∷ args) d wrong = (_, (refl, tt), refl)
  run_command-Refused submit [] d wrong = (_, (refl, tt), refl)
  run_command-Refused submit (a ∷ []) d wrong = ground arith
  run_command-Refused submit (a ∷ b ∷ args) d wrong = (_, (refl, tt), refl)
  run_command-Refused preinstall [] d wrong = (_, (refl, tt), refl)
  run_command-Refused preinstall (a ∷ args) d wrong = ground arith
  run_command-Refused postinstall [] d wrong = (_, (refl, tt), refl)
  run_command-Refused postinstall (a ∷ args) d wrong = ground arith
  run_command-Refused help [] d wrong = ground arith
  run_command-Refused help (a ∷ args) d wrong = (_, (refl, tt), refl)
  run_command-Refused unrecognized args d wrong = (_, (refl, tt), refl)

  -- A command that is missing, unknown, or given a number of arguments that it does not take is
  -- refused with BAD_VALUE: nothing of the state or the world changes, and what is printed goes to
  -- the error stream.
  pub shell_command-misuse :
      (input output errors : ℤ) (args : List Text) (d : Daemon W)
      → accepts args ≡ false
      → (printed : Printed) × All OnError printed
        × (shell_command os config binder input output errors args d
            ≡ (done (bad_value, printed), d))
  unfolding shell_command print_help
  shell_command-misuse input output errors [] d wrong =
      elim (Bool-cases (bad_stream binder input output errors)) [
        | inl bad ↦ ([], tt, rw bad refl)
        | inr good ↦ (print_help to_err (some (codes "No command given")), (refl, tt), rw good refl)
      ]
  shell_command-misuse input output errors (cmd ∷ rest) d wrong =
      elim (Bool-cases (bad_stream binder input output errors)) [
        | inl bad ↦ ([], tt, rw bad refl)
        | inr good ↦
            let (printed, onerror, same) = run_command-Refused (command_of cmd) rest d wrong in
            (printed, onerror, rw good same)
      ]
