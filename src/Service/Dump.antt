-- ===== src/Service/Dump.antt =====
-- apexd/apexservice.cpp: `dump`, the report on packages and sessions.
use android_system_apex.Common.{List, [], ◌∷◌, ◌++◌, Text, codes, ℤ, to_string, true, false, Action}
use android_system_apex.Common.Effects.{◌>>=◌, pure}
use android_system_apex.Os.{Os}
use android_system_apex.SessionState.{SessionState}
use android_system_apex.Session.{get_sessions as sessions_on_disk}
use android_system_apex.Daemon.{Daemon, look}
use android_system_apex.Service.{Binder, no_error}
use android_system_apex.Service.Info.{endl, get_active_packages}
use android_system_apex.Service.Help.{Stream, Printed, to_out, print_infos}
use android_system_apex.Service.Shell.{ShellStatus, no_problem, bad_value}

spaced_ids : List ℤ → Text
spaced_ids [] = []
spaced_ids (child ∷ children) = codes " " ++ (to_string child ++ spaced_ids children)

-- `child_ids_str`.
abbrev child_ids_text : List ℤ → Text
child_ids_text [] = []
child_ids_text (child ∷ children) = codes "Child IDs:" ++ spaced_ids (child ∷ children)

-- A line of the report.
pub session_line : Binder → SessionState → Text
unfolding spaced_ids
session_line binder s =
    codes "Session ID: "
    ++ (to_string s.id
        ++ (child_ids_text s.child_session_ids
            ++ (codes " State: " ++ (binder.state_name s.state ++ endl))))

pub print_sessions : Binder → List SessionState → Printed
print_sessions binder [] = []
print_sessions binder (s ∷ ss) = (to_out, session_line binder s) ∷ print_sessions binder ss

-- `dump`, which has one stream.
unfoldable pub dump : {W : Type 0} → Os W → Binder → Action (Daemon W) (ShellStatus × Printed)
unfolding print_sessions session_line
dump os binder = do
  (status, infos) ← get_active_packages os binder
  let header : Stream × Text = (to_out, codes "ACTIVE PACKAGES:" ++ endl)
  elim (no_error status) [
    | false ↦ pure (
      bad_value,
      header
          ∷ (to_out, codes "Failed to retrieve packages: " ++ (binder.describe status ++ endl))
          ∷ [],
    )
    | true ↦ do
      sessions ← look (sessions_on_disk os)
      pure (
        no_problem,
        header
            ∷ (print_infos infos
                ++ ((to_out, codes "SESSIONS:" ++ endl) ∷ print_sessions binder sessions)),
      )
  ]
