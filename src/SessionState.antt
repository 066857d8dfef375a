-- ===== src/SessionState.antt =====
-- The message of proto/session_state.proto.
use android_system_apex.Common.{List, Text, ℤ, Bool, true, false}

pub data State : Type 0 where
  unknown verified staged activated activation_failed succeeded : State
  rollback_in_progress rolled_back rollback_failed : State

pub record SessionState : Type 0 where
  pub id : ℤ
  pub state : State
  pub child_session_ids : List ℤ
  pub expected_build_fingerprint : Text

-- `==` on the enumeration.
unfoldable pub state_eq : State → State → Bool
state_eq unknown unknown = true
state_eq verified verified = true
state_eq staged staged = true
state_eq activated activated = true
state_eq activation_failed activation_failed = true
state_eq succeeded succeeded = true
state_eq rollback_in_progress rollback_in_progress = true
state_eq rolled_back rolled_back = true
state_eq rollback_failed rollback_failed = true
state_eq a b = false
