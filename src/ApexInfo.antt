-- ===== src/ApexInfo.antt =====
-- The parcelables of apexd/aidl/android/apex: ApexInfo and ApexSessionInfo.
use android_system_apex.Common.{Bool, Text, ℤ}

pub record ApexInfo : Type 0 where
  pub package_name : Text
  pub package_path : Text
  pub version_code : ℤ
  pub version_name : Text
  pub is_active : Bool
  pub is_factory : Bool

pub record ApexSessionInfo : Type 0 where
  pub session_id : ℤ
  pub is_unknown : Bool
  pub is_verified : Bool
  pub is_staged : Bool
  pub is_activated : Bool
  pub is_rollback_in_progress : Bool
  pub is_activation_failed : Bool
  pub is_success : Bool
  pub is_rolled_back : Bool
  pub is_rollback_failed : Bool
