-- ===== src/Config.antt =====
-- The build-time and boot-time constants of apexd/apexd.cpp and apexd/apex_file.cpp.
use android_system_apex.Common.{ℕ, Bool, Text, codes, List, [], ◌∷◌}

pub record Config : Type 0 where
  -- `kUpdatable`.
  pub updatable : Bool
  -- `gForceDmVerityOnSystem`.
  pub force_dm_verity_on_system : Bool
  -- `kDebugAllowBundledKey`.
  pub debug_allow_bundled_key : Bool

abbrev pub loop_device_setup_attempts : ℕ
loop_device_setup_attempts = 3

abbrev pub num_retries_when_checkpointing_enabled : ℕ
num_retries_when_checkpointing_enabled = 1

abbrev pub bootstrap_apexes : List Text
bootstrap_apexes = codes "com.android.runtime" ∷ codes "com.android.tzdata" ∷ []

abbrev pub mkdir_mode : ℕ
mkdir_mode = 0o755
