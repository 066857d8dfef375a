-- ===== src/Common/Results.antt =====
-- `Status` and `StatusOr` (apexd/status.h, apexd/status_or.h) and the effects of a function that
-- returns one: it runs on a state, returns a value or an error, or aborts the process (a failed
-- CHECK, LOG(FATAL)). Error messages are named by an enumeration.
use mathlib.Core.Path.{◌≡◌, refl}
use mathlib.Core.Logic.{◌⊎◌, inl, inr}
use mathlib.Core.Bool.{Bool, true, false}

-- One constructor for each place that makes an error message.
pub data Error : Type 0 where
  empty_inputs more_than_one_apex too_many_hooks : Error
  cannot_access cannot_scan cannot_stat cannot_mkdir cannot_chmod not_a_directory : Error
  cannot_unlink cannot_link cannot_rename cannot_delete cannot_mount cannot_unmount : Error
  cannot_open_package cannot_read cannot_parse cannot_write missing_name missing_version : Error
  not_updatable flattened not_found is_active invalid_state multiple_active no_active : Error
  backup_missing shim_has_hooks illegal_entry unexpected_hash key_conflict key_missing : Error
  verification_failed device_timeout loop_failed verity_failed activation_failed : Error
  not_empty hook_failed checkpoint_failed illegal_key_dir cannot_fork no_vold : Error

-- A value of `StatusOr<T>`; `Status` is the case of `T` with one value.
pub data StatusOr {ℓ} (A : Type ℓ) : Type ℓ where
  ok : A → StatusOr A
  fail : Error → StatusOr A

abbrev pub Status : Type 0
Status = StatusOr (Unit {0})

abbrev pub success : Status
success = ok tt

-- `status.Ok()`.
abbrev pub is_ok {ℓ} : {A : Type ℓ} → StatusOr A → Bool
is_ok (ok a) = true
is_ok (fail e) = false

pub StatusOr-cases {ℓ} :
    {A : Type ℓ} (s : StatusOr A) → ((a : A) × (s ≡ ok a)) ⊎ ((e : Error) × (s ≡ fail e))
StatusOr-cases (ok a) = inl (a, refl)
StatusOr-cases (fail e) = inr (e, refl)

-- Read-only code: a chain of fallible steps.
infixl 5 ◌>>=◌ ◌>>◌
abbrev pub ◌>>=◌ {ℓ κ} : {T : Type ℓ} {U : Type κ} → StatusOr T → (T → StatusOr U) → StatusOr U
ok value >>= next = next value
fail error >>= next = fail error

abbrev pub check_that : Bool → Error → Status
check_that true e = success
check_that false e = fail e

-- The next step, when a check passes.
abbrev pub ◌>>◌ {κ} : {T : Type κ} → Status → StatusOr T → StatusOr T
checked >> next = checked >>= λ _. next
