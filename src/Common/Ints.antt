-- ===== src/Common/Ints.antt =====
-- Signed integers over the native numbers, their decimal text, and the cast to 64 bits.
use Prim.Native.Nat.{ℕ, zero, suc, ◌+◌, ◌-◌, ◌/◌, ◌%◌, ◌^◌, ◌≤◌, ◌<◌}
use mathlib.Core.Path.{◌≡◌, refl}
use mathlib.Core.Logic.{◌⊎◌, inl}
use mathlib.Core.Bool.{Bool, true, false, ◌||◌}
use mathlib.Core.List.{[], ◌∷◌, ◌++◌}
use native.Mathlib.Omega.{arith}
use android_system_apex.Common.Tests.{ltb, ◌==◌, if◌then◌else◌}
use android_system_apex.Common.Texts.{Text, contains_byte}

-- `negsuc n` is -(n + 1).
pub data ℤ : Type 0 where
  pos : ℕ → ℤ
  negsuc : ℕ → ℤ

abbrev pub ltb_ℤ : ℤ → ℤ → Bool
ltb_ℤ (pos a) (pos b) = ltb a b
ltb_ℤ (pos a) (negsuc b) = false
ltb_ℤ (negsuc a) (pos b) = true
ltb_ℤ (negsuc a) (negsuc b) = ltb b a

-- `version() == 0`.
abbrev pub is_zero : ℤ → Bool
is_zero (pos n) = n == 0
is_zero (negsuc n) = false

-- `static_cast<uint64_t>` of an int64_t.
abbrev pub to_u64 : ℤ → ℕ
to_u64 (pos n) = n % 2 ^ 64
to_u64 (negsuc n) = (2 ^ 64 - suc n) % 2 ^ 64

-- The conversion to int32_t.
abbrev pub to_i32 : ℕ → ℤ
to_i32 n = if ltb (n % 2 ^ 32) (2 ^ 31) then pos (n % 2 ^ 32) else negsuc (2 ^ 32 - 1 - n % 2 ^ 32)

-- The decimal digits of a number below `fuel + 1`.
unfoldable pub digits_from : ℕ → ℕ → Text
digits_from zero n = (48 + n) ∷ []
digits_from (suc fuel) n =
    let more = digits_from fuel (n / 10) ++ (48 + n % 10) ∷ [] in
    if ltb n 10 then (48 + n) ∷ [] else more

-- `std::to_string`.
unfoldable pub to_string : ℤ → Text
unfolding digits_from
to_string (pos n) = digits_from n n
to_string (negsuc n) = b'-' ∷ digits_from (suc n) (suc n)

contains_byte-append :
    (c : ℕ) (s t : Text) → contains_byte c (s ++ t) ≡ (contains_byte c s || contains_byte c t)
contains_byte-append c [] t = refl
contains_byte-append c (b ∷ s) t = ground (arith, contains_byte-append c s t)

-- Enough fuel: each round divides by ten, so every byte is a decimal digit.
digits_from-contains_byte :
    (c fuel n : ℕ) → (c < 48) ⊎ (57 < c) → n ≤ fuel → contains_byte c (digits_from fuel n) ≡ false
unfolding digits_from
digits_from-contains_byte c zero n h k = ground arith
digits_from-contains_byte c (suc fuel) n h k = ground (
  arith,
  digits_from-contains_byte c fuel (n / 10) h,
  contains_byte-append c (digits_from fuel (n / 10)) ((48 + n % 10) ∷ []),
)

pub to_string-contains_byte :
    (c : ℕ) (v : ℤ) → (c < 45) ⊎ (57 < c) → contains_byte c (to_string v) ≡ false
unfolding to_string
to_string-contains_byte c (pos n) h = digits_from-contains_byte c n n (ground arith) (omega arith)
to_string-contains_byte c (negsuc n) h = ground (arith, digits_from-contains_byte c (suc n) (suc n))

pub to_string-no_slash : (v : ℤ) → contains_byte b'/' (to_string v) ≡ false
unfolding to_string
to_string-no_slash (pos n) = digits_from-contains_byte b'/' n n (inl (omega arith)) (omega arith)
to_string-no_slash (negsuc n) =
    digits_from-contains_byte b'/' (suc n) (suc n) (inl (omega arith)) (omega arith)
