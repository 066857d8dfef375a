-- ===== src/Service/SessionId.antt =====
-- apexd/apexservice.cpp: the session id that the shell reads, `int session_id = strtol(s, nullptr,
-- 10)`, with 64 bits in a long and 32 in an int.
pub mod Laws
use android_system_apex.Common.{
  ℕ, ◌+◌, ◌-◌, ◌*◌, ◌%◌, ◌^◌, ◌==◌, Bool, false, ◌&&◌, ◌||◌, [], ◌∷◌, Text, ltb, leb, if◌then◌else◌,
  ℤ, pos, negsuc,
}

-- `isspace`.
abbrev is_space : ℕ → Bool
is_space b = (b == 32) || (leb 9 b && leb b 13)

unfoldable pub skip_spaces : Text → Text
skip_spaces [] = []
skip_spaces (b ∷ s) = let rest = skip_spaces s in if is_space b then rest else b ∷ s

abbrev pub is_digit : ℕ → Bool
is_digit b = leb 48 b && leb b 57

-- The digits that a text begins with, added to those already read.
unfoldable pub read_digits : ℕ → Text → ℕ
read_digits n [] = n
read_digits n (b ∷ s) =
    let rest = read_digits (n * 10 + (b - 48)) s in if is_digit b then rest else n

abbrev clamp_above : ℕ → ℤ
clamp_above n = if ltb n (2 ^ 63) then pos n else pos (2 ^ 63 - 1)

-- Minus a number, or LONG_MIN.
abbrev clamp_below : ℕ → ℤ
clamp_below n =
    if n == 0 then pos 0 else if leb n (2 ^ 63) then negsuc (n - 1) else negsuc (2 ^ 63 - 1)

abbrev pub signed : Text → ℤ
signed [] = pos 0
signed (b ∷ s) =
    if b == b'-'
    then clamp_below (read_digits 0 s)
    else if b == b'+'
    then clamp_above (read_digits 0 s)
    else clamp_above (read_digits 0 (b ∷ s))

-- `strtol(s, nullptr, 10)`.
unfoldable pub strtol : Text → ℤ
strtol s = signed (skip_spaces s)

-- The conversion of a long to an int.
abbrev pub to_int32 : ℤ → ℤ
to_int32 (pos n) = let m = n % 2 ^ 32 in if ltb m (2 ^ 31) then pos m else negsuc (2 ^ 32 - 1 - m)
to_int32 (negsuc n) =
    let m = n % 2 ^ 32 in if ltb m (2 ^ 31) then negsuc m else pos (2 ^ 32 - 1 - m)

-- `int session_id = strtol(...)`.
unfoldable pub parse_session_id : Text → ℤ
parse_session_id s = to_int32 (strtol s)

-- `==` on integers.
abbrev pub int_eq : ℤ → ℤ → Bool
int_eq (pos a) (pos b) = a == b
int_eq (negsuc a) (negsuc b) = a == b
int_eq a b = false
