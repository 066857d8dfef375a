-- ===== src/Service/SessionId/Laws.antt =====
-- apexd/apexservice.cpp: which session ids the shell reads.
use android_system_apex.Common.{
  ℕ, zero, suc, ◌+◌, ◌-◌, ◌*◌, ◌/◌, ◌%◌, ◌^◌, ◌≤◌, ◌<◌, ◌≡◌, arith, true, All, All-append,
  Bool-cases, inl, inr, ltb, [], ◌∷◌, ◌++◌, Text, ℤ, pos, negsuc, to_string, digits_from,
}
use android_system_apex.Service.SessionId.{
  is_digit, read_digits, strtol, to_int32, parse_session_id, skip_spaces,
}

abbrev AllDigits : Text → Type 0
AllDigits s = All (λ b. is_digit b ≡ true) s

-- A digit more.
read_digits-append :
    (n d : ℕ) (s : Text)
    → AllDigits s
    → d < 10
    → read_digits n (s ++ (48 + d) ∷ []) ≡ read_digits n s * 10 + d
unfolding read_digits
read_digits-append n d [] digits small = ground arith
read_digits-append n d (b ∷ s) (h, digits) small =
    ground (arith, read_digits-append (n * 10 + (b - 48)) d s digits)

digits_from-AllDigits : (fuel n : ℕ) → n ≤ fuel → AllDigits (digits_from fuel n)
unfolding digits_from
digits_from-AllDigits zero n enough = (ground arith, tt)
digits_from-AllDigits (suc fuel) n enough = elim (Bool-cases (ltb n 10)) [
  | inl small ↦ rw small (ground arith, tt)
  | inr large ↦ rw large (
      All-append (λ b. is_digit b ≡ true) (digits_from fuel (n / 10)) ((48 + n % 10) ∷ [])
        (digits_from-AllDigits fuel (n / 10) (ground arith)) (ground arith, tt))
]

read_digits-digits_from : (fuel n : ℕ) → n ≤ fuel → read_digits 0 (digits_from fuel n) ≡ n
unfolding digits_from read_digits
read_digits-digits_from zero n enough = ground arith
read_digits-digits_from (suc fuel) n enough = ground (
  arith,
  read_digits-digits_from fuel (n / 10),
  digits_from-AllDigits fuel (n / 10),
  read_digits-append 0 (n % 10) (digits_from fuel (n / 10)),
)

-- A text of digits is its own number.
strtol-digits :
    (s : Text) → AllDigits s → read_digits 0 s < 2 ^ 63 → strtol s ≡ pos (read_digits 0 s)
unfolding strtol skip_spaces read_digits
strtol-digits [] digits small = ground arith
strtol-digits (b ∷ s) (digit, digits) small = ground arith

-- The values of a 32-bit int.
abbrev pub Int32 : ℤ → Type 0
Int32 (pos n) = n < 2 ^ 31
Int32 (negsuc n) = n < 2 ^ 31

to_int32-Int32 : (v : ℤ) → Int32 (to_int32 v)
to_int32-Int32 (pos n) = elim (Bool-cases (ltb (n % 2 ^ 32) (2 ^ 31))) [
  | inl small ↦ rw small (ground arith)
  | inr large ↦ rw large (ground arith)
]
to_int32-Int32 (negsuc n) = elim (Bool-cases (ltb (n % 2 ^ 32) (2 ^ 31))) [
  | inl small ↦ rw small (ground arith)
  | inr large ↦ rw large (ground arith)
]

-- Whatever the text, the id that the shell reads is a 32-bit int; and the id of a session, as
-- std::to_string prints it, is read back.
pub parse_session_id-to_string :
    (s : Text) (n : ℕ)
    → n < 2 ^ 31
    → Int32 (parse_session_id s) × (parse_session_id (to_string (pos n)) ≡ pos n)
unfolding parse_session_id to_string
parse_session_id-to_string s n small =
    let digits = digits_from-AllDigits n n (omega arith) in
    let value = read_digits-digits_from n n (omega arith) in
    (to_int32-Int32 (strtol s), ground (arith, strtol-digits (digits_from n n) digits))
