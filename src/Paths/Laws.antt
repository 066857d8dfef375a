-- ===== src/Paths/Laws.antt =====
-- Taking apart what was joined.
use android_system_apex.Common.{
  ℕ, ◌≡◌, refl, false, none, some, [], ◌∷◌, ◌++◌, arith, Text, contains_byte,
}
use android_system_apex.Paths.{split_last, filename, split, ◌/+◌}

split_last-missing : (c : ℕ) (s : Text) → contains_byte c s ≡ false → split_last c s ≡ none
unfolding split_last
split_last-missing c [] h = refl
split_last-missing c (b ∷ s) h = ground (arith, split_last-missing c s)

pub split_last-append :
    (c : ℕ) (p q : Text) → contains_byte c q ≡ false → split_last c (p ++ (c ∷ q)) ≡ some (p, q)
unfolding split_last
split_last-append c [] q h = ground (arith, split_last-missing c q h)
split_last-append c (b ∷ p) q h = ground (arith, split_last-append c p q h)

pub filename-join :
    (dir name : Text) → contains_byte b'/' name ≡ false → filename (dir /+ name) ≡ name
unfolding filename
filename-join dir name h = rw (split_last-append b'/' dir name h, filename)

split-one : (c : ℕ) (s : Text) → contains_byte c s ≡ false → split c s ≡ s ∷ []
unfolding split
split-one c [] h = refl
split-one c (b ∷ s) h = ground (arith, split-one c s)

-- Two tokens, if the delimiter stands in neither.
pub split-pair :
    (c : ℕ) (p q : Text)
    → contains_byte c p ≡ false
    → contains_byte c q ≡ false
    → split c (p ++ (c ∷ q)) ≡ p ∷ q ∷ []
unfolding split
split-pair c [] q h k = ground (arith, split-one c q k)
split-pair c (b ∷ p) q h k = ground (arith, split-pair c p q)

pub contains_byte-append :
    (c : ℕ) (s t : Text)
    → contains_byte c s ≡ false
    → contains_byte c t ≡ false
    → contains_byte c (s ++ t) ≡ false
contains_byte-append c [] t h k = k
contains_byte-append c (b ∷ s) t h k = ground (arith, contains_byte-append c s t)
