-- ===== src/Devices/Read.antt =====
-- The loop of `readVerityDevice` (apexd/apexd.cpp).
use android_system_apex.Common.{
  ℕ, zero, suc, ◌+◌, ◌-◌, ◌≤◌, ◌<◌, ◌≡◌, refl, some, List, [], ◌∷◌, arith, All,
}
use android_system_apex.Devices.{read_sizes, to_read, buf_size}

abbrev pub sum : List ℕ → ℕ
sum [] = 0
sum (n ∷ ns) = n + sum ns

-- A round reads something, and no more than the buffer holds or than is left.
to_read_bounds :
    (n : ℕ) → (0 < to_read (suc n)) × (to_read (suc n) ≤ buf_size) × (to_read (suc n) ≤ suc n)
to_read_bounds n = ground arith

-- With fuel for each byte the loop ends: what it reads adds up to the device's size, in pieces
-- of one byte at least and of the buffer's size at most.
pub read_sizes_total :
    (fuel n : ℕ)
    → n ≤ fuel
    → (sizes : List ℕ) × (read_sizes fuel n ≡ some sizes)
      × (sum sizes ≡ n)
      × All (λ k. (0 < k) × (k ≤ buf_size)) sizes
unfolding read_sizes
read_sizes_total fuel zero h = ([], refl, refl, tt)
read_sizes_total zero (suc n) h = absurd (omega arith)
read_sizes_total (suc fuel) (suc n) h =
    let (pos, buf, left) = to_read_bounds n in
    let (sizes, e, total, bounded) =
      read_sizes_total fuel (suc n - to_read (suc n)) (omega arith) in
    (to_read (suc n) ∷ sizes, rw (e, read_sizes) refl, omega arith, ((pos, buf), bounded))
