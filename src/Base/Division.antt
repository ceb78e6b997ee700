-- ===== src/Base/Division.antt =====
-- Quotients by a divisor that is not a numeral: floor and ceiling.
use anime_manager.Base.{ℕ, zero, suc, ◌+◌, ◌-◌, ◌*◌, ◌/◌, ◌≤◌, ◌<◌, ◌≡◌, arith}

-- n lies in the window of width d that its floor names.
pub div_window : (n d : ℕ) → 0 < d → (n / d * d ≤ n) × (n < (n / d + 1) * d)
div_window n d pos = grind arith

pub div-lt : (n d total : ℕ) → 0 < d → n < total * d → n / d < total
div-lt n d total pos h = grind arith

-- A window (q - 1) * d < n ≤ q * d around n, from the bounds of q as a floor of n + d - 1.
ceiling_of_bounds :
    (n d q : ℕ)
    → 0 < n
    → q * d ≤ n + d - 1
    → n + d - 1 < (q + 1) * d
    → ((q - 1) * d < n) × (n ≤ q * d)
ceiling_of_bounds n d zero pos low high = (omega arith, omega arith)
ceiling_of_bounds n d (suc q) pos low high =
    let e : suc q - 1 ≡ q = omega arith in rw e (omega arith, omega arith)

pub ceiling_window :
    (n d : ℕ) → 0 < n → 0 < d → (((n + d - 1) / d - 1) * d < n) × (n ≤ (n + d - 1) / d * d)
ceiling_window n d npos dpos =
    let w = div_window (n + d - 1) d dpos in ceiling_of_bounds n d ((n + d - 1) / d) npos w.0 w.1

-- The ceiling of a positive number is positive.
pub div-pos : (n d : ℕ) → 0 < n → 0 < d → 0 < (n + d - 1) / d
div-pos n d npos dpos = let w = ceiling_window n d npos dpos in positive ((n + d - 1) / d) w.1
  where
    positive : (q : ℕ) → n ≤ q * d → 0 < q
    positive zero h = absurd (omega arith)
    positive (suc q) h = omega arith
