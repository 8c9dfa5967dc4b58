-- ===== src/Base/Division.antt =====
-- Rounding down to a multiple, by a divisor that is a variable.
use tdrive.Base.{ℕ, ◌+◌, ◌-◌, ◌*◌, ◌/◌, ◌≤◌, ◌<◌, ◌≡◌, arith}

pub add_sub_one : (n : ℕ) → n + 1 - 1 ≡ n
add_sub_one n = omega arith

pub div-mul-le : (n d : ℕ) → n / d * d ≤ n
div-mul-le n d = grind arith

pub lt-div-mul : (n d : ℕ) → 0 < d → n < n / d * d + d
lt-div-mul n d h = grind arith

pub div-le-div : (m n d : ℕ) → 0 < d → m ≤ n → m / d ≤ n / d
div-le-div m n d h k = grind (arith, div-mul-le m d, lt-div-mul n d)
