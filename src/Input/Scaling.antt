-- ===== src/Input/Scaling.antt =====
-- app/src-tauri/src/input.rs, on Windows: the scaling of coordinates to 0 .. 65535.
use secure_desk.Base.{ℕ, ◌+◌, ◌*◌, ◌/◌, ◌^◌, ◌≤◌, ◌<◌, ◌≡◌, some, arith}
use secure_desk.Base.Int32.{mul32, div32_lem}
use secure_desk.Input.Windows.{norm}

pub norm_lem :
    (v size : ℕ) → v ≤ 32768 → 0 < size → size < 2 ^ 31 → norm v size ≡ some (v * 65535 / size)
unfolding norm
norm_lem v size h pos below =
    let whole : mul32 v 65535 ≡ v * 65535 = omega arith in
    rw whole (div32_lem (v * 65535) size (omega arith) pos below)

quotient_lt : (a b w : ℕ) → 0 < w → a + w ≤ b → a / w < b / w
quotient_lt a b w pos h = grind arith

-- On a screen of at most 32768 pixels in a direction, a coordinate on the screen is scaled to a number
-- below 65535, and a coordinate further on is scaled to a larger number.
pub norm_monotone :
    (v v' size : ℕ)
    → v < v'
    → v' < size
    → size ≤ 32768
    → (n : ℕ) × (n' : ℕ) × (norm v size ≡ some n)
      × (norm v' size ≡ some n')
      × (n < n')
      × (n' < 65535)
norm_monotone v v' size lt below small = (
  v * 65535 / size,
  v' * 65535 / size,
  norm_lem v size (omega arith) (omega arith) (omega arith),
  norm_lem v' size (omega arith) (omega arith) (omega arith),
  quotient_lt (v * 65535) (v' * 65535) size (omega arith) (omega arith),
  grind arith,
)
