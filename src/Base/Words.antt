-- ===== src/Base/Words.antt =====
-- Bytes and words of 16, 24, 32 and 64 bits. A byte is a number below 256; a signed word is its bit
-- pattern.
use Prim.Native.Nat.{ℕ, ◌+◌, ◌*◌, ◌/◌, ◌%◌, ◌^◌, ◌<◌, bit_or}
use mathlib.Core.Path.{◌≡◌}
use mathlib.Core.List.{List, [], ◌∷◌}
use native.Mathlib.Omega.{arith}
use secure_desk.Base.Lists.{All}
use secure_desk.Base.Bits.{bit_or-shifted}

abbrev pub IsByte : ℕ → Type 0
IsByte b = b < 256

abbrev pub IsBytes : List ℕ → Type 0
IsBytes xs = All IsByte xs

-- `n as u8`
abbrev pub as_u8 : ℕ → ℕ
as_u8 n = n % 256

-- `n >> k` and `n << k`, the latter where no bit is lost
abbrev pub shr : ℕ → ℕ → ℕ
shr n k = n / 2 ^ k

abbrev pub shl : ℕ → ℕ → ℕ
shl n k = n * 2 ^ k

-- `u16::from_be_bytes` and `u16::to_be_bytes`
abbrev pub from_be16 : ℕ → ℕ → ℕ
from_be16 a b = a * 256 + b

abbrev pub to_be16 : ℕ → List ℕ
to_be16 n = as_u8 (n / 256) ∷ as_u8 n ∷ []

-- `u32::from_be_bytes` and `u32::to_be_bytes`
abbrev pub from_be32 : ℕ → ℕ → ℕ → ℕ → ℕ
from_be32 a b c d = a * 16777216 + b * 65536 + c * 256 + d

abbrev pub to_be32 : ℕ → List ℕ
to_be32 n = as_u8 (n / 16777216) ∷ as_u8 (n / 65536) ∷ as_u8 (n / 256) ∷ as_u8 n ∷ []

-- `u16::from_le_bytes` and `u16::to_le_bytes`
abbrev pub from_le16 : ℕ → ℕ → ℕ
from_le16 a b = a + b * 256

abbrev pub to_le16 : ℕ → List ℕ
to_le16 n = as_u8 n ∷ as_u8 (n / 256) ∷ []

-- `u32::from_le_bytes` and `u32::to_le_bytes`, and those of `i32` on its bit pattern
abbrev pub from_le32 : ℕ → ℕ → ℕ → ℕ → ℕ
from_le32 a b c d = a + b * 256 + c * 65536 + d * 16777216

abbrev pub to_le32 : ℕ → List ℕ
to_le32 n = as_u8 n ∷ as_u8 (n / 256) ∷ as_u8 (n / 65536) ∷ as_u8 (n / 16777216) ∷ []

-- `u64::to_le_bytes`
abbrev pub to_le64 : ℕ → List ℕ
to_le64 n =
    as_u8 n
    ∷ as_u8 (n / 2 ^ 8)
    ∷ as_u8 (n / 2 ^ 16)
    ∷ as_u8 (n / 2 ^ 24)
    ∷ as_u8 (n / 2 ^ 32)
    ∷ as_u8 (n / 2 ^ 40)
    ∷ as_u8 (n / 2 ^ 48)
    ∷ as_u8 (n / 2 ^ 56)
    ∷ []

-- `(a << 16) | (b << 8) | c`, the length in a frame's header
unfoldable pub be24 : ℕ → ℕ → ℕ → ℕ
be24 a b c = bit_or (bit_or (shl a 16) (shl b 8)) c

pub be24-eq_sum : (a b c : ℕ) → b < 256 → c < 256 → be24 a b c ≡ a * 65536 + b * 256 + c
unfolding be24
be24-eq_sum a b c hb hc =
    rw
      (
        bit_or-shifted 16 a (b * 2 ^ 8) (omega arith),
        fold a b,
        bit_or-shifted 8 (a * 256 + b) c (omega arith),
      )
      (omega arith)
  where
    fold : (a b : ℕ) → a * 2 ^ 16 + b * 2 ^ 8 ≡ (a * 256 + b) * 2 ^ 8
    fold a b = omega arith

-- The three bytes of a length below 2 ^ 24 give it back; a longer one comes back modulo 2 ^ 24.
pub be24_bytes : (n : ℕ) → be24 (as_u8 (shr n 16)) (as_u8 (shr n 8)) (as_u8 n) ≡ n % 16777216
be24_bytes n =
    omega
      (arith, be24-eq_sum (n / 65536 % 256) (n / 256 % 256) (n % 256) (omega arith) (omega arith))

-- The bytes of a word give it back.
pub from_be16-bytes : (n : ℕ) → n < 65536 → from_be16 (as_u8 (n / 256)) (as_u8 n) ≡ n
from_be16-bytes n h = omega arith

pub from_be32-bytes :
    (n : ℕ)
    → n < 2 ^ 32
    → from_be32 (as_u8 (n / 16777216)) (as_u8 (n / 65536)) (as_u8 (n / 256)) (as_u8 n) ≡ n
from_be32-bytes n h = omega arith

pub from_le16-bytes : (n : ℕ) → n < 65536 → from_le16 (as_u8 n) (as_u8 (n / 256)) ≡ n
from_le16-bytes n h = omega arith

pub from_le32-bytes :
    (n : ℕ)
    → n < 2 ^ 32
    → from_le32 (as_u8 n) (as_u8 (n / 256)) (as_u8 (n / 65536)) (as_u8 (n / 16777216)) ≡ n
from_le32-bytes n h = omega arith
