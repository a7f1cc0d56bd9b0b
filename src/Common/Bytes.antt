-- ===== src/Common/Bytes.antt =====
-- Octets, and the big-endian and little-endian forms of fixed-width integers.
use Prim.Native.Nat.{ℕ, ◌+◌, ◌*◌, ◌/◌, ◌%◌, ◌<◌}
use mathlib.Core.Path.{◌≡◌, ap}
use mathlib.Core.List.{List, [], ◌∷◌}
use mathlib.Core.Option.{Option, none, some}
use native.Mathlib.Omega.{arith}
use usg_supplicant.Common.Lists.{All}

abbrev pub IsByte : ℕ → Type 0
IsByte b = b < 256

abbrev pub IsU16 : ℕ → Type 0
IsU16 n = n < 65536

abbrev pub IsU32 : ℕ → Type 0
IsU32 n = n < 4294967296

abbrev pub IsU64 : ℕ → Type 0
IsU64 n = n < 18446744073709551616

abbrev pub AreBytes : List ℕ → Type 0
AreBytes bs = All IsByte bs

-- `to_be_bytes` of a `u16`, a `u32` and a `u64`.
abbrev pub u16_be : ℕ → List ℕ
u16_be n = (n / 256 % 256) ∷ (n % 256) ∷ []

abbrev pub u32_be : ℕ → List ℕ
u32_be n = (n / 16777216 % 256) ∷ (n / 65536 % 256) ∷ (n / 256 % 256) ∷ (n % 256) ∷ []

abbrev pub u64_be : ℕ → List ℕ
u64_be n =
    (n / 72057594037927936 % 256)
    ∷ (n / 281474976710656 % 256)
    ∷ (n / 1099511627776 % 256)
    ∷ (n / 4294967296 % 256)
    ∷ u32_be n

-- `to_le_bytes` of a `u32`.
abbrev pub u32_le : ℕ → List ℕ
u32_le n = (n % 256) ∷ (n / 256 % 256) ∷ (n / 65536 % 256) ∷ (n / 16777216 % 256) ∷ []

-- `from_be_bytes` of an array that a slice of the right length was turned into.
abbrev pub u16_from_be : List ℕ → Option ℕ
u16_from_be (a ∷ b ∷ []) = some (a * 256 + b)
u16_from_be _ = none

abbrev pub u32_from_be : List ℕ → Option ℕ
u32_from_be (a ∷ b ∷ c ∷ d ∷ []) = some (a * 16777216 + b * 65536 + c * 256 + d)
u32_from_be _ = none

abbrev pub u32_from_le : List ℕ → Option ℕ
u32_from_le (a ∷ b ∷ c ∷ d ∷ []) = some (d * 16777216 + c * 65536 + b * 256 + a)
u32_from_le _ = none

abbrev pub u64_from_be : List ℕ → Option ℕ
u64_from_be (a ∷ b ∷ c ∷ d ∷ e ∷ f ∷ g ∷ h ∷ []) = some (
    a * 72057594037927936
    + b * 281474976710656
    + c * 1099511627776
    + d * 4294967296
    + e * 16777216
    + f * 65536
    + g * 256
    + h)
u64_from_be _ = none

pub u16_from_be-u16_be : (n : ℕ) → IsU16 n → u16_from_be (u16_be n) ≡ some n
u16_from_be-u16_be n h = ap some (omega arith)

pub u32_from_be-u32_be : (n : ℕ) → IsU32 n → u32_from_be (u32_be n) ≡ some n
u32_from_be-u32_be n h = ap some (omega arith)

pub u32_from_le-u32_le : (n : ℕ) → IsU32 n → u32_from_le (u32_le n) ≡ some n
u32_from_le-u32_le n h = ap some (omega arith)

pub u64_from_be-u64_be : (n : ℕ) → IsU64 n → u64_from_be (u64_be n) ≡ some n
u64_from_be-u64_be n h = ap some (omega arith)

pub u16_be-IsByte : (n : ℕ) → AreBytes (u16_be n)
u16_be-IsByte n = omega arith

pub u32_be-IsByte : (n : ℕ) → AreBytes (u32_be n)
u32_be-IsByte n = omega arith

pub u32_le-IsByte : (n : ℕ) → AreBytes (u32_le n)
u32_le-IsByte n = omega arith
