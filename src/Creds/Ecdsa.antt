-- ===== src/Creds/Ecdsa.antt =====
-- crates/creds/src/ecdsa.rs: a raw ECDSA signature as DER. What is pushed onto `out` is appended.
pub mod Reader
pub mod Magnitude
pub mod Decodes
use usg_supplicant.Common.{
  ℕ, ◌+◌, ◌*◌, ◌≤◌, bit_and, bit_or, Bool, true, false, not, ◌||◌, List, [], ◌∷◌, ◌++◌, Option,
  none, some, Result, ok, err, length, get_range, get_from, guard, ok_or, saturating_add, ltb, leb,
  max_64, if◌then◌else◌, ◌==◌, ◌>>=◌, ◌>>◌,
}
use usg_supplicant.Common.Bytes.{u64_be}
use usg_supplicant.Creds.{CredError}

abbrev pub p256_coord_len : ℕ
p256_coord_len = 32

abbrev pub p384_coord_len : ℕ
p384_coord_len = 48

-- From the first octet that is not zero.
unfoldable pub strip_zeros : List ℕ → List ℕ
strip_zeros [] = []
strip_zeros (b ∷ bytes) = let rest = strip_zeros bytes in if b == 0 then rest else b ∷ bytes

abbrev long_form : List ℕ → List ℕ
long_form trimmed = bit_or 0x80 (length trimmed) ∷ trimmed

unfoldable pub der_len : ℕ → (out : List ℕ) → List ℕ
der_len n out = if ltb n 0x80 then out ++ n ∷ [] else out ++ long_form (strip_zeros (u64_be n))

-- An all-zero value is a single zero.
abbrev pub or_zero : List ℕ → List ℕ
or_zero [] = 0 ∷ []
or_zero (b ∷ bytes) = b ∷ bytes

abbrev pub high_bit_set : List ℕ → Bool
high_bit_set [] = false
high_bit_set (b ∷ bytes) = not (bit_and b 0x80 == 0)

abbrev pub put_magnitude : List ℕ → (out : List ℕ) → List ℕ
put_magnitude mag out =
    if high_bit_set mag
    then (der_len (saturating_add (length mag) 1) out ++ 0 ∷ []) ++ mag
    else der_len (length mag) out ++ mag

unfoldable pub der_integer : (coord out : List ℕ) → List ℕ
der_integer coord out = put_magnitude (or_zero (strip_zeros coord)) (out ++ 2 ∷ [])

abbrev pub checked_mul : ℕ → ℕ → Option ℕ
checked_mul a b = if leb (a * b) max_64 then some (a * b) else none

unfoldable pub raw_to_der : (raw : List ℕ) → (coord_len : ℕ) → Result CredError (List ℕ)
raw_to_der raw coord_len = do
  guard (coord_len == p256_coord_len || coord_len == p384_coord_len) CredError.bad_signature
  expected ← ok_or (checked_mul coord_len 2) CredError.bad_signature
  guard (length raw == expected) CredError.bad_signature
  r ← ok_or (get_range 0 coord_len raw) CredError.bad_signature
  s ← ok_or (get_from coord_len raw) CredError.bad_signature
  let body = der_integer s (der_integer r [])
  ok (der_len (length body) (0x30 ∷ []) ++ body)
