-- ===== src/Creds/Ecdsa/Magnitude.antt =====
-- crates/creds/src/ecdsa.rs: what `der_integer` writes for a coordinate.
use usg_supplicant.Common.{
  ℕ, suc, ◌+◌, ◌*◌, ◌≤◌, ◌<◌, Bool, true, false, List, [], ◌∷◌, ◌++◌, append_assoc, some, length,
  saturating_add, ltb, leb, lt→ltb, if◌then◌else◌, ◌==◌, ==_iff, ◌≡◌, refl, ap, ◌∙◌, arith,
  Bool-cases, inl, inr,
}
use usg_supplicant.Common.Bytes.{IsByte, AreBytes}
use usg_supplicant.Common.Bits.{mask_7}
use usg_supplicant.Creds.Ecdsa.{
  strip_zeros, der_len, or_zero, high_bit_set, put_magnitude, der_integer,
}
use usg_supplicant.Creds.Ecdsa.Reader.{number, integer_value}

number-strip_zeros : (bytes : List ℕ) → number 0 (strip_zeros bytes) ≡ number 0 bytes
unfolding number strip_zeros
number-strip_zeros [] = refl
number-strip_zeros (b ∷ bytes) = at_first (b == 0) refl (number-strip_zeros bytes)
  where
    at_first :
        (z : Bool)
        → (b == 0) ≡ z
        → number 0 (strip_zeros bytes) ≡ number 0 bytes
        → number 0 (if z then strip_zeros bytes else b ∷ bytes) ≡ number (0 * 256 + b) bytes
    at_first true e h =
        let same : b ≡ 0 = omega (arith, (==_iff b 0).0 e) in
        h ∙ ap (λ n. number n bytes) (let z : 0 ≡ 0 * 256 + b = omega arith in z)
    at_first false e h = refl

-- What is left begins with an octet that is not zero.
data IsStripped : List ℕ → Type 0 where
  nothing_left : IsStripped []
  left : {b : ℕ} {bytes : List ℕ} → 0 < b → IsByte b → IsStripped (b ∷ bytes)

strip_zeros-IsStripped : (bytes : List ℕ) → AreBytes bytes → IsStripped (strip_zeros bytes)
unfolding strip_zeros
strip_zeros-IsStripped [] h = nothing_left
strip_zeros-IsStripped (b ∷ bytes) (lt, h) = elim (Bool-cases (b == 0)) [
  | inl e ↦ rw e (strip_zeros-IsStripped bytes h)
  | inr e ↦ rw e (left (ground arith) lt)
]

length-strip_zeros : (bytes : List ℕ) → length (strip_zeros bytes) ≤ length bytes
unfolding strip_zeros
length-strip_zeros [] = omega arith
length-strip_zeros (b ∷ bytes) = ground (arith, length-strip_zeros bytes)

-- The content that is written for a magnitude.
content : List ℕ → List ℕ
content m = if high_bit_set m then 0 ∷ m else m

high_bit_set-leb : (b : ℕ) (bytes : List ℕ) → IsByte b → high_bit_set (b ∷ bytes) ≡ leb 128 b
high_bit_set-leb b bytes h = rw (mask_7 b h) (ground arith)

length-content : (m : List ℕ) → length (content m) ≤ length m + 1
unfolding content
length-content m = elim (Bool-cases (high_bit_set m)) [
  | inl e ↦ rw e (omega arith)
  | inr e ↦ rw e (omega arith)
]

put_magnitude-content :
    (m out : List ℕ)
    → length m ≤ 126
    → put_magnitude m out ≡ out ++ (length (content m) ∷ content m)
unfolding content der_len
put_magnitude-content m out h = at_bit (high_bit_set m)
  where
    at_bit :
        (b : Bool)
        → (if b
            then (der_len (saturating_add (length m) 1) out ++ 0 ∷ []) ++ m
            else der_len (length m) out ++ m)
          ≡ out ++ (length (if b then 0 ∷ m else m) ∷ (if b then 0 ∷ m else m))
    at_bit true =
        let one : saturating_add (length m) 1 ≡ suc (length m) = omega arith in
        rw (one, lt→ltb (suc (length m)) 0x80 (omega arith))
          (ap (λ x. x ++ m) (append_assoc out ((suc (length m)) ∷ []) (0 ∷ []))
            ∙ append_assoc out ((suc (length m)) ∷ 0 ∷ []) m)
    at_bit false = rw (lt→ltb (length m) 0x80 (omega arith)) (append_assoc out (length m ∷ []) m)

integer_value-content :
    (m : List ℕ) → IsStripped m → integer_value (content (or_zero m)) ≡ some (number 0 (or_zero m))
unfolding integer_value content number
integer_value-content [] nothing_left = refl
integer_value-content (b ∷ []) (left pos byte) = elim (Bool-cases (leb 128 b)) [
  | inl e ↦ rw (high_bit_set-leb b [] byte, e) (rw e refl)
  | inr e ↦
      rw (high_bit_set-leb b [] byte, e)
        (let small : ltb b 128 ≡ true = ground arith in
          let same : b ≡ 0 + b = omega arith in rw small (ap some same))
]
integer_value-content (b ∷ c ∷ bytes) (left pos byte) = elim (Bool-cases (leb 128 b)) [
  | inl e ↦ rw (high_bit_set-leb b (c ∷ bytes) byte, e) (rw e refl)
  | inr e ↦
      rw (high_bit_set-leb b (c ∷ bytes) byte, e)
        (let small : ltb b 128 ≡ true = ground arith in
          let not_zero : (b == 0) ≡ false = ground arith in rw (not_zero, small) refl)
]

-- The content that is written for a coordinate.
pub written : List ℕ → List ℕ
written coord = content (or_zero (strip_zeros coord))

length-or_zero : (m : List ℕ) → length (or_zero m) ≤ length m + 1
length-or_zero [] = omega arith
length-or_zero (b ∷ bytes) = omega arith

pub length-written : (coord : List ℕ) → length (written coord) ≤ length coord + 2
unfolding written
length-written coord = omega (
  arith,
  length-content (or_zero (strip_zeros coord)),
  length-or_zero (strip_zeros coord),
  length-strip_zeros coord,
)

pub der_integer-written :
    (coord out : List ℕ)
    → length coord ≤ 48
    → der_integer coord out ≡ out ++ (2 ∷ length (written coord) ∷ written coord)
unfolding der_integer written
der_integer-written coord out h =
    let m = or_zero (strip_zeros coord) in
    put_magnitude-content m (out ++ 2 ∷ [])
      (omega (arith, length-or_zero (strip_zeros coord), length-strip_zeros coord))
    ∙ append_assoc out (2 ∷ []) (length (content m) ∷ content m)

number-or_zero : (m : List ℕ) → number 0 (or_zero m) ≡ number 0 m
unfolding number
number-or_zero [] = refl
number-or_zero (b ∷ bytes) = refl

pub integer_value-written :
    (coord : List ℕ) → AreBytes coord → integer_value (written coord) ≡ some (number 0 coord)
unfolding written
integer_value-written coord h =
    integer_value-content (strip_zeros coord) (strip_zeros-IsStripped coord h)
    ∙ ap some (number-or_zero (strip_zeros coord) ∙ number-strip_zeros coord)
