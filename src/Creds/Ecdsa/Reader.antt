-- ===== src/Creds/Ecdsa/Reader.antt =====
-- A strict reader of the DER of an ECDSA signature.
use usg_supplicant.Common.{
  ℕ, ◌+◌, ◌*◌, ◌≤◌, ◌<◌, ◌&&◌, List, [], ◌∷◌, ◌++◌, Option, none, some, length, take, drop,
  is_empty, and_then, ltb, leb, lt→ltb, le→leb, if◌then◌else◌, ◌==◌, ◌≡◌, refl, arith,
  length-append, take-length-append, drop-length-append,
}

-- The number that octets stand for, most significant first, behind `n`.
unfoldable pub number : (n : ℕ) → List ℕ → ℕ
number n [] = n
number n (b ∷ bytes) = number (n * 256 + b) bytes

-- The content of a DER INTEGER that is not negative: no octet more than it takes.
unfoldable pub integer_value : List ℕ → Option ℕ
integer_value [] = none
integer_value (b ∷ []) = if ltb b 128 then some b else none
integer_value (b ∷ c ∷ bytes) =
    if b == 0
    then (if leb 128 c then some (number 0 (c ∷ bytes)) else none)
    else if ltb b 128
    then some (number 0 (b ∷ c ∷ bytes))
    else none

-- An INTEGER with a length of one octet, and what follows it.
unfoldable pub read_integer : List ℕ → Option (ℕ × List ℕ)
read_integer (tag ∷ n ∷ rest) =
    if tag == 2 && ltb n 128 && leb n (length rest)
    then and_then (integer_value (take n rest)) (λ v. some (v, drop n rest))
    else none
read_integer _ = none

-- SEQUENCE { INTEGER, INTEGER } and nothing else.
unfoldable pub read_signature : List ℕ → Option (ℕ × ℕ)
read_signature (tag ∷ n ∷ body) =
    if tag == 0x30 && ltb n 128 && n == length body
    then and_then (read_integer body) (λ first.
      and_then (read_integer first.1)
        (λ second. if is_empty second.1 then some (first.0, second.0) else none))
    else none
read_signature _ = none

pub read_integer-content :
    (x rest : List ℕ) (v : ℕ)
    → integer_value x ≡ some v
    → length x < 128
    → read_integer (2 ∷ length x ∷ (x ++ rest)) ≡ some (v, rest)
unfolding read_integer
read_integer-content x rest v e h =
    let there : length x ≤ length (x ++ rest) = omega (arith, length-append x rest) in
    rw
      (
        lt→ltb (length x) 128 h,
        le→leb (length x) (length (x ++ rest)) there,
        take-length-append x rest,
        drop-length-append x rest,
        e,
      )
      refl
