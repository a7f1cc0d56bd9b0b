-- ===== src/Outer/Framing.antt =====
-- crates/teap/src/outer.rs: `parse` on what `build` writes.
use usg_supplicant.Common.{
  ℕ, ◌<◌, bit_and, Bool, true, false, not, List, [], ◌∷◌, ◌++◌, Option, none, some, ok, is_some,
  get_from, get_range-append, get_from-append, ◌==◌, if◌then◌else◌, ◌≡◌, refl, arith,
}
use usg_supplicant.Common.Bits.{agree_below, agree_below→eq}
use usg_supplicant.Common.Bytes.{IsU32, u32_be, u32_from_be-u32_be}
use usg_supplicant.Outer.{TeapOuter, parse_length, parse, flags_of, length_field, build}

abbrev bit_if : Bool → ℕ → ℕ
bit_if b n = if b then n else 0

-- Each flag is read back from the octet, for a version of three bits.
length_flag : (m s l : Bool) (v : ℕ) → v < 8 → bit_and (flags_of m s l v) 0x80 ≡ bit_if l 0x80
unfolding flags_of agree_below
length_flag true true true = agree_below→eq _ _ 8 refl
length_flag true true false = agree_below→eq _ _ 8 refl
length_flag true false true = agree_below→eq _ _ 8 refl
length_flag true false false = agree_below→eq _ _ 8 refl
length_flag false true true = agree_below→eq _ _ 8 refl
length_flag false true false = agree_below→eq _ _ 8 refl
length_flag false false true = agree_below→eq _ _ 8 refl
length_flag false false false = agree_below→eq _ _ 8 refl

more_flag : (m s l : Bool) (v : ℕ) → v < 8 → bit_and (flags_of m s l v) 0x40 ≡ bit_if m 0x40
unfolding flags_of agree_below
more_flag true true true = agree_below→eq _ _ 8 refl
more_flag true true false = agree_below→eq _ _ 8 refl
more_flag true false true = agree_below→eq _ _ 8 refl
more_flag true false false = agree_below→eq _ _ 8 refl
more_flag false true true = agree_below→eq _ _ 8 refl
more_flag false true false = agree_below→eq _ _ 8 refl
more_flag false false true = agree_below→eq _ _ 8 refl
more_flag false false false = agree_below→eq _ _ 8 refl

start_flag : (m s l : Bool) (v : ℕ) → v < 8 → bit_and (flags_of m s l v) 0x20 ≡ bit_if s 0x20
unfolding flags_of agree_below
start_flag true true true = agree_below→eq _ _ 8 refl
start_flag true true false = agree_below→eq _ _ 8 refl
start_flag true false true = agree_below→eq _ _ 8 refl
start_flag true false false = agree_below→eq _ _ 8 refl
start_flag false true true = agree_below→eq _ _ 8 refl
start_flag false true false = agree_below→eq _ _ 8 refl
start_flag false false true = agree_below→eq _ _ 8 refl
start_flag false false false = agree_below→eq _ _ 8 refl

version_bits : (m s l : Bool) (v : ℕ) → v < 8 → bit_and (flags_of m s l v) 0x07 ≡ v
unfolding flags_of agree_below
version_bits true true true = agree_below→eq _ _ 8 refl
version_bits true true false = agree_below→eq _ _ 8 refl
version_bits true false true = agree_below→eq _ _ 8 refl
version_bits true false false = agree_below→eq _ _ 8 refl
version_bits false true true = agree_below→eq _ _ 8 refl
version_bits false true false = agree_below→eq _ _ 8 refl
version_bits false false true = agree_below→eq _ _ 8 refl
version_bits false false false = agree_below→eq _ _ 8 refl

is_set : (b : Bool) (n x : ℕ) → 0 < n → x ≡ bit_if b n → not (x == 0) ≡ b
is_set true n x h e = ground arith
is_set false n x h e = ground arith

-- The length that a message may carry.
abbrev pub IsLength : Option ℕ → Type 0
IsLength none = Unit {0}
IsLength (some n) = IsU32 n

length_offset : Option ℕ → ℕ
length_offset none = 1
length_offset (some n) = 5

parse_length_lem :
    (f : ℕ) (t : Option ℕ) (body : List ℕ)
    → IsLength t
    → parse_length (is_some t) (f ∷ (length_field t ++ body)) ≡ ok (t, length_offset t)
unfolding parse_length length_offset
parse_length_lem f none body h = refl
parse_length_lem f (some n) body h =
    rw (get_range-append (f ∷ []) (u32_be n) body, u32_from_be-u32_be n h) refl

rest_lem :
    (f : ℕ) (t : Option ℕ) (body : List ℕ)
    → get_from (length_offset t) (f ∷ (length_field t ++ body)) ≡ some body
unfolding length_offset
rest_lem f none body = get_from-append (f ∷ []) body
rest_lem f (some n) body = get_from-append (f ∷ u32_be n) body

-- Every outer message with a version of three bits, and a length of 32 bits if any, is read back
-- from the Type-Data that `build` makes of it.
pub parse-build :
    (o : TeapOuter) → o.version < 8 → IsLength o.tls_message_length → parse (build o) ≡ ok o
unfolding parse build
parse-build o v l =
    let m : Bool = o.more_fragments in
    let s : Bool = o.start in
    let t : Option ℕ = o.tls_message_length in
    let f : ℕ = flags_of m s (is_some t) o.version in
    rw
      (
        is_set (is_some t) 0x80 (bit_and f 0x80) (omega arith)
            (length_flag m s (is_some t) o.version v),
        is_set m 0x40 (bit_and f 0x40) (omega arith) (more_flag m s (is_some t) o.version v),
        is_set s 0x20 (bit_and f 0x20) (omega arith) (start_flag m s (is_some t) o.version v),
        version_bits m s (is_some t) o.version v,
        parse_length_lem f t o.body l,
        rest_lem f t o.body,
      )
      refl
