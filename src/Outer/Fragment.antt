-- ===== src/Outer/Fragment.antt =====
-- crates/teap/src/outer.rs: `fragment`.
use usg_supplicant.Common.{
  ℕ, zero, suc, max, bit_and, Bool, true, false, not, List, [], ◌∷◌, Option, none, some, length,
  first, take, drop, is_empty, leb, ltb, if◌then◌else◌,
}
use usg_supplicant.Outer.{TeapOuter, version_mask}

-- `slice::chunks`: pieces of `n` octets, the last one maybe shorter. The fuel is the slice's length,
-- and each piece takes at least one octet, since `n` is not 0.
unfoldable pub chunks_fuel : ℕ → ℕ → List ℕ → List (List ℕ)
chunks_fuel zero n xs = []
chunks_fuel (suc fuel) n [] = []
chunks_fuel (suc fuel) n (x ∷ xs) = take n (x ∷ xs) ∷ chunks_fuel fuel n (drop n (x ∷ xs))

unfoldable pub chunks : ℕ → List ℕ → List (List ℕ)
unfolding chunks_fuel
chunks n xs = chunks_fuel (length xs) n xs

-- One fragment; only the first carries the total length.
abbrev pub piece_outer : Bool → Bool → Option ℕ → ℕ → List ℕ → TeapOuter
piece_outer first more total version piece = record {
  more_fragments = more;
  start = false;
  version = version;
  tls_message_length = if first then total else none;
  body = piece;
}

-- The `while` loop over the peekable chunks.
unfoldable pub outers : Bool → Option ℕ → ℕ → List (List ℕ) → List TeapOuter
outers first total version [] = []
outers first total version (piece ∷ pieces) =
    piece_outer first (not (is_empty pieces)) total version piece
    ∷ outers false total version pieces

-- `u32::try_from(len).ok()`
abbrev pub u32_of_len : ℕ → Option ℕ
u32_of_len n = if ltb n 4294967296 then some n else none

unfoldable pub fragment : List ℕ → ℕ → ℕ → List TeapOuter
fragment message max_fragment version =
    let chunk = max max_fragment 1 in
    let v = bit_and version version_mask in
    if leb (length message) chunk
    then piece_outer false false none v message ∷ []
    else outers true (u32_of_len (length message)) v (chunks chunk message)
