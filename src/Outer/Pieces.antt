-- ===== src/Outer/Pieces.antt =====
-- crates/teap/src/outer.rs: the pieces that `fragment` cuts a message into.
use usg_supplicant.Common.{
  ℕ, zero, suc, ◌+◌, ◌-◌, ◌*◌, ◌≤◌, ◌<◌, max, bit_and, Bool, true, false, List, [], ◌∷◌, ◌++◌,
  Option, length, drop, length-take, length-drop, take-append-drop, All, inl, inr, dec_lt, leb, ◌≡◌,
  ◌⊎◌, refl, ap, arith, Bool-cases,
}
use usg_supplicant.Outer.Fragment.{chunks_fuel, chunks, outers, u32_of_len, fragment}

abbrev pub join : List (List ℕ) → List ℕ
join [] = []
join (p ∷ ps) = p ++ join ps

join-chunks_fuel :
    (fuel n : ℕ) (xs : List ℕ) → 0 < n → length xs ≤ fuel → join (chunks_fuel fuel n xs) ≡ xs
unfolding chunks_fuel
join-chunks_fuel zero n [] h f = refl
join-chunks_fuel zero n (x ∷ xs) h f = absurd (omega arith)
join-chunks_fuel (suc fuel) n [] h f = refl
join-chunks_fuel (suc fuel) n (x ∷ xs) h f =
    rw (join-chunks_fuel fuel n (drop n (x ∷ xs)) h (omega (arith, length-drop n (x ∷ xs))))
      (take-append-drop n (x ∷ xs))

pub join-chunks : (n : ℕ) (xs : List ℕ) → 0 < n → join (chunks n xs) ≡ xs
unfolding chunks
join-chunks n xs h = join-chunks_fuel (length xs) n xs h (omega arith)

pub length-outers :
    (f : Bool) (t : Option ℕ) (v : ℕ) (ps : List (List ℕ)) → length (outers f t v ps) ≡ length ps
unfolding outers
length-outers f t v [] = refl
length-outers f t v (p ∷ ps) = ap suc (length-outers false t v ps)

no_multiple : (k n : ℕ) → k * n < n → k * n ≡ 0
no_multiple zero n h = omega arith
no_multiple (suc k) n h = absurd (omega arith)

chunks_fuel_bounds :
    (fuel n : ℕ) (xs : List ℕ)
    → 0 < n
    → length xs ≤ fuel
    → All (λ p. (0 < length p) × (length p ≤ n)) (chunks_fuel fuel n xs)
      × (length (chunks_fuel fuel n xs) * n < length xs + n)
unfolding chunks_fuel
chunks_fuel_bounds zero n [] h f = (tt, omega arith)
chunks_fuel_bounds zero n (x ∷ xs) h f = absurd (omega arith)
chunks_fuel_bounds (suc fuel) n [] h f = (tt, omega arith)
chunks_fuel_bounds (suc fuel) n (x ∷ xs) h f =
    let d : length (drop n (x ∷ xs)) ≡ length (x ∷ xs) - n = length-drop n (x ∷ xs) in
    let (sizes, count) = chunks_fuel_bounds fuel n (drop n (x ∷ xs)) h (omega arith) in
    let k : ℕ = length (chunks_fuel fuel n (drop n (x ∷ xs))) in
    (
      (omega (arith, length-take n (x ∷ xs)), sizes),
      elim (dec_lt (length (x ∷ xs)) n) [
        | yes short ↦ omega (arith, no_multiple k n (omega arith))
        | no long ↦ omega arith
      ],
    )

carries :
    (chunk v : ℕ) (f : Bool) (t : Option ℕ) (ps : List (List ℕ))
    → All (λ p. (0 < length p) × (length p ≤ chunk)) ps
    → All (λ o. (length o.body ≤ chunk) × (o.version ≡ v)) (outers f t v ps)
unfolding outers
carries chunk v f t [] h = tt
carries chunk v f t (p ∷ ps) (h, hs) = ((h.1, refl), carries chunk v false t ps hs)

pieces_some : (ps : List (List ℕ)) (m : List ℕ) → join ps ≡ m → 0 < length m → 0 < length ps
pieces_some [] m j h = absurd (omega (arith, ap length j))
pieces_some (p ∷ ps) m j h = omega arith

-- Every fragment carries at most `max_fragment` octets (at least 1 is allowed for) and the low
-- three bits of the version, and there are no more fragments than the message's length asks for:
-- the length divided by that size, rounded up, or a single one.
pub fragment_bounds :
    (m : List ℕ) (max_fragment version : ℕ)
    → let chunk = max max_fragment 1 in
      let os = fragment m max_fragment version in
      All (λ o. (length o.body ≤ chunk) × (o.version ≡ bit_and version 7)) os
      × (0 < length os)
      × ((length os ≡ 1) ⊎ (length os * chunk < length m + chunk))
unfolding fragment chunks
fragment_bounds m f v = elim (Bool-cases (leb (length m) (max f 1))) [
  | inl one ↦ rw one (((ground arith, refl), tt), omega arith, inl refl)
  | inr many ↦
      let pieces = chunks (max f 1) m in
      let w : ℕ = bit_and v 7 in
      let total = u32_of_len (length m) in
      let count : length (outers true total w pieces) ≡ length pieces =
        length-outers true total w pieces in
      let (sizes, few) = chunks_fuel_bounds (length m) (max f 1) m (omega arith) (omega arith) in
      let some_piece : 0 < length pieces =
        pieces_some pieces m (join-chunks (max f 1) m (omega arith)) (ground arith) in
      rw many (carries (max f 1) w true total pieces sizes, omega arith, inr (rw count few))
]
