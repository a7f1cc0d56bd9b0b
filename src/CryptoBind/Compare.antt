-- ===== src/CryptoBind/Compare.antt =====
-- crates/teap/src/cryptobind.rs: `ct_eq` and the equality of byte strings.
use usg_supplicant.Common.{
  ℕ, ◌+◌, ◌*◌, ◌/◌, ◌%◌, ◌<◌, bit_or, bit_xor, Bool, true, false, List, [], ◌∷◌, length, ℕ_discrete,
  ◌↔◌, replicate, ◌==◌, if◌then◌else◌, ◌≡◌, refl, ap, arith,
}
use usg_supplicant.Common.Bits.{agree_below, agree_below→eq}
use usg_supplicant.Common.Bytes.{AreBytes}
use usg_supplicant.CryptoBind.{diff_loop, ct_eq, any_nonzero}

abbrev test_bit : Bool → ℕ
test_bit b = if b then 1 else 0

-- Tables over two octets, as one number `256 * x + y`.
xor_table :
    (i : ℕ)
    → i < 65536
    → test_bit (bit_xor (i / 256) (i % 256) == 0) ≡ test_bit (i / 256 == i % 256)
unfolding agree_below
xor_table = agree_below→eq _ _ 65536 refl

xor_small : (i : ℕ) → i < 65536 → bit_xor (i / 256) (i % 256) / 256 ≡ 0
unfolding agree_below
xor_small = agree_below→eq _ (λ i. 0) 65536 refl

or_table :
    (i : ℕ)
    → i < 65536
    → test_bit (bit_or (i / 256) (i % 256) == 0) ≡ test_bit (i / 256 + i % 256 == 0)
unfolding agree_below
or_table = agree_below→eq _ _ 65536 refl

or_small : (i : ℕ) → i < 65536 → bit_or (i / 256) (i % 256) / 256 ≡ 0
unfolding agree_below
or_small = agree_below→eq _ (λ i. 0) 65536 refl

halves :
    (x y : ℕ)
    → x < 256
    → y < 256
    → ((x * 256 + y) / 256 ≡ x) × ((x * 256 + y) % 256 ≡ y) × (x * 256 + y < 65536)
halves x y h k = omega arith

xor_iff : (x y : ℕ) → x < 256 → y < 256 → (bit_xor x y ≡ 0) ↔ (x ≡ y)
xor_iff x y h k =
    let (q, r, s) = halves x y h k in
    let t : test_bit (bit_xor x y == 0) ≡ test_bit (x == y) =
      rw (q, r) at (xor_table (x * 256 + y) s) in
    ground arith

or_iff : (x y : ℕ) → x < 256 → y < 256 → (bit_or x y ≡ 0) ↔ (x + y ≡ 0)
or_iff x y h k =
    let (q, r, s) = halves x y h k in
    let t : test_bit (bit_or x y == 0) ≡ test_bit (x + y == 0) =
      rw (q, r) at (or_table (x * 256 + y) s) in
    ground arith

xor-lt : (x y : ℕ) → x < 256 → y < 256 → bit_xor x y < 256
xor-lt x y h k =
    let (q, r, s) = halves x y h k in
    let t : bit_xor x y / 256 ≡ 0 = rw (q, r) at (xor_small (x * 256 + y) s) in omega arith

or-lt : (x y : ℕ) → x < 256 → y < 256 → bit_or x y < 256
or-lt x y h k =
    let (q, r, s) = halves x y h k in
    let t : bit_or x y / 256 ≡ 0 = rw (q, r) at (or_small (x * 256 + y) s) in omega arith

diff_loop_iff :
    (d : ℕ) (xs ys : List ℕ)
    → d < 256
    → AreBytes xs
    → AreBytes ys
    → length xs ≡ length ys
    → (diff_loop d xs ys ≡ 0) ↔ ((d ≡ 0) × (xs ≡ ys))
unfolding diff_loop
diff_loop_iff d [] [] h hx hy l = (λ e. (e, refl), λ p. p.0)
diff_loop_iff d [] (y ∷ ys) h hx hy l = absurd (omega arith)
diff_loop_iff d (x ∷ xs) [] h hx hy l = absurd (omega arith)
diff_loop_iff d (x ∷ xs) (y ∷ ys) h (bx, hx) (by', hy) l =
    let small : bit_xor x y < 256 = xor-lt x y bx by' in
    let d' : ℕ = bit_or d (bit_xor x y) in
    let (forth, back) =
      diff_loop_iff d' xs ys (or-lt d (bit_xor x y) h small) hx hy (omega arith) in
    let (o, o') = or_iff d (bit_xor x y) h small in
    let (u, u') = xor_iff x y bx by' in
    (
      λ e.
          let (z, same) = forth e in
          let s : d + bit_xor x y ≡ 0 = o z in (omega arith, cc (u (omega arith), same)),
      λ p.
          let head : x ≡ y = cc (p.1) in
          let tail : xs ≡ ys = cc (p.1) in back (o' (omega (arith, u' head, p.0)), tail),
    )

-- On byte strings `ct_eq` answers true exactly when they are equal.
pub ct_eq_iff : (xs ys : List ℕ) → AreBytes xs → AreBytes ys → (ct_eq xs ys ≡ true) ↔ (xs ≡ ys)
unfolding ct_eq
ct_eq_iff xs ys hx hy = elim (ℕ_discrete (length xs) (length ys)) [
  | yes l ↦
      let (forth, back) = diff_loop_iff 0 xs ys (omega arith) hx hy l in
      (
        λ e. (forth (ground arith)).1,
        λ e. let z : diff_loop 0 xs ys ≡ 0 = back (refl, e) in ground arith,
      )
  | no l ↦ (λ e. absurd (ground arith), λ e. absurd (l (ap length e)))
]

-- The test on the EMSK field: all octets are 0.
pub any_nonzero_iff : (xs : List ℕ) → (any_nonzero xs ≡ false) ↔ (xs ≡ replicate (length xs) 0)
unfolding any_nonzero
any_nonzero_iff [] = (λ e. refl, λ e. refl)
any_nonzero_iff (x ∷ xs) =
    let (forth, back) = any_nonzero_iff xs in
    (
      λ e.
          let tail : xs ≡ replicate (length xs) 0 = forth (ground arith) in
          let head : x ≡ 0 = ground arith in cc (head, tail),
      λ e.
          let tail : xs ≡ replicate (length xs) 0 = cc (e) in
          let head : x ≡ 0 = cc (e) in let z : any_nonzero xs ≡ false = back tail in ground arith,
    )
