-- ===== src/Common/Decimal.antt =====
-- Unsigned numbers of 64 bits in decimal digits: `Display` and `str::parse`.
use usg_supplicant.Common.Tests.{◌==◌, if◌then◌else◌, ltb, leb, le→leb, max_64}
use usg_supplicant.Common.Lines.{is_plain, is_plain-append}
use usg_supplicant.Common.Lists.{is_empty}
use Prim.Native.Nat.{ℕ, zero, suc, ◌+◌, ◌-◌, ◌*◌, ◌/◌, ◌%◌, ◌^◌, ◌≤◌, ◌<◌}
use mathlib.Core.Path.{◌≡◌, refl, sym, ap, subst, ◌∙◌}
use mathlib.Core.Bool.{Bool, true, false, ◌&&◌}
use mathlib.Core.Option.{Option, none, some}
use mathlib.Core.List.{List, [], ◌∷◌, ◌++◌}
use native.Mathlib.Omega.{arith}

-- The last digits, and the others in front of them.
unfoldable pub digits : (fuel : ℕ) → ℕ → List ℕ
digits zero n = []
digits (suc fuel) n =
    let rest = digits fuel (n / 10) in
    if ltb n 10 then (48 + n) ∷ [] else rest ++ (48 + n % 10) ∷ []

-- A number of 64 bits has 20 digits at most.
abbrev pub decimal : ℕ → List ℕ
decimal n = digits 20 n

abbrev is_digit : ℕ → Bool
is_digit c = leb 48 c && leb c 57

-- What `checked_mul` and `checked_add` let pass.
unfoldable pub add_digits : ℕ → List ℕ → Option ℕ
add_digits n [] = some n
add_digits n (c ∷ cs) =
    let next = n * 10 + (c - 48) in
    let rest = add_digits next cs in if is_digit c && leb next max_64 then rest else none

abbrev plus : ℕ
plus = 43

abbrev pub parse_signed : ℕ → List ℕ → Option ℕ
parse_signed c cs =
    if c == plus then (if is_empty cs then none else add_digits 0 cs) else add_digits 0 (c ∷ cs)

abbrev pub parse_u64 : List ℕ → Option ℕ
parse_u64 [] = none
parse_u64 (c ∷ cs) = parse_signed c cs

positive : (fuel n : ℕ) → n < 10 ^ suc fuel → 10 ≤ n → 0 < fuel
positive zero n h k = absurd (omega arith)
positive (suc fuel) n h k = omega arith

add_digits-append :
    (n m : ℕ) (xs : List ℕ) (c : ℕ)
    → add_digits n xs ≡ some m
    → is_digit c ≡ true
    → m * 10 + (c - 48) ≤ max_64
    → add_digits n (xs ++ c ∷ []) ≡ some (m * 10 + (c - 48))
unfolding add_digits
add_digits-append n m [] c e d h =
    let same : n ≡ m = cc e in
    subst (λ x. add_digits x (c ∷ []) ≡ some (m * 10 + (c - 48))) (sym same)
      (rw (d, le→leb (m * 10 + (c - 48)) max_64 h) refl)
add_digits-append n m (x ∷ xs) c e d h =
    at_char (is_digit x && leb (n * 10 + (x - 48)) max_64) e
      (λ f. add_digits-append (n * 10 + (x - 48)) m xs c f d h)
  where
    at_char :
        (b : Bool)
        → (if b then add_digits (n * 10 + (x - 48)) xs else none) ≡ some m
        → (add_digits (n * 10 + (x - 48)) xs ≡ some m
            → add_digits (n * 10 + (x - 48)) (xs ++ c ∷ []) ≡ some (m * 10 + (c - 48)))
        → (if b then add_digits (n * 10 + (x - 48)) (xs ++ c ∷ []) else none)
          ≡ some (m * 10 + (c - 48))
    at_char true e more = more e
    at_char false e more = let no : ⊥ = cc e in elim no [ ]

digit : (n : ℕ) → n < 10 → is_digit (48 + n) ≡ true
digit n h = rw (le→leb 48 (48 + n) (omega arith), le→leb (48 + n) 57 (omega arith)) refl

pow_suc : (fuel n : ℕ) → n < 10 ^ suc fuel → n / 10 < 10 ^ fuel
pow_suc fuel n h = omega arith

add_digits-digits :
    (fuel n : ℕ) → n < 10 ^ fuel → n ≤ max_64 → 0 < fuel → add_digits 0 (digits fuel n) ≡ some n
unfolding digits add_digits
add_digits-digits zero n h k p = absurd (omega arith)
add_digits-digits (suc fuel) n h k p =
    at_size (ltb n 10) refl (add_digits-digits fuel (n / 10) (pow_suc fuel n h) (omega arith))
  where
    at_size :
        (b : Bool)
        → ltb n 10 ≡ b
        → (0 < fuel → add_digits 0 (digits fuel (n / 10)) ≡ some (n / 10))
        → add_digits 0 (if b then (48 + n) ∷ [] else digits fuel (n / 10) ++ (48 + n % 10) ∷ [])
          ≡ some n
    at_size true e more =
        let one : n < 10 = ground arith in
        let same : 0 * 10 + (48 + n - 48) ≡ n = omega arith in
        add_digits-append 0 0 [] (48 + n) refl (digit n one) (omega arith) ∙ ap some same
    at_size false e more =
        let ten : 10 ≤ n = ground arith in
        let same : n / 10 * 10 + (48 + n % 10 - 48) ≡ n = omega arith in
        add_digits-append 0 (n / 10) (digits fuel (n / 10)) (48 + n % 10)
          (more (positive fuel n h ten)) (digit (n % 10) (omega arith)) (omega arith)
        ∙ ap some same

-- The digits begin with one.
front :
    (fuel n : ℕ) (b : Bool)
    → ltb n 10 ≡ b
    → (10 ≤ n → (c : ℕ) × (cs : List ℕ) × (digits fuel (n / 10) ≡ c ∷ cs) × (48 ≤ c))
    → (c : ℕ) × (cs : List ℕ) × ((if b
          then (48 + n) ∷ []
          else digits fuel (n / 10) ++ (48 + n % 10) ∷ [])
        ≡ c ∷ cs)
      × (48 ≤ c)
front fuel n true e more = (48 + n, [], refl, omega arith)
front fuel n false e more =
    let (c, cs, f, k) = more (ground arith) in
    (c, cs ++ (48 + n % 10) ∷ [], ap (λ l. l ++ (48 + n % 10) ∷ []) f, k)

starts :
    (fuel n : ℕ)
    → n < 10 ^ suc fuel
    → (c : ℕ) × (cs : List ℕ) × (digits (suc fuel) n ≡ c ∷ cs) × (48 ≤ c)
unfolding digits
starts zero n h = front zero n (ltb n 10) refl (λ k. absurd (omega arith))
starts (suc fuel) n h =
    front (suc fuel) n (ltb n 10) refl (λ k. starts fuel (n / 10) (pow_suc (suc fuel) n h))

parse_digits :
    (l : List ℕ) (c : ℕ) (cs : List ℕ) → l ≡ c ∷ cs → 48 ≤ c → parse_u64 l ≡ add_digits 0 l
parse_digits l c cs e h =
    let unsigned : (c == plus) ≡ false = ground arith in
    subst (λ x. parse_u64 x ≡ add_digits 0 x) (sym e) (rw unsigned refl)

pub parse_u64-decimal : (n : ℕ) → n ≤ max_64 → parse_u64 (decimal n) ≡ some n
parse_u64-decimal n h =
    let (c, cs, e, k) = starts 19 n (omega arith) in
    parse_digits (decimal n) c cs e k ∙ add_digits-digits 20 n (omega arith) h (omega arith)

digit-plain : (n : ℕ) → is_plain ((48 + n) ∷ []) ≡ true
unfolding is_plain
digit-plain n =
    let a : ((48 + n) == 10) ≡ false = ground arith in
    let b : ((48 + n) == 13) ≡ false = ground arith in rw (a, b) refl

pub digits-plain : (fuel n : ℕ) → is_plain (digits fuel n) ≡ true
unfolding digits is_plain
digits-plain zero n = refl
digits-plain (suc fuel) n = at_size (ltb n 10) (digits-plain fuel (n / 10))
  where
    at_size :
        (b : Bool)
        → is_plain (digits fuel (n / 10)) ≡ true
        → is_plain (if b then (48 + n) ∷ [] else digits fuel (n / 10) ++ (48 + n % 10) ∷ []) ≡ true
    at_size true h = digit-plain n
    at_size false h =
        is_plain-append (digits fuel (n / 10)) ((48 + n % 10) ∷ []) h (digit-plain (n % 10))
