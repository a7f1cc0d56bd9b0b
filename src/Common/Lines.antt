-- ===== src/Common/Lines.antt =====
-- Text: `str::lines`, `str::split_once` and the equality of strings, on characters.
use usg_supplicant.Common.Tests.{◌==◌, if◌then◌else◌}
use Prim.Native.Nat.{ℕ}
use mathlib.Core.Path.{◌≡◌, refl}
use mathlib.Core.Bool.{Bool, true, false, not, ◌&&◌, ◌||◌}
use mathlib.Core.Option.{Option, none, some}
use mathlib.Core.List.{List, [], ◌∷◌, ◌++◌}

abbrev pub newline : ℕ
newline = 10

abbrev pub carriage_return : ℕ
carriage_return = 13

unfoldable pub same : List ℕ → List ℕ → Bool
same [] [] = true
same (c ∷ cs) (d ∷ ds) = c == d && same cs ds
same _ _ = false

abbrev pub at_newline : List ℕ → Bool
at_newline [] = false
at_newline (c ∷ cs) = c == newline

-- A character in front of the lines of what follows it.
abbrev pub onto : ℕ → List (List ℕ) → List (List ℕ)
onto c [] = (c ∷ []) ∷ []
onto c (l ∷ ls) = (c ∷ l) ∷ ls

-- A line ends with a newline, or with a carriage return and a newline.
unfoldable pub lines : List ℕ → List (List ℕ)
lines [] = []
lines (c ∷ cs) =
    let rest = lines cs in
    if c == newline
    then [] ∷ rest
    else if c == carriage_return && at_newline cs
    then rest
    else onto c rest

abbrev pub before : ℕ → Option (List ℕ × List ℕ) → Option (List ℕ × List ℕ)
before c none = none
before c (some (l, r)) = some (c ∷ l, r)

-- At the first separator.
unfoldable pub split_once : (separator : ℕ) → List ℕ → Option (List ℕ × List ℕ)
split_once separator [] = none
split_once separator (c ∷ cs) =
    let rest = split_once separator cs in if c == separator then some ([], cs) else before c rest

-- No line ends in these characters.
unfoldable pub is_plain : List ℕ → Bool
is_plain [] = true
is_plain (c ∷ cs) = not (c == newline || c == carriage_return) && is_plain cs

pub is_plain-append :
    (xs ys : List ℕ) → is_plain xs ≡ true → is_plain ys ≡ true → is_plain (xs ++ ys) ≡ true
unfolding is_plain
is_plain-append [] ys h k = k
is_plain-append (x ∷ xs) ys h k =
    at_char (x == newline || x == carriage_return) h (λ p. is_plain-append xs ys p k)
  where
    at_char :
        (b : Bool)
        → (not b && is_plain xs) ≡ true
        → (is_plain xs ≡ true → is_plain (xs ++ ys) ≡ true)
        → (not b && is_plain (xs ++ ys)) ≡ true
    at_char true h more = h
    at_char false h more = more h

pub lines-plain :
    (l rest : List ℕ) → is_plain l ≡ true → lines (l ++ newline ∷ rest) ≡ l ∷ lines rest
unfolding lines is_plain
lines-plain [] rest h = refl
lines-plain (c ∷ cs) rest h =
    at_char (c == newline) (c == carriage_return) (at_newline (cs ++ newline ∷ rest)) h
      (λ k. lines-plain cs rest k)
  where
    at_char :
        (lf cr b : Bool)
        → (not (lf || cr) && is_plain cs) ≡ true
        → (is_plain cs ≡ true → lines (cs ++ newline ∷ rest) ≡ cs ∷ lines rest)
        → (let ls = lines (cs ++ newline ∷ rest) in
            if lf then [] ∷ ls else if cr && b then ls else onto c ls)
          ≡ (c ∷ cs) ∷ lines rest
    at_char false false b h more = rw (more h) refl
    at_char false true b h more = let no : ⊥ = cc h in elim no [ ]
    at_char true cr b h more = let no : ⊥ = cc h in elim no [ ]
