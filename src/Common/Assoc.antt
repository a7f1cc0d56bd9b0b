-- ===== src/Common/Assoc.antt =====
-- A map with native numbers for keys, as an association list.
use Prim.Native.Nat.{ℕ}
use mathlib.Core.Path.{◌≡◌}
use mathlib.Core.Logic.{inl, inr}
use mathlib.Core.List.{List, [], ◌∷◌}
use mathlib.Core.Option.{Option, none, some}
use native.Mathlib.Omega.{arith}
use usg_supplicant.Common.Tests.{◌==◌, ==_iff, Bool-cases, if◌then◌else◌}

module _ {A : Type 0} where
  abbrev pub get : ℕ → List (ℕ × A) → Option A
  get k [] = none
  get k ((j, a) ∷ m) = let rest = get k m in if k == j then some a else rest

  abbrev pub remove : ℕ → List (ℕ × A) → List (ℕ × A)
  remove k [] = []
  remove k ((j, a) ∷ m) = let rest = remove k m in if k == j then rest else (j, a) ∷ rest

  abbrev pub insert : ℕ → A → List (ℕ × A) → List (ℕ × A)
  insert k a m = (k, a) ∷ remove k m

  -- A change through `get_mut`.
  abbrev pub put : ℕ → A → List (ℕ × A) → List (ℕ × A)
  put k a [] = []
  put k a ((j, b) ∷ m) = let rest = put k a m in if k == j then (j, a) ∷ m else (j, b) ∷ rest

  pub get-remove :
      (i k : ℕ) (m : List (ℕ × A)) → get i (remove k m) ≡ (if i == k then none else get i m)
  get-remove i k [] = ground arith
  get-remove i k ((j, a) ∷ m) = ground (arith, get-remove i k m)

  pub get-insert :
      (i k : ℕ) (a : A) (m : List (ℕ × A))
      → get i (insert k a m) ≡ (if i == k then some a else get i m)
  get-insert i k a m = ground (arith, get-remove i k m)

  -- Only a key that is there is changed.
  pub get-put :
      (i k : ℕ) (a b : A) (m : List (ℕ × A))
      → get k m ≡ some b
      → get i (put k a m) ≡ (if i == k then some a else get i m)
  get-put i k a b [] h = let no : ⊥ = cc h in elim no [ ]
  get-put i k a b ((j, c) ∷ m) h = elim (Bool-cases (k == j)) [
    | inl e ↦ let same : k ≡ j = omega (arith, (==_iff k j).0 e) in rw (e, same) (ground arith)
    | inr e ↦ rw e (ground (arith, get-put i k a b m (ground arith)))
  ]
