-- ===== src/Common/Results.antt =====
-- Results with an error of the model's own, and what Rust's `Option` and `Result` methods do.
use mathlib.Core.Path.{◌≡◌, refl}
use mathlib.Core.Bool.{Bool, true, false}
use mathlib.Core.Logic.{◌⊎◌, inl, inr}
use mathlib.Core.Option.{Option, none, some}

pub data Result {ℓ} (E : Type 0) (T : Type ℓ) : Type ℓ where
  ok : (value : T) → Result E T
  err : (reason : E) → Result E T

-- The `?` of the source: go on with the value, or return the error at once.
infixl 5 ◌>>=◌ ◌>>◌
abbrev pub ◌>>=◌ {ℓ κ} :
    {E : Type 0} {T : Type ℓ} {U : Type κ} → Result E T → (T → Result E U) → Result E U
(err reason) >>= next = err reason
(ok value) >>= next = next value

abbrev pub ◌>>◌ {κ} : {E : Type 0} {U : Type κ} → Result E (Unit {0}) → Result E U → Result E U
err reason >> next = err reason
ok tt >> next = next

-- An early return of the error where the test fails.
abbrev pub guard : {E : Type 0} (test : Bool) (reason : E) → Result E (Unit {0})
guard false reason = err reason
guard true reason = ok tt

abbrev pub ok_or {ℓ} : {E : Type 0} {A : Type ℓ} → Option A → E → Result E A
ok_or none e = err e
ok_or (some a) e = ok a

abbrev pub and_then {ℓ κ} : {A : Type ℓ} {B : Type κ} → Option A → (A → Option B) → Option B
and_then none f = none
and_then (some a) f = f a

abbrev pub map_err {ℓ} : {E F : Type 0} {A : Type ℓ} → (E → F) → Result E A → Result F A
map_err f (ok a) = ok a
map_err f (err e) = err (f e)

abbrev pub unwrap_or {ℓ} : {A : Type ℓ} → Option A → A → A
unwrap_or none d = d
unwrap_or (some a) d = a

abbrev pub is_some {ℓ} : {A : Type ℓ} → Option A → Bool
is_some none = false
is_some (some a) = true

pub Result-cases {ℓ} :
    {E : Type 0} {A : Type ℓ} (r : Result E A) → ((a : A) × (r ≡ ok a)) ⊎ ((e : E) × (r ≡ err e))
Result-cases (ok a) = inl (a, refl)
Result-cases (err e) = inr (e, refl)

-- Where a chain returned a value, its first part did, and the rest did on that value.
pub >>=-eq-ok {ℓ κ} :
    {E : Type 0} {T : Type ℓ} {U : Type κ} (start : Result E T) (next : T → Result E U) {u : U}
    → (start >>= next) ≡ ok u
    → (t : T) × (start ≡ ok t) × (next t ≡ ok u)
>>=-eq-ok (err reason) next returned = cc
>>=-eq-ok (ok t) next returned = (t, refl, returned)

pub and_then-eq-some :
    {A B : Type 0} (o : Option A) (f : A → Option B) (b : B)
    → and_then o f ≡ some b
    → (a : A) × (o ≡ some a) × (f a ≡ some b)
and_then-eq-some none f b e = let no : ⊥ = cc e in elim no [ ]
and_then-eq-some (some a) f b e = (a, refl, e)

pub map_err-eq-ok :
    {E G A : Type 0} (f : E → G) (r : Result E A) (a : A) → map_err f r ≡ ok a → r ≡ ok a
map_err-eq-ok f (ok x) a e = cc e
map_err-eq-ok f (err x) a e = let no : ⊥ = cc e in elim no [ ]
