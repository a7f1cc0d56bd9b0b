-- ===== src/Common/Exec.antt =====
-- Methods that change an object and may fail. What was written before a failure stays written, so
-- the state comes back beside the error too.
use mathlib.Core.Path.{◌≡◌, refl}
use usg_supplicant.Common.Results.{Result, ok, err, map_err}

abbrev pub Exec : (E S A : Type 0) → Type 0
Exec E S A = S → Result E A × S

module _ {E S A : Type 0} where
  abbrev pub lift : Result E A → Exec E S A
  lift r s = (r, s)

  abbrev pub pure : A → Exec E S A
  pure a s = (ok a, s)

  abbrev pub fail : E → Exec E S A
  fail reason s = (err reason, s)

abbrev pub modify : {E S : Type 0} → (S → S) → Exec E S (Unit {0})
modify f s = (ok tt, f s)

module _ {E S A B : Type 0} where
  abbrev pub resume : Result E A → (A → Exec E S B) → Exec E S B
  resume (ok a) next s = next a s
  resume (err reason) next s = (err reason, s)

  infixl 5 ◌>>=◌ ◌>>◌
  unfoldable pub ◌>>=◌ : Exec E S A → (A → Exec E S B) → Exec E S B
  ◌>>=◌ first next s = let (r, t) = first s in resume r next t

  abbrev pub ◌>>◌ : Exec E S A → Exec E S B → Exec E S B
  first >> second = first >>= λ _. second

-- What holds of the value and the state where an action returns.
abbrev pub Post : {E S A : Type 0} → (A → S → Type 0) → Result E A × S → Type 0
Post Q (ok a, s) = Q a s
Post Q (err reason, s) = Unit {0}

module _ {E S A B : Type 0} where
  Post-resume :
      (r : Result E A) (s : S) (P : A → S → Type 0) (Q : B → S → Type 0) (next : A → Exec E S B)
      → Post P (r, s)
      → ((a : A) (t : S) → P a t → Post Q (next a t))
      → Post Q (resume r next s)
  Post-resume (ok a) s P Q next p step = step a s p
  Post-resume (err reason) s P Q next p step = tt

  -- The rule for a sequence.
  pub Post-bind :
      (first : Exec E S A) (next : A → Exec E S B) (s : S) (P : A → S → Type 0) (Q : B → S → Type 0)
      → Post P (first s)
      → ((a : A) (t : S) → P a t → Post Q (next a t))
      → Post Q ((first >>= next) s)
  unfolding ◌>>=◌
  Post-bind first next s P Q p step = let (r, t) = first s in Post-resume r t P Q next p step

module _ {E F S A B : Type 0} (Q : B → S → Type 0) (next : A → Exec E S B) (f : F → E) where
  -- The rule for what follows a pure result.
  pub Post-lift :
      (r : Result F A) (s : S)
      → ((a : A) → r ≡ ok a → Post Q (next a s))
      → Post Q ((lift (map_err f r) >>= next) s)
  unfolding ◌>>=◌
  Post-lift (ok a) s h = h a refl
  Post-lift (err e) s h = tt

  -- The rule for what follows a call on a part `T` of the state.
  pub Post-call :
      {T : Type 0} (p : Result F A × T) (put : T → S) (s : S)
      → ((a : A) (t : T) → p ≡ (ok a, t) → Post Q (next a (put t)))
      → Post Q (((λ _. (map_err f p.0, put p.1)) >>= next) s)
  unfolding ◌>>=◌
  Post-call (ok a, t) put s h = h a t refl
  Post-call (err e, t) put s h = tt
