-- ===== src/Outer/Bounds.antt =====
-- crates/teap/src/outer.rs: the bounds of a reassembler.
use usg_supplicant.Common.{
  ℕ, ◌+◌, ◌≤◌, ◌<◌, false, List, [], ◌∷◌, ◌++◌, Option, none, some, Result, ok, length,
  length-append, All, ◌≡◌, refl, ◌⊎◌, inl, inr, arith,
}
use usg_supplicant.Tlv.Error.{TlvError}
use usg_supplicant.Outer.{TeapOuter}
use usg_supplicant.Outer.Reassembler.{
  Reassembler, max_fragments, new, finish_message, append_fragment, push_counted, push,
}

-- The buffered octets are within the limit, and so is a total that was declared.
pub record IsBounded (r : Reassembler) : Type 0 where
  pub buf_fits : length r.buf ≤ r.max_total

pub push-IsBounded : (r : Reassembler) (o : TeapOuter) → IsBounded r → IsBounded (push r o).1
unfolding push push_counted append_fragment finish_message
push-IsBounded r o h = ground (arith, length-append r.buf o.body)

-- A total that was declared is the length of `m`.
abbrev pub FitsTotal : Option ℕ → List ℕ → Type 0
FitsTotal none m = Unit {0}
FitsTotal (some total) m = length m ≡ total

push_declared :
    (r : Reassembler) (o : TeapOuter) (total : ℕ) {m : List ℕ}
    → (push r o).0 ≡ ok (some m)
    → (r.expected_total ≡ some total) ⊎ (o.tls_message_length ≡ some total)
    → length m ≡ total
unfolding push push_counted append_fragment finish_message
push_declared r o total h t = ground arith

fits_total :
    (declared : Option ℕ) (m : List ℕ)
    → ((total : ℕ) → declared ≡ some total → length m ≡ total)
    → FitsTotal declared m
fits_total none m h = tt
fits_total (some total) m h = h total refl

-- If a push completes a message, that is what was buffered and the last fragment, within the limit
-- and of the declared length if one is known from this fragment or an earlier one, and the
-- reassembler is as new.
pub push_completed :
    (r : Reassembler) (o : TeapOuter) {m : List ℕ}
    → (push r o).0 ≡ ok (some m)
    → (m ≡ r.buf ++ o.body)
      × (length m ≤ r.max_total)
      × (o.more_fragments ≡ false)
      × FitsTotal r.expected_total m
      × FitsTotal o.tls_message_length m
      × ((push r o).1 ≡ new r.max_total)
unfolding push push_counted append_fragment finish_message new
push_completed r o {m} h = (
  ground arith,
  ground (arith, length-append r.buf o.body),
  ground arith,
  fits_total r.expected_total m (λ total e. push_declared r o total h (inl e)),
  fits_total o.tls_message_length m (λ total e. push_declared r o total h (inr e)),
  ground arith,
)

pub push_waiting :
    (r : Reassembler) (o : TeapOuter)
    → (push r o).0 ≡ ok none
    → ((push r o).1.fragments ≡ r.fragments + 1)
      × (r.fragments + 1 ≤ max_fragments)
      × ((push r o).1.buf ≡ r.buf ++ o.body)
      × ((push r o).1.max_total ≡ r.max_total)
unfolding push push_counted append_fragment finish_message
push_waiting r o h = (ground arith, ground arith, ground arith, ground arith)

-- The results of pushing fragments one after the other, and the last state.
unfoldable pub pushes :
    Reassembler → List TeapOuter → List (Result TlvError (Option (List ℕ))) × Reassembler
pushes r [] = ([], r)
pushes r (o ∷ os) = let (x, r') = push r o in let (xs, r'') = pushes r' os in (x ∷ xs, r'')

abbrev pub IsWaiting : Result TlvError (Option (List ℕ)) → Type 0
IsWaiting x = x ≡ ok none

pushes_waiting :
    (os : List TeapOuter) (r : Reassembler)
    → r.fragments ≤ max_fragments
    → All IsWaiting (pushes r os).0
    → r.fragments + length os ≤ max_fragments
unfolding pushes
pushes_waiting [] r f h = omega arith
pushes_waiting (o ∷ os) r f (h, hs) =
    let (next, fits, _, _) = push_waiting r o h in
    omega (arith, pushes_waiting os (push r o).1 (omega arith) hs)

-- A peer cannot keep a reassembler waiting: of more than 1024 fragments in a row, pushed into a
-- new reassembler, at least one completes a message or is refused.
pub pushes_end :
    (limit : ℕ) (os : List TeapOuter)
    → max_fragments < length os
    → ¬ All IsWaiting (pushes (new limit) os).0
unfolding new
pushes_end limit os h w = absurd (omega (arith, pushes_waiting os (new limit) (omega arith) w))
