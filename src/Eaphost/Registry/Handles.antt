-- ===== src/Eaphost/Registry/Handles.antt =====
-- crates/eaphost/src/session_registry.rs: which handles are given out, and what `len` counts.
use usg_supplicant.Common.{
  ℕ, suc, List, [], ◌∷◌, Option, none, some, length, saturating_add, ltb, max_64, if◌then◌else◌,
  ◌==◌, is_some, ◌≡◌, refl, ap, subst, sym, Bool-cases, inl, inr, ◌<◌, ◌≤◌, ◌+◌, ◌⊎◌, arith, ==_iff,
}
use usg_supplicant.Common.Assoc.{get, put, remove, get-remove}
use usg_supplicant.Eaphost.Peer.{TeapStep, PeerSession}
use usg_supplicant.Eaphost.Registry
use usg_supplicant.Eaphost.Registry.{SessionRegistry, new, begin, end, len}
use usg_supplicant.Eaphost.Registry.Refinement.{Op, perform, performed}

module _ {A : Type 0} where
  -- The keys are distinct, not zero and below `n`.
  abbrev AreNumbered : ℕ → List (ℕ × A) → Type 0
  AreNumbered n [] = Unit {0}
  AreNumbered n ((j, a) ∷ m) = (0 < j) × (j < n) × (get j m ≡ none) × AreNumbered n m

  get-AreNumbered : (n i : ℕ) (m : List (ℕ × A)) → n ≤ i → AreNumbered n m → get i m ≡ none
  get-AreNumbered n i [] le h = refl
  get-AreNumbered n i ((j, a) ∷ m) le (pos, lt, free, h) =
      ground (arith, get-AreNumbered n i m le h)

  remove_absent : (k : ℕ) (m : List (ℕ × A)) → get k m ≡ none → remove k m ≡ m
  remove_absent k [] h = refl
  remove_absent k ((j, a) ∷ m) h = ground (arith, remove_absent k m)

  length-remove :
      (n k : ℕ) (m : List (ℕ × A))
      → AreNumbered n m
      → length m ≡ length (remove k m) + (if is_some (get k m) then 1 else 0)
  length-remove n k [] h = refl
  length-remove n k ((j, a) ∷ m) (pos, lt, free, h) = elim (Bool-cases (k == j)) [
    | inl e ↦
        let same : k ≡ j = omega (arith, (==_iff k j).0 e) in
        let gone : remove k m ≡ m = rw same (remove_absent j m free) in rw (e, gone) (omega arith)
    | inr e ↦ let ih = length-remove n k m h in rw e (omega arith)
  ]

  remove-AreNumbered : (n k : ℕ) (m : List (ℕ × A)) → AreNumbered n m → AreNumbered n (remove k m)
  remove-AreNumbered n k [] h = tt
  remove-AreNumbered n k ((j, a) ∷ m) (pos, lt, free, h) = elim (Bool-cases (k == j)) [
    | inl e ↦ rw e (remove-AreNumbered n k m h)
    | inr e ↦ rw e (pos, lt, (let g = get-remove j k m in ground arith), remove-AreNumbered n k m h)
  ]

  put_absent : (i k : ℕ) (b : A) (m : List (ℕ × A)) → get i m ≡ none → get i (put k b m) ≡ none
  put_absent i k b [] h = refl
  put_absent i k b ((j, a) ∷ m) h = ground (arith, put_absent i k b m)

  put-AreNumbered :
      (n k : ℕ) (b : A) (m : List (ℕ × A)) → AreNumbered n m → AreNumbered n (put k b m)
  put-AreNumbered n k b [] h = tt
  put-AreNumbered n k b ((j, a) ∷ m) (pos, lt, free, h) = elim (Bool-cases (k == j)) [
    | inl e ↦ rw e (pos, lt, free, h)
    | inr e ↦ rw e (pos, lt, put_absent j k b m free, put-AreNumbered n k b m h)
  ]

  AreNumbered-suc : (n : ℕ) (m : List (ℕ × A)) → AreNumbered n m → AreNumbered (n + 1) m
  AreNumbered-suc n [] h = tt
  AreNumbered-suc n ((j, a) ∷ m) (pos, lt, free, h) =
      (pos, omega arith, free, AreNumbered-suc n m h)

module _ {D : Type 0} where
  -- As long as the counter is not at its end.
  abbrev IsNumbered : SessionRegistry D → Type 0
  IsNumbered r = (0 < r.next) × ((max_64 ≤ r.next) ⊎ AreNumbered r.next r.sessions)

  begin-IsNumbered :
      (p : PeerSession D) (r : SessionRegistry D) → IsNumbered r → IsNumbered (begin p r).1
  unfolding begin
  begin-IsNumbered p r (pos, inl full) = (omega arith, inl (omega arith))
  begin-IsNumbered p r (pos, inr h) = elim (Bool-cases (ltb r.next max_64)) [
    | inl lt ↦
        let next : saturating_add r.next 1 ≡ r.next + 1 = ground arith in
        let free = get-AreNumbered r.next r.next r.sessions (omega arith) h in
        let gone = remove_absent r.next r.sessions free in
        (
          omega arith,
          inr (
              subst (λ k. AreNumbered k ((r.next, p) ∷ remove r.next r.sessions)) (sym next)
                (pos, omega arith, rw gone free, rw gone (AreNumbered-suc r.next r.sessions h))),
        )
    | inr ge ↦ (omega arith, inl (ground arith))
  ]

  on_session-IsNumbered :
      {X : Type 0} (o : Option (PeerSession D)) (f : PeerSession D → X × PeerSession D) (h : ℕ)
      (r : SessionRegistry D)
      → IsNumbered r
      → IsNumbered (Registry.on_session o f h r).1
  on_session-IsNumbered none f h r inv = inv
  on_session-IsNumbered (some p) f h r (pos, inl full) = (pos, inl full)
  on_session-IsNumbered (some p) f h r (pos, inr num) =
      (pos, inr (put-AreNumbered r.next h (f p).1 r.sessions num))

  end-IsNumbered : (h : ℕ) (r : SessionRegistry D) → IsNumbered r → IsNumbered (end h r).1
  unfolding end
  end-IsNumbered h r (pos, inl full) = (pos, inl full)
  end-IsNumbered h r (pos, inr num) = (pos, inr (remove-AreNumbered r.next h r.sessions num))

  module _ (api : TeapStep D) where
    perform-IsNumbered :
        (op : Op D) (r : SessionRegistry D) → IsNumbered r → IsNumbered (perform api op r).1
    unfolding Registry.process Registry.take_response Registry.fetch_response
    perform-IsNumbered (Op.begin p) r h = begin-IsNumbered p r h
    perform-IsNumbered (Op.process i bytes) r h = on_session-IsNumbered (get i r.sessions) _ i r h
    perform-IsNumbered (Op.take_response i) r h = on_session-IsNumbered (get i r.sessions) _ i r h
    perform-IsNumbered (Op.fetch_response i n) r h =
        on_session-IsNumbered (get i r.sessions) _ i r h
    perform-IsNumbered (Op.result i) r h = h
    perform-IsNumbered (Op.tunnel_established i) r h = h
    perform-IsNumbered (Op.end i) r h = end-IsNumbered i r h

    performed-IsNumbered :
        (ops : List (Op D)) (r : SessionRegistry D)
        → IsNumbered r
        → IsNumbered (performed api ops r).1
    unfolding performed
    performed-IsNumbered [] r h = h
    performed-IsNumbered (op ∷ ops) r h =
        performed-IsNumbered ops (perform api op r).1 (perform-IsNumbered op r h)

    -- After any calls on a new registry, while the counter of handles is below 2^64 - 1: `begin`
    -- returns a handle that is not 0 and that no session has, the session is then found under that
    -- handle, and `len` is one more. `end` takes one from `len` if it reports that the session was
    -- there, and nothing if not.
    pub handles_fresh :
        (ops : List (Op D)) (p : PeerSession D) (h : ℕ)
        → (performed api ops new).1.next < max_64
        → let r = (performed api ops new).1 in
          (0 < (begin p r).0)
          × (get (begin p r).0 r.sessions ≡ none)
          × (get (begin p r).0 (begin p r).1.sessions ≡ some p)
          × (len (begin p r).1 ≡ suc (len r))
          × (len r ≡ len (end h r).1 + (if (end h r).0 then 1 else 0))
    unfolding begin end new
    handles_fresh ops p h below =
        at_end (performed api ops new).1 below (performed-IsNumbered ops new (omega arith, inr tt))
      where
        at_end :
            (r : SessionRegistry D)
            → r.next < max_64
            → IsNumbered r
            → (0 < (begin p r).0)
              × (get (begin p r).0 r.sessions ≡ none)
              × (get (begin p r).0 (begin p r).1.sessions ≡ some p)
              × (len (begin p r).1 ≡ suc (len r))
              × (len r ≡ len (end h r).1 + (if (end h r).0 then 1 else 0))
        at_end r below (pos, inl full) = absurd (omega arith)
        at_end r below (pos, inr num) =
            let free = get-AreNumbered r.next r.next r.sessions (omega arith) num in
            let gone = remove_absent r.next r.sessions free in
            (
              pos,
              free,
              ground arith,
              ap (λ m. suc (length m)) gone,
              length-remove r.next h r.sessions num,
            )
