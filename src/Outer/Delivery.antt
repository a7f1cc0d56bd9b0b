-- ===== src/Outer/Delivery.antt =====
-- crates/teap/src/outer.rs: `fragment` and `Reassembler::push` on one message.
use usg_supplicant.Common.{
  ℕ, suc, ◌+◌, ◌-◌, ◌≤◌, ◌<◌, max, bit_and, Bool, true, false, not, List, [], ◌∷◌, ◌++◌, append-nil,
  append_assoc, Option, none, some, Result, ok, length, replicate, is_empty, length-append, inl,
  inr, leb, ltb, ◌≡◌, refl, sym, ap, subst, arith, Bool-cases,
}
use usg_supplicant.Tlv.Error.{TlvError}
use usg_supplicant.Outer.{TeapOuter}
use usg_supplicant.Outer.Reassembler.{
  Reassembler, max_fragments, new, finish_message, append_fragment, push_counted, push,
}
use usg_supplicant.Outer.Fragment.{chunks, piece_outer, outers, u32_of_len, fragment}
use usg_supplicant.Outer.Bounds.{pushes}
use usg_supplicant.Outer.Pieces.{join, join-chunks, length-outers}

-- A reassembler in the middle of a message.
abbrev midway : List ℕ → Option ℕ → ℕ → ℕ → Reassembler
midway buf expected limit count = record {
  buf = buf;
  expected_total = expected;
  max_total = limit;
  fragments = count;
}

-- What is known of the total before a fragment is that of the whole message, or nothing.
abbrev Agrees : Option ℕ → ℕ → Type 0
Agrees none n = Unit {0}
Agrees (some t) n = t ≡ n

-- A fragment as `push` sees it; `piece_outer` is one.
abbrev sent : Bool → Option ℕ → ℕ → List ℕ → TeapOuter
sent more t v p = piece_outer true more t v p

push_last :
    (p buf : List ℕ) (e t : Option ℕ) (limit count v : ℕ)
    → count < max_fragments
    → length buf + length p ≤ limit
    → Agrees e (length buf + length p)
    → Agrees t (length buf + length p)
    → push (midway buf e limit count) (sent false t v p) ≡ (ok (some (buf ++ p)), new limit)
unfolding push push_counted append_fragment finish_message new
push_last p buf none none limit count v c l e t = ground (arith, length-append buf p)
push_last p buf (some x) none limit count v c l e t = ground (arith, length-append buf p)
push_last p buf none (some y) limit count v c l e t = ground (arith, length-append buf p)
push_last p buf (some x) (some y) limit count v c l e t = ground (arith, length-append buf p)

-- The total that is known behind a fragment.
abbrev known : Option ℕ → Option ℕ → Option ℕ
known none e = e
known (some t) e = some t

push_more :
    (p buf : List ℕ) (e t : Option ℕ) (limit count v n : ℕ)
    → count < max_fragments
    → length buf + length p ≤ n
    → n ≤ limit
    → Agrees e n
    → Agrees t n
    → push (midway buf e limit count) (sent true t v p)
      ≡ (ok none, midway (buf ++ p) (known t e) limit (count + 1))
unfolding push push_counted append_fragment
push_more p buf none none limit count v n c l m e t = ground arith
push_more p buf (some x) none limit count v n c l m e t = ground arith
push_more p buf none (some y) limit count v n c l m e t = ground arith
push_more p buf (some x) (some y) limit count v n c l m e t = ground arith

known-Agrees : (t e : Option ℕ) (n : ℕ) → Agrees t n → Agrees e n → Agrees (known t e) n
known-Agrees none e n ht he = he
known-Agrees (some t) e n ht he = ht

-- One result for each fragment: the last one is the message.
abbrev pub delivered : ℕ → List ℕ → List (Result TlvError (Option (List ℕ)))
delivered k m = replicate k (ok none) ++ (ok (some m) ∷ [])

pushes_cons :
    (r r' r'' : Reassembler) (o : TeapOuter) (os : List TeapOuter)
    (x : Result TlvError (Option (List ℕ))) (xs : List (Result TlvError (Option (List ℕ))))
    → push r o ≡ (x, r')
    → pushes r' os ≡ (xs, r'')
    → pushes r (o ∷ os) ≡ (x ∷ xs, r'')
unfolding pushes
pushes_cons r r' r'' o os x xs h hs = rw (h, hs) refl

pushes_nil : (r : Reassembler) → pushes r [] ≡ ([], r)
unfolding pushes
pushes_nil r = refl

-- The fragments that carry the pieces `p ∷ ps`, of which the first carries the length `t`.
abbrev flight : Option ℕ → ℕ → List ℕ → List (List ℕ) → List TeapOuter
flight t v p ps = sent (not (is_empty ps)) t v p ∷ outers false none v ps

pushes-flight :
    (ps : List (List ℕ)) (p buf : List ℕ) (e t : Option ℕ) (limit count v n : ℕ)
    → count + length (p ∷ ps) ≤ max_fragments
    → length buf + length (join (p ∷ ps)) ≡ n
    → n ≤ limit
    → Agrees e n
    → Agrees t n
    → pushes (midway buf e limit count) (flight t v p ps)
      ≡ (delivered (length ps) (buf ++ join (p ∷ ps)), new limit)
unfolding outers
pushes-flight [] p buf e t limit count v n c l m he ht =
    let size : length buf + length p ≡ n = omega (arith, ap length (append-nil p)) in
    let all : p ++ [] ≡ p = append-nil p in
    rw all (
      pushes_cons (midway buf e limit count) (new limit) (new limit) (sent false t v p) [] _ []
        (push_last p buf e t limit count v (omega arith) (omega arith)
          (subst (Agrees e) (sym size) he) (subst (Agrees t) (sym size) ht))
        (pushes_nil (new limit)))
pushes-flight (q ∷ ps) p buf e t limit count v n c l m he ht =
    let size : length (p ++ join (q ∷ ps)) ≡ length p + length (join (q ∷ ps)) =
      length-append p (join (q ∷ ps)) in
    let next = midway (buf ++ p) (known t e) limit (count + 1) in
    pushes_cons (midway buf e limit count) next (new limit) (sent true t v p) (flight none v q ps)
      (ok none) _ (push_more p buf e t limit count v n (omega arith) (omega arith) m he ht)
      (rw (append_assoc buf p (join (q ∷ ps))) at (
        pushes-flight ps q (buf ++ p) (known t e) none limit (count + 1) v n (omega arith)
          (omega (arith, length-append buf p)) m (known-Agrees t e n ht he) tt))

outers_rest :
    (t : Option ℕ) (v : ℕ) (ps : List (List ℕ)) → outers false t v ps ≡ outers false none v ps
unfolding outers
outers_rest t v [] = refl
outers_rest t v (p ∷ ps) = ap (◌∷◌ (sent (not (is_empty ps)) none v p)) (outers_rest t v ps)

outers-flight :
    (t : Option ℕ) (v : ℕ) (p : List ℕ) (ps : List (List ℕ))
    → outers true t v (p ∷ ps) ≡ flight t v p ps
unfolding outers
outers-flight t v p ps = ap (◌∷◌ (sent (not (is_empty ps)) t v p)) (outers_rest t v ps)

u32_of_len-Agrees : (n : ℕ) → Agrees (u32_of_len n) n
u32_of_len-Agrees n = elim (Bool-cases (ltb n 4294967296)) [ inl e ↦ rw e refl | inr e ↦ rw e tt ]

-- The fragments of a message that does not fit one.
pushes-outers :
    (m : List ℕ) (pieces : List (List ℕ)) (limit v : ℕ)
    → 0 < length m
    → join pieces ≡ m
    → length m ≤ limit
    → length pieces ≤ max_fragments
    → pushes (new limit) (outers true (u32_of_len (length m)) v pieces)
      ≡ (delivered (length pieces - 1) m, new limit)
unfolding new
pushes-outers m [] limit v some_octets j l c = absurd (omega (arith, ap length j))
pushes-outers m (p ∷ ps) limit v some_octets j l c =
    let k : suc (length ps) - 1 ≡ length ps = omega arith in
    rw (k, outers-flight (u32_of_len (length m)) v p ps, ← j)
      (pushes-flight ps p [] none (u32_of_len (length (join (p ∷ ps)))) limit 0 v
        (length (join (p ∷ ps))) (omega arith) (omega arith) (omega (arith, ap length j)) tt
        (u32_of_len-Agrees (length (join (p ∷ ps)))))

pushes_single :
    (m : List ℕ) (limit v : ℕ)
    → length m ≤ limit
    → pushes (new limit) (sent false none v m ∷ []) ≡ (delivered 0 m, new limit)
unfolding new outers
pushes_single m limit v l = rw (append-nil m) at (
    pushes-flight [] m [] none none limit 0 v (length m) (omega arith)
      (omega (arith, ap length (append-nil m))) l tt tt)

-- Of the fragments of a message of at most `limit` octets, pushed in order into a new reassembler
-- of that limit, each but the last is acknowledged as incomplete, the last gives the message back,
-- and the reassembler is as new. The message may be of any length and be cut at any size, if it
-- makes at most 1024 fragments.
pub pushes-fragment :
    (m : List ℕ) (max_fragment version limit : ℕ)
    → length m ≤ limit
    → length (fragment m max_fragment version) ≤ max_fragments
    → pushes (new limit) (fragment m max_fragment version)
      ≡ (delivered (length (fragment m max_fragment version) - 1) m, new limit)
unfolding fragment
pushes-fragment m f v limit l c = elim (Bool-cases (leb (length m) (max f 1))) [
  | inl one ↦ rw one (pushes_single m limit (bit_and v 7) l)
  | inr many ↦
      let pieces = chunks (max f 1) m in
      let w : ℕ = bit_and v 7 in
      let long : 0 < length m = ground arith in
      let count : length (outers true (u32_of_len (length m)) w pieces) ≡ length pieces =
        length-outers true (u32_of_len (length m)) w pieces in
      let few : length (outers true (u32_of_len (length m)) w pieces) ≤ max_fragments =
        rw many at c in
      rw (many, count)
        (pushes-outers m pieces limit w long (join-chunks (max f 1) m (omega arith)) l
          (omega arith))
]
