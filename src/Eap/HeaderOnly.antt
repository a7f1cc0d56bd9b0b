-- ===== src/Eap/HeaderOnly.antt =====
-- crates/teap/src/eap.rs: what `decode` accepts, and the octets behind the header of a packet that
-- carries no type.
use usg_supplicant.Common.{
  ℕ, ◌+◌, ◌*◌, ◌/◌, ◌%◌, ◌≤◌, ◌<◌, Bool, true, false, List, [], ◌∷◌, none, some, ok, err, ◌>>=◌,
  length, ◌≡◌, ap, subst, ◌≢◌, refl, ◌∙◌, arith, le→leb,
}
use usg_supplicant.Common.Bytes.{AreBytes}
use usg_supplicant.Tlv.Error.{truncated_value}
use usg_supplicant.Eap.{
  EapCode, code_from_u8, code_to_u8, carries_type, EapPacket, decode_body, decode, encode,
}

code_to_u8-code_from_u8 : (v : ℕ) → code_to_u8 (code_from_u8 v) ≡ v
unfolding code_from_u8 code_to_u8
code_to_u8-code_from_u8 v = ground arith

-- What a decoded packet is, by whether its code carries a type.
abbrev pub Decoded : Bool → EapPacket → List ℕ → Type 0
Decoded true p bytes = encode p ≡ ok bytes
Decoded false p bytes = (p.type_ ≡ none) × (p.body ≡ [])

decode_short : (bytes : List ℕ) {p : EapPacket} → length bytes < 4 → decode bytes ≢ ok p
unfolding decode
decode_short [] h e = ground arith
decode_short (a ∷ bytes) h e = ground arith

decode_header :
    (c id hi lo : ℕ) (rest : List ℕ) {p : EapPacket}
    → decode (c ∷ id ∷ hi ∷ lo ∷ rest) ≡ ok p
    → (hi * 256 + lo ≡ 4 + length rest)
      × (decode_body (code_from_u8 c) id (hi * 256 + lo) (c ∷ id ∷ hi ∷ lo ∷ rest) ≡ ok p)
unfolding decode
decode_header c id hi lo rest e = ground arith

abbrev typed : EapCode → ℕ → ℕ → List ℕ → EapPacket
typed k id t d = record { code = k; id = id; type_ = some t; body = d }

decode_body-typed :
    (k : EapCode) (c id hi lo t n : ℕ) (d : List ℕ)
    → carries_type k ≡ true
    → decode_body k id n (c ∷ id ∷ hi ∷ lo ∷ t ∷ d) ≡ ok (typed k id t d)
unfolding decode_body
decode_body-typed k c id hi lo t n d h = rw h (ground arith)

decode_body_untyped :
    (k : EapCode) (c id hi lo n : ℕ) (d : List ℕ)
    → carries_type k ≡ false
    → decode_body k id n (c ∷ id ∷ hi ∷ lo ∷ d)
      ≡ ok (record { code = k; id = id; type_ = none; body = [] })
unfolding decode_body
decode_body_untyped k c id hi lo n d h = rw h refl

decode_body_missing :
    (k : EapCode) (c id hi lo n : ℕ) {p : EapPacket}
    → carries_type k ≡ true
    → decode_body k id n (c ∷ id ∷ hi ∷ lo ∷ []) ≢ ok p
unfolding decode_body
decode_body_missing k c id hi lo n h e = ground arith

encode-typed :
    (k : EapCode) (c id hi lo t : ℕ) (d : List ℕ)
    → hi < 256
    → lo < 256
    → code_to_u8 k ≡ c
    → hi * 256 + lo ≡ 5 + length d
    → encode (typed k id t d) ≡ ok (c ∷ id ∷ hi ∷ lo ∷ t ∷ d)
unfolding encode
encode-typed k c id hi lo t d a b e n =
    let m : 4 + 1 + length d ≡ hi * 256 + lo = omega arith in
    let u : (hi * 256 + lo) / 256 % 256 ≡ hi = omega arith in
    let v : (hi * 256 + lo) % 256 ≡ lo = omega arith in
    rw (m, u, v, e, le→leb (hi * 256 + lo) 65535 (omega arith)) refl

body-Decoded :
    (k : EapCode) (c id hi lo : ℕ) (rest : List ℕ) {p : EapPacket} (b : Bool)
    → carries_type k ≡ b
    → hi < 256
    → lo < 256
    → code_to_u8 k ≡ c
    → hi * 256 + lo ≡ 4 + length rest
    → decode_body k id (hi * 256 + lo) (c ∷ id ∷ hi ∷ lo ∷ rest) ≡ ok p
    → Decoded (carries_type p.code) p (c ∷ id ∷ hi ∷ lo ∷ rest)
body-Decoded k c id hi lo [] {p} true h a b e n q =
    absurd (decode_body_missing k c id hi lo (hi * 256 + lo) h q)
body-Decoded k c id hi lo (t ∷ d) {p} true h a b e n q =
    let same : typed k id t d ≡ p = cc (q, decode_body-typed k c id hi lo t (hi * 256 + lo) d h) in
    subst (λ x. Decoded (carries_type x.code) x (c ∷ id ∷ hi ∷ lo ∷ t ∷ d)) same
      (rw h (encode-typed k c id hi lo t d a b e (omega arith)))
body-Decoded k c id hi lo rest {p} false h a b e n q =
    let plain : EapPacket = record { code = k; id = id; type_ = none; body = [] } in
    let same : plain ≡ p = cc (q, decode_body_untyped k c id hi lo (hi * 256 + lo) rest h) in
    subst (λ x. Decoded (carries_type x.code) x (c ∷ id ∷ hi ∷ lo ∷ rest)) same (rw h (refl, refl))

-- Any octets that `decode` accepts are at most 65535. If the packet carries a type (a request or
-- a response), encoding it gives exactly those octets again; otherwise it has no type and no data.
pub decode_sound :
    (bytes : List ℕ) {p : EapPacket}
    → AreBytes bytes
    → decode bytes ≡ ok p
    → (length bytes ≤ 65535) × Decoded (carries_type p.code) p bytes
decode_sound [] h e = absurd (decode_short [] (omega arith) e)
decode_sound (a ∷ []) h e = absurd (decode_short (a ∷ []) (omega arith) e)
decode_sound (a ∷ b ∷ []) h e = absurd (decode_short (a ∷ b ∷ []) (omega arith) e)
decode_sound (a ∷ b ∷ c ∷ []) h e = absurd (decode_short (a ∷ b ∷ c ∷ []) (omega arith) e)
decode_sound (c ∷ id ∷ hi ∷ lo ∷ rest) h e =
    let (n, q) = decode_header c id hi lo rest e in
    (
      omega arith,
      body-Decoded (code_from_u8 c) c id hi lo rest (carries_type (code_from_u8 c)) refl
          (omega arith) (omega arith) (code_to_u8-code_from_u8 c) n q,
    )

decode_at_length :
    (c id hi lo : ℕ) (rest : List ℕ)
    → hi * 256 + lo ≡ 4 + length rest
    → decode (c ∷ id ∷ hi ∷ lo ∷ rest)
      ≡ decode_body (code_from_u8 c) id (hi * 256 + lo) (c ∷ id ∷ hi ∷ lo ∷ rest)
unfolding decode
decode_at_length c id hi lo rest n = ground arith

decode_other_length :
    (c id hi lo : ℕ) (rest : List ℕ)
    → hi * 256 + lo ≢ 4 + length rest
    → decode (c ∷ id ∷ hi ∷ lo ∷ rest) ≡ err (truncated_value 0 (hi * 256 + lo) (4 + length rest))
unfolding decode
decode_other_length c id hi lo rest n = ground arith

encode_untyped :
    (p : EapPacket)
    → p.type_ ≡ none
    → 4 + length p.body ≤ 65535
    → let n = 4 + length p.body in
      encode p ≡ ok (code_to_u8 p.code ∷ p.id ∷ (n / 256 % 256) ∷ (n % 256) ∷ [])
unfolding encode
encode_untyped p t n =
    let m : 4 + 0 + length p.body ≡ 4 + length p.body = omega arith in rw (t, m, le→leb _ _ n) refl

carries_type-code_from_u8 : (c : ℕ) → c ≢ 1 → c ≢ 2 → carries_type (code_from_u8 c) ≡ false
unfolding carries_type code_from_u8
carries_type-code_from_u8 c h k = ground arith

decode_untyped :
    (c id hi lo : ℕ) (rest : List ℕ)
    → c ≢ 1
    → c ≢ 2
    → hi * 256 + lo ≡ 4 + length rest
    → decode (c ∷ id ∷ hi ∷ lo ∷ rest)
      ≡ ok (record { code = code_from_u8 c; id = id; type_ = none; body = [] })
decode_untyped c id hi lo rest h k n =
    decode_at_length c id hi lo rest n
    ∙ decode_body_untyped (code_from_u8 c) c id hi lo (hi * 256 + lo) rest
        (carries_type-code_from_u8 c h k)

-- A packet of any code but 1 and 2 (request and response) is accepted with any octets behind its
-- header, as long as the length field counts them; it is then decoded to the same packet as the
-- bare header of length 4, and that header is all that encoding this packet gives back.
pub decode_untyped_trailing :
    (c id hi lo : ℕ) (junk : List ℕ)
    → c ≢ 1
    → c ≢ 2
    → hi * 256 + lo ≡ 4 + length junk
    → (p : EapPacket) × (decode (c ∷ id ∷ hi ∷ lo ∷ junk) ≡ ok p)
      × (decode (c ∷ id ∷ 0 ∷ 4 ∷ []) ≡ ok p)
      × (encode p ≡ ok (c ∷ id ∷ 0 ∷ 4 ∷ []))
decode_untyped_trailing c id hi lo junk h k n =
    let p : EapPacket = record { code = code_from_u8 c; id = id; type_ = none; body = [] } in
    (
      p,
      decode_untyped c id hi lo junk h k n,
      decode_untyped c id 0 4 [] h k refl,
      encode_untyped p refl (omega arith)
          ∙ ap (λ x. ok (x ∷ id ∷ 0 ∷ 4 ∷ [])) (code_to_u8-code_from_u8 c),
    )

-- A packet with data but no type is encoded with a length field that counts the data, and
-- without the data; so `decode` rejects what `encode` returns.
pub encode_untyped_data :
    (p : EapPacket)
    → p.type_ ≡ none
    → 0 < length p.body
    → 4 + length p.body ≤ 65535
    → (encode p >>= decode) ≡ err (truncated_value 0 (4 + length p.body) 4)
encode_untyped_data p t d n =
    let m : ℕ = 4 + length p.body in
    let e : m / 256 % 256 * 256 + m % 256 ≡ m = omega arith in
    let four : 4 + 0 ≡ 4 = omega arith in
    rw (encode_untyped p t n) (
      rw e at
        (decode_other_length (code_to_u8 p.code) p.id (m / 256 % 256) (m % 256) [] (omega arith)))
