-- ===== src/Eap/RoundTrip.antt =====
-- crates/teap/src/eap.rs: `decode` on what `encode` writes.
use usg_supplicant.Common.{
  ℕ, ◌+◌, ◌/◌, ◌%◌, ◌≤◌, ◌<◌, List, [], ◌∷◌, Option, none, some, ok, ◌>>=◌, length, ◌≡◌, ◌≢◌, ◌⊎◌,
  refl, ◌∙◌, arith, le→leb,
}
use usg_supplicant.Eap.{
  EapCode, request, response, success, failure, unknown, code_from_u8, code_to_u8, carries_type,
  EapPacket, decode_body, decode, encode, type_data, type_len,
}

-- A packet whose fields say what its code needs: a type for a request or a response, and neither
-- a type nor data for the others. An `unknown` code is none of the four.
abbrev pub IsCoherent : EapCode → Option ℕ → List ℕ → Type 0
IsCoherent request t d = t ≢ none
IsCoherent response t d = t ≢ none
IsCoherent success t d = (t ≡ none) × (d ≡ [])
IsCoherent failure t d = (t ≡ none) × (d ≡ [])
IsCoherent (unknown v) t d = (t ≡ none) × (d ≡ []) × ((v ≡ 0) ⊎ (4 < v))

code_round_trip :
    (c : EapCode) (t : Option ℕ) (d : List ℕ) → IsCoherent c t d → code_from_u8 (code_to_u8 c) ≡ c
unfolding code_from_u8 code_to_u8
code_round_trip request t d h = refl
code_round_trip response t d h = refl
code_round_trip success t d h = refl
code_round_trip failure t d h = refl
code_round_trip (unknown v) t d h = ground arith

-- The header with a length that is right.
decode_lem :
    (c id : ℕ) (rest : List ℕ)
    → 4 + length rest ≤ 65535
    → let n = 4 + length rest in
      decode (c ∷ id ∷ (n / 256 % 256) ∷ (n % 256) ∷ rest)
      ≡ decode_body (code_from_u8 c) id n (c ∷ id ∷ (n / 256 % 256) ∷ (n % 256) ∷ rest)
unfolding decode
decode_lem c id rest h = ground arith

-- What `encode` writes is what `decode_lem` reads, once the length is that of the octets.
encode-decode_body :
    (p : EapPacket)
    → length (type_data p.type_ p.body) ≡ type_len p.type_ + length p.body
    → 4 + type_len p.type_ + length p.body ≤ 65535
    → let rest = type_data p.type_ p.body in
      let n = 4 + length rest in
      (encode p >>= decode)
      ≡ decode_body
          (code_from_u8 (code_to_u8 p.code))
          p.id
          n
          (code_to_u8 p.code ∷ p.id ∷ (n / 256 % 256) ∷ (n % 256) ∷ rest)
unfolding encode
encode-decode_body p l fits =
    let e : 4 + type_len p.type_ + length p.body ≡ 4 + length (type_data p.type_ p.body) =
      omega arith in
    rw (le→leb _ _ fits, e)
      (decode_lem (code_to_u8 p.code) p.id (type_data p.type_ p.body) (omega arith))

coherent_length :
    (c : EapCode) (t : Option ℕ) (d : List ℕ)
    → IsCoherent c t d
    → length (type_data t d) ≡ type_len t + length d
coherent_length request none d h = absurd (h refl)
coherent_length response none d h = absurd (h refl)
coherent_length success none d h = rw (h.1) refl
coherent_length failure none d h = rw (h.1) refl
coherent_length (unknown v) none d h = rw (h.1) refl
coherent_length c (some t) d h = omega arith

decode_body_lem :
    (c : EapCode) (id n a b e f : ℕ) (t : Option ℕ) (d : List ℕ)
    → IsCoherent c t d
    → decode_body c id n (a ∷ b ∷ e ∷ f ∷ type_data t d)
      ≡ ok (record { code = c; id = id; type_ = t; body = d })
unfolding decode_body carries_type
decode_body_lem request id n a b e f none d h = absurd (h refl)
decode_body_lem response id n a b e f none d h = absurd (h refl)
decode_body_lem request id n a b e f (some t) d h = ground arith
decode_body_lem response id n a b e f (some t) d h = ground arith
decode_body_lem success id n a b e f t d h = ground arith
decode_body_lem failure id n a b e f t d h = ground arith
decode_body_lem (unknown v) id n a b e f t d h = ground arith

-- A packet whose type and data suit its code, and whose length fits 16 bits, is encoded, and
-- `decode` reads the same packet back.
pub decode-encode :
    (p : EapPacket)
    → IsCoherent p.code p.type_ p.body
    → 4 + type_len p.type_ + length p.body ≤ 65535
    → (encode p >>= decode) ≡ ok p
decode-encode p h fits =
    encode-decode_body p (coherent_length p.code p.type_ p.body h) fits
    ∙ rw (code_round_trip p.code p.type_ p.body h) (
        decode_body_lem p.code p.id (4 + length (type_data p.type_ p.body)) (code_to_u8 p.code) p.id
          _ _ p.type_ p.body h)
