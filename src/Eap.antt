-- ===== src/Eap.antt =====
-- crates/teap/src/eap.rs: the EAP packet, `Code | Identifier | Length(16) | Type | Type-Data`.
pub mod RoundTrip
pub mod HeaderOnly
use usg_supplicant.Common.{
  ℕ, suc, ◌+◌, ◌*◌, Bool, true, false, not, ◌||◌, List, [], ◌∷◌, ◌++◌, Option, none, some, Result,
  ok, err, ◌>>=◌, ◌>>◌, guard, ok_or, and_then, unwrap_or, is_some, length, first, get_range,
  get_from, leb, ltb, ◌==◌, if◌then◌else◌,
}
use usg_supplicant.Common.Bytes.{u16_be}
use usg_supplicant.Tlv.Error.{TlvError, truncated_header, truncated_value, value_too_long}
use usg_supplicant.Tlv.Raw.{array_4}

pub data EapCode : Type 0 where
  request response success failure : EapCode
  unknown : ℕ → EapCode

unfoldable pub code_from_u8 : ℕ → EapCode
code_from_u8 v =
    if v == 1
    then request
    else if v == 2
    then response
    else if v == 3
    then success
    else if v == 4
    then failure
    else unknown v

unfoldable pub code_to_u8 : EapCode → ℕ
code_to_u8 request = 1
code_to_u8 response = 2
code_to_u8 success = 3
code_to_u8 failure = 4
code_to_u8 (unknown v) = v

unfoldable pub carries_type : EapCode → Bool
carries_type request = true
carries_type response = true
carries_type _ = false

abbrev pub eap_header_len : ℕ
eap_header_len = 4

pub record EapPacket : Type 0 where
  pub code : EapCode
  pub id : ℕ
  pub type_ : Option ℕ
  pub body : List ℕ  -- the field `data`

-- The part of `decode` behind the length check. `bytes` is the whole packet.
unfoldable pub decode_body : EapCode → ℕ → ℕ → List ℕ → Result TlvError EapPacket
decode_body code id declared bytes =
    let body = unwrap_or (get_from eap_header_len bytes) [] in
    if carries_type code
    then (do
      type_ ← ok_or (first body) (truncated_value 0 declared (length bytes))
      ok (record {
        code = code;
        id = id;
        type_ = some type_;
        body = unwrap_or (get_from 1 body) [];
      }))
    else ok (record { code = code; id = id; type_ = none; body = [] })

unfoldable pub decode : List ℕ → Result TlvError EapPacket
unfolding decode_body
decode bytes = do
  (code, id, hi, lo) ←
      ok_or (and_then (get_range 0 eap_header_len bytes) array_4)
        (truncated_header 0 (length bytes))
  let declared = hi * 256 + lo
  guard (not (ltb declared eap_header_len || not (declared == length bytes)))
      (truncated_value 0 declared (length bytes))
  decode_body (code_from_u8 code) id declared bytes

-- The type octet and the Type-Data, which are written only where there is a type.
abbrev pub type_data : Option ℕ → List ℕ → List ℕ
type_data none body = []
type_data (some t) body = t ∷ body

abbrev pub type_len : Option ℕ → ℕ
type_len none = 0
type_len (some t) = 1

unfoldable pub encode : EapPacket → Result TlvError (List ℕ)
encode p = do
  let total = eap_header_len + type_len p.type_ + length p.body
  guard (leb total 65535) (value_too_long 0 total)
  ok (code_to_u8 p.code ∷ p.id ∷ (u16_be total ++ type_data p.type_ p.body))
