-- ===== src/Tlv/Error.antt =====
-- crates/teap/src/tlv/error.rs: the errors of the codec.
use usg_supplicant.Common.{ℕ}

-- The length requirement that a typed body failed to meet.
pub data LenReq : Type 0 where
  exact : ℕ → LenReq
  at_least : ℕ → LenReq
  even_at_least : (min base : ℕ) → LenReq

pub data TlvError : Type 0 where
  truncated_header : (offset available : ℕ) → TlvError
  truncated_value : (tlv_type declared available : ℕ) → TlvError
  reserved_type : TlvError
  bad_body_length : (tlv_type actual : ℕ) → LenReq → TlvError
  value_too_long : (tlv_type len : ℕ) → TlvError
  type_out_of_range : (tlv_type : ℕ) → TlvError
  field_length_mismatch : (tlv_type a b : ℕ) → TlvError
  too_many_tlvs : (limit : ℕ) → TlvError
