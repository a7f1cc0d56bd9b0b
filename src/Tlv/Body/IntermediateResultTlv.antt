-- ===== src/Tlv/Body/IntermediateResultTlv.antt =====
-- crates/teap/src/tlv/body.rs: the Intermediate-Result TLV, a status and enclosed TLVs.
use usg_supplicant.Common.{ℕ, Bool, List, [], Result, ok, ◌>>=◌, ok_or, unwrap_or, length, get_from}
use usg_supplicant.Common.Bytes.{u16_be}
use usg_supplicant.Tlv.Error.{TlvError, at_least, bad_body_length}
use usg_supplicant.Tlv.Raw.{RawTlv, new, encode_each, parse_all}
use usg_supplicant.Tlv.TypeId
use usg_supplicant.Tlv.Body.Fields.{u16_at, ResultStatus, status_from_u16, status_to_u16}

pub record IntermediateResultTlv : Type 0 where
  pub status : ResultStatus
  pub tlvs : List RawTlv

unfoldable pub from_value : List ℕ → Result TlvError IntermediateResultTlv
from_value body = do
  status ←
      ok_or (u16_at body 0) (bad_body_length TypeId.intermediate_result (length body) (at_least 2))
  tlvs ← parse_all (unwrap_or (get_from 2 body) [])
  ok (record { status = status_from_u16 status; tlvs = tlvs })

unfoldable pub to_tlv : IntermediateResultTlv → Bool → Result TlvError RawTlv
to_tlv ir mandatory = do
  value ← encode_each ir.tlvs (u16_be (status_to_u16 ir.status))
  ok (new mandatory TypeId.intermediate_result value)
