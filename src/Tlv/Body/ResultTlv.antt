-- ===== src/Tlv/Body/ResultTlv.antt =====
-- crates/teap/src/tlv/body.rs: the Result TLV, whose body is a status.
use usg_supplicant.Common.{ℕ, Bool, List, Result, ok, ◌>>=◌, ok_or, length, ◌==◌}
use usg_supplicant.Common.Bytes.{u16_be}
use usg_supplicant.Tlv.Error.{TlvError, exact, bad_body_length}
use usg_supplicant.Tlv.Raw.{RawTlv, new}
use usg_supplicant.Tlv.TypeId
use usg_supplicant.Tlv.Body.Fields.{u16_at, keep_if, ResultStatus, status_from_u16, status_to_u16}

unfoldable pub from_value : List ℕ → Result TlvError ResultStatus
from_value body = do
  v ←
      ok_or (keep_if (length body == 2) (u16_at body 0))
        (bad_body_length TypeId.result (length body) (exact 2))
  ok (status_from_u16 v)

unfoldable pub to_tlv : ResultStatus → Bool → RawTlv
to_tlv status mandatory = new mandatory TypeId.result (u16_be (status_to_u16 status))
