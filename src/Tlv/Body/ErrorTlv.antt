-- ===== src/Tlv/Body/ErrorTlv.antt =====
-- crates/teap/src/tlv/body.rs: the Error TLV, whose body is a code of 32 bits.
use usg_supplicant.Common.{ℕ, Bool, List, Result, ok_or, length, ◌==◌}
use usg_supplicant.Common.Bytes.{u32_be}
use usg_supplicant.Tlv.Error.{TlvError, exact, bad_body_length}
use usg_supplicant.Tlv.Raw.{RawTlv, new}
use usg_supplicant.Tlv.TypeId
use usg_supplicant.Tlv.Body.Fields.{u32_at, keep_if}

unfoldable pub from_value : List ℕ → Result TlvError ℕ
from_value body =
    ok_or (keep_if (length body == 4) (u32_at body 0))
      (bad_body_length TypeId.error (length body) (exact 4))

unfoldable pub to_tlv : ℕ → Bool → RawTlv
to_tlv code mandatory = new mandatory TypeId.error (u32_be code)
