-- ===== src/Tlv/Body/IdentityType.antt =====
-- crates/teap/src/tlv/body.rs: the Identity-Type TLV.
use usg_supplicant.Common.{ℕ, Bool, List, Result, ok, ◌>>=◌, ok_or, length, ◌==◌, if◌then◌else◌}
use usg_supplicant.Common.Bytes.{u16_be}
use usg_supplicant.Tlv.Error.{TlvError, exact, bad_body_length}
use usg_supplicant.Tlv.Raw.{RawTlv, new}
use usg_supplicant.Tlv.TypeId
use usg_supplicant.Tlv.Body.Fields.{u16_at, keep_if}

pub data IdentityType : Type 0 where
  user machine : IdentityType
  unknown : ℕ → IdentityType

unfoldable pub from_value : List ℕ → Result TlvError IdentityType
from_value body = do
  v ←
      ok_or (keep_if (length body == 2) (u16_at body 0))
        (bad_body_length TypeId.identity_type (length body) (exact 2))
  ok (if v == 1 then user else if v == 2 then machine else unknown v)

abbrev number : IdentityType → ℕ
number user = 1
number machine = 2
number (unknown v) = v

unfoldable pub to_tlv : IdentityType → Bool → RawTlv
to_tlv it mandatory = new mandatory TypeId.identity_type (u16_be (number it))
