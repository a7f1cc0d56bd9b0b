-- ===== src/Tlv/Body/VendorSpecificTlv.antt =====
-- crates/teap/src/tlv/body.rs: the Vendor-Specific TLV, which carries the MAT.
use usg_supplicant.Common.{
  ℕ, Bool, List, [], ◌++◌, Result, ok, ◌>>=◌, ok_or, unwrap_or, length, get_from,
}
use usg_supplicant.Common.Bytes.{u32_be}
use usg_supplicant.Tlv.Error.{TlvError, at_least, bad_body_length}
use usg_supplicant.Tlv.Raw.{RawTlv, new}
use usg_supplicant.Tlv.TypeId
use usg_supplicant.Tlv.Body.Fields.{u32_at}

abbrev pub prefix_len : ℕ
prefix_len = 4

pub record VendorSpecificTlv : Type 0 where
  pub vendor_id : ℕ
  pub body : List ℕ  -- the field `data`

unfoldable pub from_value : List ℕ → Result TlvError VendorSpecificTlv
from_value body = do
  vendor_id ←
      ok_or (u32_at body 0)
        (bad_body_length TypeId.vendor_specific (length body) (at_least prefix_len))
  ok (record { vendor_id = vendor_id; body = unwrap_or (get_from prefix_len body) [] })

unfoldable pub to_tlv : VendorSpecificTlv → Bool → RawTlv
to_tlv vs mandatory = new mandatory TypeId.vendor_specific (u32_be vs.vendor_id ++ vs.body)
