-- ===== src/Tlv/Body/NakTlv.antt =====
-- crates/teap/src/tlv/body.rs: the NAK TLV.
use usg_supplicant.Common.{
  ℕ, Bool, List, [], ◌++◌, Result, ok, ◌>>=◌, ok_or, unwrap_or, length, get_from,
}
use usg_supplicant.Common.Bytes.{u16_be, u32_be}
use usg_supplicant.Tlv.Error.{TlvError, at_least, bad_body_length}
use usg_supplicant.Tlv.Raw.{RawTlv, new, encode_each, parse_all}
use usg_supplicant.Tlv.TypeId
use usg_supplicant.Tlv.Body.Fields.{u16_at, u32_at}

abbrev pub prefix_len : ℕ
prefix_len = 6

pub record NakTlv : Type 0 where
  pub vendor_id : ℕ
  pub nak_type : ℕ
  pub tlvs : List RawTlv

unfoldable pub from_value : List ℕ → Result TlvError NakTlv
from_value body = do
  let bad = bad_body_length TypeId.nak (length body) (at_least prefix_len)
  vendor_id ← ok_or (u32_at body 0) bad
  nak_type ← ok_or (u16_at body 4) bad
  tlvs ← parse_all (unwrap_or (get_from prefix_len body) [])
  ok (record { vendor_id = vendor_id; nak_type = nak_type; tlvs = tlvs })

unfoldable pub to_tlv : NakTlv → Bool → Result TlvError RawTlv
to_tlv n mandatory = do
  value ← encode_each n.tlvs (u32_be n.vendor_id ++ u16_be n.nak_type)
  ok (new mandatory TypeId.nak value)
