-- ===== src/Tlv/Body/EapPayloadTlv.antt =====
-- crates/teap/src/tlv/body.rs: the EAP-Payload TLV, an opaque inner EAP packet.
use usg_supplicant.Common.{ℕ, Bool, List}
use usg_supplicant.Tlv.Raw.{RawTlv, new}
use usg_supplicant.Tlv.TypeId

pub record EapPayloadTlv : Type 0 where
  pub eap : List ℕ

unfoldable pub from_value : List ℕ → EapPayloadTlv
from_value body = record { eap = body }

unfoldable pub to_tlv : EapPayloadTlv → Bool → RawTlv
to_tlv p mandatory = new mandatory TypeId.eap_payload p.eap
