-- ===== src/Tlv/Body/CryptoBindingTlv.antt =====
-- crates/teap/src/tlv/body.rs: the Crypto-Binding TLV. The nonce is the list of its 32 octets.
use usg_supplicant.Common.{
  ℕ, ◌+◌, ◌/◌, ◌%◌, Bool, not, ◌||◌, List, [], ◌∷◌, ◌++◌, Result, ok, ◌>>=◌, ◌>>◌, guard, ok_or,
  unwrap_or, length, is_empty, get_elem?, get_range, get_from, ◌==◌,
}
use usg_supplicant.Tlv.Error.{TlvError, even_at_least, bad_body_length, field_length_mismatch}
use usg_supplicant.Tlv.Raw.{RawTlv, new}
use usg_supplicant.Tlv.TypeId

abbrev pub prefix_len : ℕ
prefix_len = 36

abbrev pub min_len : ℕ
min_len = prefix_len + 2

pub record CryptoBindingTlv : Type 0 where
  pub version : ℕ
  pub received_version : ℕ
  pub sub_type : ℕ
  pub nonce : List ℕ
  pub emsk_compound_mac : List ℕ
  pub msk_compound_mac : List ℕ

abbrev pub bad : ℕ → TlvError
bad actual = bad_body_length TypeId.crypto_binding actual (even_at_least min_len prefix_len)

-- The part of `from_value` behind the fixed fields: the region of the two MACs.
unfoldable pub split_macs : List ℕ → ℕ → Result TlvError (List ℕ × List ℕ)
split_macs macs actual = do
  guard (not (is_empty macs || not (length macs % 2 == 0))) (bad actual)
  let half = length macs / 2
  emsk ← ok_or (get_range 0 half macs) (bad actual)
  msk ← ok_or (get_from half macs) (bad actual)
  ok (emsk, msk)

unfoldable pub from_value : List ℕ → Result TlvError CryptoBindingTlv
from_value body = do
  version ← ok_or (get_elem? body 1) (bad (length body))
  received_version ← ok_or (get_elem? body 2) (bad (length body))
  sub_type ← ok_or (get_elem? body 3) (bad (length body))
  nonce ← ok_or (get_range 4 prefix_len body) (bad (length body))
  guard (length nonce == 32) (bad (length body))
  (emsk, msk) ← split_macs (unwrap_or (get_from prefix_len body) []) (length body)
  ok (record {
    version = version;
    received_version = received_version;
    sub_type = sub_type;
    nonce = nonce;
    emsk_compound_mac = emsk;
    msk_compound_mac = msk;
  })

unfoldable pub to_tlv : CryptoBindingTlv → Bool → Result TlvError RawTlv
to_tlv cb mandatory = do
  guard (length cb.emsk_compound_mac == length cb.msk_compound_mac) (
      field_length_mismatch TypeId.crypto_binding (length cb.emsk_compound_mac)
        (length cb.msk_compound_mac))
  ok (
      new mandatory TypeId.crypto_binding (
        0
        ∷ cb.version
        ∷ cb.received_version
        ∷ cb.sub_type
        ∷ (cb.nonce ++ (cb.emsk_compound_mac ++ cb.msk_compound_mac))))
