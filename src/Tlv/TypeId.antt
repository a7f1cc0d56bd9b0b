-- ===== src/Tlv/TypeId.antt =====
-- crates/teap/src/tlv/types.rs: the TLV type numbers, `type_id::X` there.
use usg_supplicant.Common.{ℕ}

abbrev pub authority_id : ℕ
authority_id = 1

abbrev pub identity_type : ℕ
identity_type = 2

abbrev pub result : ℕ
result = 3

abbrev pub nak : ℕ
nak = 4

abbrev pub error : ℕ
error = 5

abbrev pub channel_binding : ℕ
channel_binding = 7

abbrev pub vendor_specific : ℕ
vendor_specific = 9

abbrev pub request_action : ℕ
request_action = 10

abbrev pub eap_payload : ℕ
eap_payload = 11

abbrev pub intermediate_result : ℕ
intermediate_result = 12

abbrev pub pac : ℕ
pac = 13

abbrev pub crypto_binding : ℕ
crypto_binding = 14

abbrev pub trusted_server_root : ℕ
trusted_server_root = 18
