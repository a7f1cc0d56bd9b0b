-- ===== src/Examples/Driver.antt =====
-- A whole authentication over a toy tunnel whose records are the plain octets.
use mathlib.Core.WellFounded.{Acc}
use usg_supplicant.Common.{
  ℕ, Bool, true, false, List, [], ◌∷◌, none, some, Result, ok, err, replicate, ◌≡◌, refl,
}
use usg_supplicant.Common.Exec
use usg_supplicant.Fips.{Tunnel}
use usg_supplicant.Tlv.Error.{TlvError}
use usg_supplicant.Tlv.Raw
use usg_supplicant.Tlv.Raw.{encode_all}
use usg_supplicant.Eap
use usg_supplicant.Eap.{EapPacket, EapCode}
use usg_supplicant.Outer
use usg_supplicant.Outer.Reassembler
use usg_supplicant.Outer.Fragment
use usg_supplicant.KeySchedule
use usg_supplicant.KeySchedule.{
  absorb_inner, derive_session_keys, absorbed, imck_block, hkdf_expand, expand_loop, KeySchedule,
}
use usg_supplicant.CryptoBind
use usg_supplicant.Tlv.Body.Fields
use usg_supplicant.Tlv.Body.ResultTlv
use usg_supplicant.Tlv.Body.EapPayloadTlv
use usg_supplicant.Tlv.Body.IntermediateResultTlv
use usg_supplicant.Tlv.Body.CryptoBindingTlv
use usg_supplicant.Session.Types.{Identity}
use usg_supplicant.Session.Flow
use usg_supplicant.Session.Binding
use usg_supplicant.Session.Machine
use usg_supplicant.Supplicant.Types.{DriverConfig, TeapDriver, DriverError}
use usg_supplicant.Supplicant.Driver
use usg_supplicant.Supplicant.Ends.{Responds, Acc-Responds}
use usg_supplicant.Eaphost.Peer.{SessionKind, AuthResult, new, process, take_response, finish}
use usg_supplicant.Eaphost.Peer.Verdict.{Call, calls, teap_step}
use usg_supplicant.Examples.Base.{toy_mac}
use usg_supplicant.Examples.Conversation

-- The state says whether the handshake is under way.
abbrev pub tunnel : Tunnel Bool
tunnel = record {
  take_outgoing = λ t. (ok (22 ∷ []), t);
  feed_incoming = λ bytes t. (ok tt, false);
  is_handshaking = λ t. t;
  finish_handshake = λ t. (ok tt, t);
  protect = λ bytes t. (ok bytes, t);
  unprotect = λ bytes t. (ok bytes, t);
  session_key_seed = λ t. ok (replicate 40 0);
  export_keying_material = λ label n t. ok (replicate n 0);
  negotiated_mac = λ t. ok toy_mac;
}

abbrev pub cfg : DriverConfig
cfg = record {
  identity = Identity.machine;
  server_name = 110 ∷ [];
  mat_vendor_id = 311;
  mat_to_present = none;
  max_fragment = 1000;
}

abbrev pub bytes_of : Result TlvError (List ℕ) → List ℕ
bytes_of (ok bytes) = bytes
bytes_of (err e) = []

abbrev request : ℕ → List ℕ → List ℕ
request id body =
    bytes_of (Eap.encode (record { code = EapCode.request; id = id; type_ = some 55; body = body }))

abbrev driver_of : Result DriverError (TeapDriver Bool (Unit {0})) → TeapDriver Bool (Unit {0})
driver_of (ok d) = d
driver_of (err e) = record {
  cfg = cfg;
  tunnel = false;
  inner = none;
  phase = usg_supplicant.Supplicant.Types.Phase.terminated;
  reasm = Reassembler.new 0;
  out_queue = [];
  session = none;
  pending = none;
  last_id = 0;
  rounds = 0;
}

abbrev fresh : TeapDriver Bool (Unit {0})
fresh = driver_of (Driver.new cfg (ok true) tt)

made : Driver.new cfg (ok true) tt ≡ ok fresh
unfolding Driver.new
made = refl

-- Start, the server's flight, the message with everything in it, and the EAP-Success.
abbrev pub run : List Call
run =
    Call.process_request (request 1 (0x21 ∷ []))
    ∷ Call.get_response
    ∷ Call.process_request (request 2 (1 ∷ 22 ∷ []))
    ∷ Call.get_response
    ∷ Call.process_request (request 3 (1 ∷ bytes_of (encode_all Conversation.everything)))
    ∷ Call.get_response
    ∷ Call.process_request (3 ∷ 4 ∷ 0 ∷ 4 ∷ [])
    ∷ []

succeeds :
    (calls (teap_step tunnel Conversation.process) (new SessionKind.machine fresh) run).result
    ≡ some (AuthResult.success Conversation.msk none)
unfolding calls new process take_response finish Driver.new Driver.step Driver.on_packet
    Driver.on_request Driver.on_outer Driver.dispatch Driver.on_start Driver.on_handshake
    Driver.after_feed Driver.complete_handshake Driver.continue_handshake Driver.start_phase2
    Driver.take_inner Driver.push_outer Driver.count_round Driver.on_phase2 Driver.on_records
    Driver.on_tlvs Driver.on_session_step Driver.protect_tlvs Driver.send_tls_message
    Driver.next_out_fragment Driver.respond_with Driver.on_success Driver.take_pending Exec.◌>>=◌
    Eap.decode Eap.decode_body Eap.code_from_u8 Eap.code_to_u8 Eap.carries_type Eap.encode
    Outer.parse Outer.parse_length Outer.build Outer.flags_of Outer.is_ack Outer.ack Reassembler.new
    Reassembler.push Reassembler.push_counted Reassembler.append_fragment Reassembler.finish_message
    Fragment.fragment Fragment.chunks Fragment.chunks_fuel Fragment.outers KeySchedule.new Flow.new
    Machine.step Machine.stages Machine.identity_stage Machine.payload_stage
    Machine.intermediate_stage Machine.result_stage Machine.answer_of Machine.handle_result
    Machine.export_keys Machine.conclude Machine.issued_mat Machine.find_mat Machine.find_mat_in
    Binding.handle_inner_success Binding.after_absorb Binding.absorb_once Binding.located
    Binding.find_crypto_binding Binding.check_binding Binding.verify_binding Binding.seal_response
    Binding.emit_response Binding.binding_response Flow.any_malformed Flow.of_type Flow.find
    ResultTlv.from_value ResultTlv.to_tlv EapPayloadTlv.to_tlv EapPayloadTlv.from_value
    IntermediateResultTlv.from_value IntermediateResultTlv.to_tlv CryptoBindingTlv.from_value
    CryptoBindingTlv.to_tlv CryptoBindingTlv.split_macs Fields.u16_at Fields.u32_at
    Fields.status_to_u16 Fields.status_from_u16 absorb_inner derive_session_keys absorbed imck_block
    hkdf_expand expand_loop CryptoBind.verify CryptoBind.seal CryptoBind.compute_msk_compound_mac
    CryptoBind.mac_input CryptoBind.ct_eq CryptoBind.diff_loop CryptoBind.any_nonzero
    Raw.encode_each Raw.encode_all Raw.encode_into Raw.encode Raw.parse_all Raw.parse_loop
    Raw.next_tlv Raw.next_value
succeeds = refl

Acc-Responds_example : Acc (Responds tunnel Conversation.process) fresh
Acc-Responds_example = Acc-Responds tunnel Conversation.process fresh
