-- ===== src/Examples/Mutual.antt =====
-- A whole authentication with the inner EAP-TLS method: both TLS clients over toy connections.
use usg_supplicant.Common.{
  ℕ, true, false, List, [], ◌∷◌, ◌++◌, none, some, Result, ok, err, replicate, ◌≡◌, refl,
}
use usg_supplicant.Common.Exec
use usg_supplicant.Tlv.Error.{TlvError}
use usg_supplicant.Tlv.Raw
use usg_supplicant.Tlv.Raw.{RawTlv, encode_all}
use usg_supplicant.Eap
use usg_supplicant.Eap.{EapPacket, EapCode}
use usg_supplicant.Outer
use usg_supplicant.Outer.Reassembler
use usg_supplicant.Outer.Fragment
use usg_supplicant.KeySchedule
use usg_supplicant.KeySchedule.Errors.{KeyScheduleError}
use usg_supplicant.KeySchedule.{
  Cmk, absorb_inner, derive_session_keys, absorbed, imck_block, hkdf_expand, expand_loop,
  KeySchedule,
}
use usg_supplicant.CryptoBind
use usg_supplicant.CryptoBind.Errors.{CryptoBindError}
use usg_supplicant.Tlv.Body.Fields.{ResultStatus}
use usg_supplicant.Tlv.Body.Fields
use usg_supplicant.Tlv.Body.ResultTlv
use usg_supplicant.Tlv.Body.EapPayloadTlv
use usg_supplicant.Tlv.Body.IntermediateResultTlv
use usg_supplicant.Tlv.Body.CryptoBindingTlv
use usg_supplicant.Tlv.Body.CryptoBindingTlv.{CryptoBindingTlv}
use usg_supplicant.Session.Flow
use usg_supplicant.Session.Binding
use usg_supplicant.Session.Machine
use usg_supplicant.Supplicant.Types.{Phase, TeapDriver, DriverError}
use usg_supplicant.Supplicant
use usg_supplicant.Supplicant.Evidence.{Authentic}
use usg_supplicant.Supplicant.Inner
use usg_supplicant.Supplicant.Inner.{EapTlsInner, State, InnerTlsError}
use usg_supplicant.Eaphost.Peer.{SessionKind, AuthResult, new, process, take_response, finish}
use usg_supplicant.Eaphost.Peer.Verdict.{Call, calls, teap_step}
use usg_supplicant.Examples.Base.{toy_mac}
use usg_supplicant.Fips.Client
use usg_supplicant.Fips.Client.{TeapTlsClient}
use usg_supplicant.Fips.Gate.{Approved}
use usg_supplicant.Eaphost.Peer.Approved.{InnerApproved, success-InnerApproved}
use usg_supplicant.Examples.Driver.{cfg}
use usg_supplicant.Examples.Stack.{Wire, toy, libs, wire}

abbrev bytes_of : Result TlvError (List ℕ) → List ℕ
bytes_of (ok bytes) = bytes
bytes_of (err e) = []

abbrev request : (method id : ℕ) → List ℕ → List ℕ
request method id body =
    bytes_of
      (Eap.encode (record { code = EapCode.request; id = id; type_ = some method; body = body }))

abbrev inner_fresh : EapTlsInner (TeapTlsClient Wire)
inner_fresh = record {
  tunnel = record { conn = wire; established = false };
  reasm = record { buf = []; expected_total = none; max_total = 262144; fragments = 0 };
  out_queue = [];
  state = State.handshake;
  started = false;
  max_fragment = 1000;
  last_id = 0;
}

began : Inner.new (Client.connect (ok wire)) 1000 ≡ ok inner_fresh
unfolding Inner.new Client.connect Reassembler.new
began = refl

abbrev Stacked : Type 0
Stacked = TeapDriver (TeapTlsClient Wire) (EapTlsInner (TeapTlsClient Wire))

abbrev driver_of : Result DriverError Stacked → Stacked
driver_of (ok d) = d
driver_of (err e) = record {
  cfg = cfg;
  tunnel = record { conn = wire; established = false };
  inner = none;
  phase = Phase.terminated;
  reasm = Reassembler.new 0;
  out_queue = [];
  session = none;
  pending = none;
  last_id = 0;
  rounds = 0;
}

abbrev fresh : Stacked
fresh = driver_of (Supplicant.Driver.new cfg (Client.connect (ok wire)) inner_fresh)

made : Supplicant.Driver.new cfg (Client.connect (ok wire)) inner_fresh ≡ ok fresh
unfolding Supplicant.Driver.new Client.connect
made = refl

abbrev key_of : Result KeyScheduleError Cmk → Cmk
key_of (ok cmk) = cmk
key_of (err e) = record { as_bytes = [] }

-- The toy connection exports zeros.
abbrev cmk : Cmk
cmk =
    key_of
      (absorb_inner toy_mac (record { s_imck = replicate 40 0; methods = 0 }) (replicate 32 0)).0

abbrev tlv_of : Result TlvError RawTlv → List RawTlv
tlv_of (ok t) = t ∷ []
tlv_of (err e) = []

abbrev binding_of : Result CryptoBindError CryptoBindingTlv → List RawTlv
binding_of (ok cb) = tlv_of (CryptoBindingTlv.to_tlv cb true)
binding_of (err e) = []

abbrev unsealed : CryptoBindingTlv
unsealed = record {
  version = 1;
  received_version = 1;
  sub_type = 1;
  nonce = replicate 32 5;
  emsk_compound_mac = [];
  msk_compound_mac = [];
}

abbrev payload : List ℕ → RawTlv
payload eap = EapPayloadTlv.to_tlv (record { eap = eap }) true

-- The commitment of the inner server, with the results and the binding.
abbrev closing : List RawTlv
closing =
    payload (request 13 3 (0 ∷ 0 ∷ []))
    ∷ ResultTlv.to_tlv ResultStatus.success true
    ∷ (tlv_of
          (IntermediateResultTlv.to_tlv (record { status = ResultStatus.success; tlvs = [] }) true)
        ++ binding_of (CryptoBind.seal toy_mac cmk unsealed))

abbrev sends : ℕ → List RawTlv → List ℕ
sends id tlvs = request 55 id (1 ∷ bytes_of (encode_all tlvs))

-- Both handshakes, the commitment, and the EAP-Success.
abbrev pub packets : List (List ℕ)
packets =
    request 55 1 (0x21 ∷ [])
    ∷ request 55 2 (1 ∷ 22 ∷ [])
    ∷ sends 3 (payload (request 13 1 (0x20 ∷ [])) ∷ [])
    ∷ sends 4 (payload (request 13 2 (0 ∷ 22 ∷ [])) ∷ [])
    ∷ sends 5 closing
    ∷ (3 ∷ 6 ∷ 0 ∷ 4 ∷ [])
    ∷ []

abbrev requests : List (List ℕ) → List Call
requests [] = []
requests (eap ∷ eaps) = Call.process_request eap ∷ requests eaps

abbrev run : List Call
run = requests packets

abbrev msk : List ℕ
msk = replicate 32 144 ++ replicate 32 145

succeeds :
    (calls
      (teap_step (Client.tunnel toy libs) (Inner.process (Client.tunnel toy libs)))
      (new SessionKind.machine fresh)
      run).result
    ≡ some (AuthResult.success msk none)
unfolding calls new process Inner.process Inner.try_process Inner.on_outer Inner.dispatch
    Inner.on_handshake Inner.open_handshake Inner.on_started Inner.after_feed
    Inner.continue_handshake Inner.complete_handshake Inner.on_commitment Inner.push_outer
    Inner.respond_with Inner.send_tls Inner.next_fragment Inner.new Client.export_keying_material
    take_response finish Supplicant.Driver.new Supplicant.Driver.step Supplicant.Driver.on_packet
    Supplicant.Driver.on_request Supplicant.Driver.on_outer Supplicant.Driver.dispatch
    Supplicant.Driver.on_start Supplicant.Driver.on_handshake Supplicant.Driver.after_feed
    Supplicant.Driver.complete_handshake Supplicant.Driver.continue_handshake
    Supplicant.Driver.start_phase2 Supplicant.Driver.take_inner Supplicant.Driver.push_outer
    Supplicant.Driver.count_round Supplicant.Driver.on_phase2 Supplicant.Driver.on_records
    Supplicant.Driver.on_tlvs Supplicant.Driver.on_session_step Supplicant.Driver.protect_tlvs
    Supplicant.Driver.send_tls_message Supplicant.Driver.next_out_fragment
    Supplicant.Driver.respond_with Supplicant.Driver.on_success Supplicant.Driver.take_pending
    Exec.◌>>=◌ Eap.decode Eap.decode_body Eap.code_from_u8 Eap.code_to_u8 Eap.carries_type
    Eap.encode Outer.parse Outer.parse_length Outer.build Outer.flags_of Outer.is_ack Outer.ack
    Reassembler.new Reassembler.push Reassembler.push_counted Reassembler.append_fragment
    Reassembler.finish_message Fragment.fragment Fragment.chunks Fragment.chunks_fuel
    Fragment.outers KeySchedule.new Flow.new Machine.step Machine.stages Machine.identity_stage
    Machine.payload_stage Machine.intermediate_stage Machine.result_stage Machine.answer_of
    Machine.handle_result Machine.export_keys Machine.conclude Machine.issued_mat Machine.find_mat
    Machine.find_mat_in Binding.handle_inner_success Binding.after_absorb Binding.absorb_once
    Binding.located Binding.find_crypto_binding Binding.check_binding Binding.verify_binding
    Binding.seal_response Binding.emit_response Binding.binding_response Flow.any_malformed
    Flow.of_type Flow.find ResultTlv.from_value ResultTlv.to_tlv EapPayloadTlv.to_tlv
    EapPayloadTlv.from_value IntermediateResultTlv.from_value IntermediateResultTlv.to_tlv
    CryptoBindingTlv.from_value CryptoBindingTlv.to_tlv CryptoBindingTlv.split_macs Fields.u16_at
    Fields.u32_at Fields.status_to_u16 Fields.status_from_u16 absorb_inner derive_session_keys
    absorbed imck_block hkdf_expand expand_loop CryptoBind.verify CryptoBind.seal
    CryptoBind.compute_msk_compound_mac CryptoBind.mac_input CryptoBind.ct_eq CryptoBind.diff_loop
    CryptoBind.any_nonzero Raw.encode_each Raw.encode_all Raw.encode_into Raw.encode Raw.parse_all
    Raw.parse_loop Raw.next_tlv Raw.next_value Client.connect Client.tunnel Client.finish_handshake
    Client.enforce_fips_parameters Client.negotiated_mac Client.session_key_seed Client.unprotect
    Client.drain Client.read_out Client.protect Client.feed_incoming Client.feed
    Client.take_outgoing Client.write_out Client.require_established
succeeds = refl

success-InnerApproved_example :
    (emsk : List ℕ) × (a : Authentic
      (Client.tunnel toy libs)
      (Inner.process (Client.tunnel toy libs))
      fresh.tunnel
      inner_fresh
      msk
      emsk)
    × Approved toy libs a.handshake.mac
    × InnerApproved toy libs a.imsk
success-InnerApproved_example =
    success-InnerApproved toy libs cfg (ok wire) (ok wire) 1000 inner_fresh SessionKind.machine
      fresh run msk none began made succeeds
