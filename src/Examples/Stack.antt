-- ===== src/Examples/Stack.antt =====
-- The same authentication with the TLS client, over a toy connection.
use usg_supplicant.Common.{
  ℕ, Bool, true, false, List, [], ◌∷◌, none, some, Result, ok, err, replicate, ◌≡◌, refl,
}
use usg_supplicant.Common.Exec
use usg_supplicant.Tlv.Raw
use usg_supplicant.Tlv.Raw.{encode_all}
use usg_supplicant.Eap
use usg_supplicant.Eap.{EapPacket, EapCode}
use usg_supplicant.Outer
use usg_supplicant.Outer.Reassembler
use usg_supplicant.Outer.Fragment
use usg_supplicant.KeySchedule
use usg_supplicant.KeySchedule.{
  absorb_inner, derive_session_keys, absorbed, imck_block, hkdf_expand, expand_loop, KeySchedule,
}
use usg_supplicant.CryptoBind
use usg_supplicant.Tlv.Body.Fields
use usg_supplicant.Tlv.Body.ResultTlv
use usg_supplicant.Tlv.Body.EapPayloadTlv
use usg_supplicant.Tlv.Body.IntermediateResultTlv
use usg_supplicant.Tlv.Body.CryptoBindingTlv
use usg_supplicant.Session.Flow
use usg_supplicant.Session.Binding
use usg_supplicant.Session.Machine
use usg_supplicant.Supplicant.Types.{Phase, TeapDriver, DriverError}
use usg_supplicant.Supplicant
use usg_supplicant.Supplicant.Evidence.{Authentic}
use usg_supplicant.Eaphost.Peer.{SessionKind, AuthResult, new, process, take_response, finish}
use usg_supplicant.Eaphost.Peer.Verdict.{calls, teap_step}
use usg_supplicant.Examples.Base.{toy_mac}
use usg_supplicant.Examples.Conversation
use usg_supplicant.Common.{length, ◌++◌, ◌⊎◌}
use usg_supplicant.Fips.Client
use usg_supplicant.Fips.Client.{Connection, Library, ReadError, TeapTlsClient}
use usg_supplicant.Fips.Gate.{Approved}
use usg_supplicant.Fips.Secrets.{AreRefused, Passed, Method, applied, secrets_gated}
use usg_supplicant.Eaphost.Peer.Approved.{success-Approved}
use usg_supplicant.Examples.Driver

-- The octets that wait to be sent, and those that were opened.
pub record Wire : Type 0 where
  handshaking : Bool
  out : List ℕ
  plain : List ℕ

abbrev fed : Bool → List ℕ → Wire → Wire
fed true bytes w = record w { handshaking = false }
fed false bytes w = record w { plain = w.plain ++ bytes }

abbrev read_all : List ℕ → Wire → Result ReadError (List ℕ) × Wire
read_all [] w = (err ReadError.would_block, w)
read_all (x ∷ xs) w = (ok (x ∷ xs), record w { plain = [] })

abbrev pub toy : Connection Wire
toy = record {
  is_handshaking = λ w. w.handshaking;
  queued = λ w. length w.out;
  write_tls = λ w. (ok w.out, record w { out = [] });
  read_tls = λ bytes w. (ok (length bytes), fed w.handshaking bytes w);
  process_new_packets = λ w. (ok tt, w);
  write_all = λ bytes w. (ok tt, record w { out = w.out ++ bytes });
  buffered = λ w. length w.plain;
  read = λ n w. read_all w.plain w;
  export_keying_material = λ label n w. ok (replicate n 0);
  protocol_version = λ w. some 0x0304;
  negotiated_cipher_suite = λ w. some 0x1302;
  negotiated_key_exchange_group = λ w. some 0x0202;
}

abbrev pub libs : Library
libs = record { enforce_fips_parameters = λ version suite group. ok tt; sha384 = toy_mac }

abbrev pub wire : Wire
wire = record { handshaking = true; out = 22 ∷ []; plain = [] }

abbrev client : TeapTlsClient Wire
client = record { conn = wire; established = false }

abbrev Stacked : Type 0
Stacked = TeapDriver (TeapTlsClient Wire) (Unit {0})

abbrev driver_of : Result DriverError Stacked → Stacked
driver_of (ok d) = d
driver_of (err e) = record {
  cfg = Driver.cfg;
  tunnel = client;
  inner = none;
  phase = Phase.terminated;
  reasm = Reassembler.new 0;
  out_queue = [];
  session = none;
  pending = none;
  last_id = 0;
  rounds = 0;
}

abbrev fresh : Stacked
fresh = driver_of (Supplicant.Driver.new Driver.cfg (Client.connect (ok wire)) tt)

made : Supplicant.Driver.new Driver.cfg (Client.connect (ok wire)) tt ≡ ok fresh
unfolding Supplicant.Driver.new Client.connect
made = refl

succeeds :
    (calls
      (teap_step (Client.tunnel toy libs) Conversation.process)
      (new SessionKind.machine fresh)
      Driver.run).result
    ≡ some (AuthResult.success Conversation.msk none)
unfolding calls new process take_response finish Supplicant.Driver.new Supplicant.Driver.step
    Supplicant.Driver.on_packet Supplicant.Driver.on_request Supplicant.Driver.on_outer
    Supplicant.Driver.dispatch Supplicant.Driver.on_start Supplicant.Driver.on_handshake
    Supplicant.Driver.after_feed Supplicant.Driver.complete_handshake
    Supplicant.Driver.continue_handshake Supplicant.Driver.start_phase2 Supplicant.Driver.take_inner
    Supplicant.Driver.push_outer Supplicant.Driver.count_round Supplicant.Driver.on_phase2
    Supplicant.Driver.on_records Supplicant.Driver.on_tlvs Supplicant.Driver.on_session_step
    Supplicant.Driver.protect_tlvs Supplicant.Driver.send_tls_message
    Supplicant.Driver.next_out_fragment Supplicant.Driver.respond_with Supplicant.Driver.on_success
    Supplicant.Driver.take_pending Exec.◌>>=◌ Eap.decode Eap.decode_body Eap.code_from_u8
    Eap.code_to_u8 Eap.carries_type Eap.encode Outer.parse Outer.parse_length Outer.build
    Outer.flags_of Outer.is_ack Outer.ack Reassembler.new Reassembler.push Reassembler.push_counted
    Reassembler.append_fragment Reassembler.finish_message Fragment.fragment Fragment.chunks
    Fragment.chunks_fuel Fragment.outers KeySchedule.new Flow.new Machine.step Machine.stages
    Machine.identity_stage Machine.payload_stage Machine.intermediate_stage Machine.result_stage
    Machine.answer_of Machine.handle_result Machine.export_keys Machine.conclude Machine.issued_mat
    Machine.find_mat Machine.find_mat_in Binding.handle_inner_success Binding.after_absorb
    Binding.absorb_once Binding.located Binding.find_crypto_binding Binding.check_binding
    Binding.verify_binding Binding.seal_response Binding.emit_response Binding.binding_response
    Flow.any_malformed Flow.of_type Flow.find ResultTlv.from_value ResultTlv.to_tlv
    EapPayloadTlv.to_tlv EapPayloadTlv.from_value IntermediateResultTlv.from_value
    IntermediateResultTlv.to_tlv CryptoBindingTlv.from_value CryptoBindingTlv.to_tlv
    CryptoBindingTlv.split_macs Fields.u16_at Fields.u32_at Fields.status_to_u16
    Fields.status_from_u16 absorb_inner derive_session_keys absorbed imck_block hkdf_expand
    expand_loop CryptoBind.verify CryptoBind.seal CryptoBind.compute_msk_compound_mac
    CryptoBind.mac_input CryptoBind.ct_eq CryptoBind.diff_loop CryptoBind.any_nonzero
    Raw.encode_each Raw.encode_all Raw.encode_into Raw.encode Raw.parse_all Raw.parse_loop
    Raw.next_tlv Raw.next_value Client.connect Client.tunnel Client.finish_handshake
    Client.enforce_fips_parameters Client.negotiated_mac Client.session_key_seed Client.unprotect
    Client.drain Client.read_out Client.protect Client.feed_incoming Client.feed
    Client.take_outgoing Client.write_out Client.require_established
succeeds = refl

success-Approved_example :
    (emsk : List ℕ) × (a : Authentic
      (Client.tunnel toy libs)
      Conversation.process
      fresh.tunnel
      tt
      Conversation.msk
      emsk)
    × Approved toy libs a.handshake.mac
success-Approved_example =
    success-Approved toy libs Conversation.process Driver.cfg (ok wire) tt SessionKind.machine fresh
      Driver.run Conversation.msk none made succeeds

connects : Client.connect (ok wire) ≡ ok client
unfolding Client.connect
connects = refl

-- The handshake, and then a message to send.
abbrev methods : List Method
methods =
    Method.take_outgoing
    ∷ Method.feed_incoming (1 ∷ [])
    ∷ Method.finish_handshake
    ∷ Method.protect (5 ∷ [])
    ∷ []

secrets_gated_example :
    AreRefused toy libs (applied toy libs client methods) (5 ∷ []) 64
    ⊎ Passed toy libs client methods
secrets_gated_example = secrets_gated toy libs (ok wire) client methods (5 ∷ []) 64 connects
