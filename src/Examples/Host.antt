-- ===== src/Examples/Host.antt =====
-- The same authentication through the entry points of EAPHost.
use usg_supplicant.Common.{ℕ, Bool, Option, true, List, [], ◌∷◌, some, ok, err, ◌≡◌, refl}
use usg_supplicant.Common.Exec
use usg_supplicant.Tlv.Raw
use usg_supplicant.Tlv.Raw.{RawTlv, encode_all}
use usg_supplicant.Eap
use usg_supplicant.Eap.{EapPacket, EapCode}
use usg_supplicant.Outer
use usg_supplicant.Outer.Reassembler
use usg_supplicant.Outer.Fragment
use usg_supplicant.KeySchedule
use usg_supplicant.KeySchedule.{
  Cmk, absorb_inner, derive_session_keys, absorbed, imck_block, hkdf_expand, expand_loop,
  KeySchedule,
}
use usg_supplicant.CryptoBind
use usg_supplicant.Tlv.Body.Fields.{ResultStatus}
use usg_supplicant.Tlv.Body.Fields
use usg_supplicant.Tlv.Body.ResultTlv
use usg_supplicant.Tlv.Body.EapPayloadTlv
use usg_supplicant.Tlv.Body.IntermediateResultTlv
use usg_supplicant.Tlv.Body.CryptoBindingTlv
use usg_supplicant.Tlv.Body.CryptoBindingTlv.{CryptoBindingTlv}
use usg_supplicant.Session.Flow
use usg_supplicant.Session.Binding
use usg_supplicant.Session.Machine
use usg_supplicant.Supplicant
use usg_supplicant.Supplicant.Inner
use usg_supplicant.Supplicant.Inner.{EapTlsInner, State, InnerTlsError}
use usg_supplicant.Eaphost.Peer.{SessionKind, AuthResult, new, process, take_response, finish}
use usg_supplicant.Fips.Client
use usg_supplicant.Fips.Client.{TeapTlsClient}
use usg_supplicant.Examples.Stack.{Wire, toy, libs, wire}
use usg_supplicant.Supplicant.Builder.{Wired, assemble_driver, new_driver}
use usg_supplicant.Fips.Connect.{Rustls, client_config, connection}
use usg_supplicant.Creds.{CredError}
use usg_supplicant.Session.Types.{FailReason}
use usg_supplicant.Eaphost.Peer
use usg_supplicant.Eaphost.Registry
use usg_supplicant.Eaphost.Config
use usg_supplicant.Pac
use usg_supplicant.Status
use usg_supplicant.Common.Lines
use usg_supplicant.Common.Decimal
use usg_supplicant.Eaphost.Config.{from_bytes}
use usg_supplicant.Eaphost.Builder
use usg_supplicant.Eaphost.Builder.{KeyStores}
use usg_supplicant.Eaphost.Host
use usg_supplicant.Eaphost.Host.{World, Host, Platform}
use usg_supplicant.Eaphost.Host.Entry
use usg_supplicant.Eaphost.Host.Entry.{
  Entry, begins, processes, get_result, begin_session, process_request_packet, prepare, add_roots,
}
use usg_supplicant.Eaphost.Host.Verdict.{platform, steps, Admitted, get_result-Admitted}
use usg_supplicant.Examples.Mutual.{packets}

abbrev world : World
world = record { fips = true; secured = true; readable = true; writable = true; now = 1700000000 }

abbrev stores : KeyStores (Unit {0})
stores = record {
  machine_signer = λ selector. ok tt;
  user_signer = λ selector. err CredError.no_matching_cert;
  cert_chain = λ signer. (1 ∷ []) ∷ [];
  sha256 = λ bytes. 171 ∷ [];
}

abbrev rustls : Rustls (Unit {0}) (Unit {0}) (Unit {0}) Wire
rustls = record {
  with_protocol_versions = ok tt;
  with_root_certificates = λ roots builder. builder;
  with_no_client_auth = λ builder. builder;
  with_client_auth_cert = λ chain key builder. ok builder;
  with_client_cert_resolver = λ signer builder. builder;
  server_name = λ name. true;
  new_connection = λ config name. ok wire;
}

-- A machine session with the server `n`, the selector `m` and one trust anchor.
abbrev blob : List ℕ
blob =
    85 ∷ 83 ∷ 71 ∷ 84 ∷ 1 ∷ 1 ∷ 55 ∷ 1 ∷ 0 ∷ 0 ∷ 232 ∷ 3 ∷ 0 ∷ 0 ∷ 1 ∷ 0 ∷ 0 ∷ 0 ∷ 110 ∷ 1 ∷ 0 ∷ 0
    ∷ 0 ∷ 109 ∷ 1 ∷ 0 ∷ 0 ∷ 0 ∷ 1 ∷ 0 ∷ 0 ∷ 0 ∷ 1 ∷ 0 ∷ []

abbrev sent : List (List ℕ) → List Entry
sent [] = []
sent (eap ∷ eaps) = processes world 1 eap ∷ sent eaps

abbrev entries : List Entry
entries = begins world blob ∷ sent packets

abbrev any_text : List ℕ → Bool
any_text s = true

abbrev any_der : List ℕ → Bool
any_der der = true

abbrev no_text : FailReason → List ℕ
no_text reason = []

abbrev os : Platform (Wired Wire)
os = platform stores rustls toy libs any_text any_der no_text

reports :
    (get_result os world 1
      (Entry.run os (steps stores rustls toy libs any_text any_der no_text) Host.new entries)).0
    ≡ true
unfolding get_result begin_session process_request_packet prepare add_roots Host.new
    Host.publish_status Entry.run Registry.new Registry.begin Registry.process Registry.result
    Registry.tunnel_established Peer.new Peer.process Peer.finish Builder.build_driver
    Builder.hex_upper assemble_driver new_driver client_config connection from_bytes Config.read
    Config.read_roots Config.string Config.take Config.u8 Config.u32 Config.bytes Pac.same
    Status.decode Status.read_lines Lines.lines Status.encode Status.joined Status.state_token
    Status.identity_token Status.one_line Decimal.digits Lines.split_once Status.assign Lines.same
    Status.state_from_token Status.identity_from_token Supplicant.Driver.is_established
    Inner.process Inner.try_process Inner.on_outer Inner.dispatch Inner.on_handshake
    Inner.open_handshake Inner.on_started Inner.after_feed Inner.continue_handshake
    Inner.complete_handshake Inner.on_commitment Inner.push_outer Inner.respond_with Inner.send_tls
    Inner.next_fragment Inner.new Client.export_keying_material Supplicant.Driver.new
    Supplicant.Driver.step Supplicant.Driver.on_packet Supplicant.Driver.on_request
    Supplicant.Driver.on_outer Supplicant.Driver.dispatch Supplicant.Driver.on_start
    Supplicant.Driver.on_handshake Supplicant.Driver.after_feed Supplicant.Driver.complete_handshake
    Supplicant.Driver.continue_handshake Supplicant.Driver.start_phase2 Supplicant.Driver.take_inner
    Supplicant.Driver.push_outer Supplicant.Driver.count_round Supplicant.Driver.on_phase2
    Supplicant.Driver.on_records Supplicant.Driver.on_tlvs Supplicant.Driver.on_session_step
    Supplicant.Driver.protect_tlvs Supplicant.Driver.send_tls_message
    Supplicant.Driver.next_out_fragment Supplicant.Driver.respond_with Supplicant.Driver.on_success
    Supplicant.Driver.take_pending Exec.◌>>=◌ Eap.decode Eap.decode_body Eap.code_from_u8
    Eap.code_to_u8 Eap.carries_type Eap.encode Outer.parse Outer.parse_length Outer.build
    Outer.flags_of Outer.is_ack Outer.ack Reassembler.new Reassembler.push Reassembler.push_counted
    Reassembler.append_fragment Reassembler.finish_message Fragment.fragment Fragment.chunks
    Fragment.chunks_fuel Fragment.outers KeySchedule.new Flow.new Machine.step Machine.stages
    Machine.identity_stage Machine.payload_stage Machine.intermediate_stage Machine.result_stage
    Machine.answer_of Machine.handle_result Machine.export_keys Machine.conclude Machine.issued_mat
    Machine.find_mat Machine.find_mat_in Binding.handle_inner_success Binding.after_absorb
    Binding.absorb_once Binding.located Binding.find_crypto_binding Binding.check_binding
    Binding.verify_binding Binding.seal_response Binding.emit_response Binding.binding_response
    Flow.any_malformed Flow.of_type Flow.find ResultTlv.from_value ResultTlv.to_tlv
    EapPayloadTlv.to_tlv EapPayloadTlv.from_value IntermediateResultTlv.from_value
    IntermediateResultTlv.to_tlv CryptoBindingTlv.from_value CryptoBindingTlv.to_tlv
    CryptoBindingTlv.split_macs Fields.u16_at Fields.u32_at Fields.status_to_u16
    Fields.status_from_u16 absorb_inner derive_session_keys absorbed imck_block hkdf_expand
    expand_loop CryptoBind.verify CryptoBind.seal CryptoBind.compute_msk_compound_mac
    CryptoBind.mac_input CryptoBind.ct_eq CryptoBind.diff_loop CryptoBind.any_nonzero
    Raw.encode_each Raw.encode_all Raw.encode_into Raw.encode Raw.parse_all Raw.parse_loop
    Raw.next_tlv Raw.next_value Client.connect Client.tunnel Client.finish_handshake
    Client.enforce_fips_parameters Client.negotiated_mac Client.session_key_seed Client.unprotect
    Client.drain Client.read_out Client.protect Client.feed_incoming Client.feed
    Client.take_outgoing Client.write_out Client.require_established
reports = refl

get_result-Admitted_example :
    (msk : List ℕ) × (mat : Option (List ℕ)) × (Registry.result 1
        (Entry.run os
          (steps stores rustls toy libs any_text any_der no_text)
          Host.new
          entries).registry
      ≡ some (AuthResult.success msk mat))
    × Admitted stores rustls toy libs any_text any_der no_text entries msk
get_result-Admitted_example =
    get_result-Admitted stores rustls toy libs any_text any_der no_text entries world 1 reports
