-- ===== src/Supplicant/Driver.antt =====
-- crates/supplicant/src/driver.rs: the methods of `TeapDriver`, the callees first.
mod Actions
unfoldable pub use Actions.*
use usg_supplicant.Common.{
  ℕ, Bool, true, false, not, ◌&&◌, List, [], ◌∷◌, Option, none, some, Result, ok, err, ok_or,
  map_err, is_empty, saturating_add, ltb, ◌==◌, if◌then◌else◌,
}
use usg_supplicant.Common.Exec.{Exec, lift, pure, fail, modify, ◌>>=◌, ◌>>◌}
use usg_supplicant.Fips.{FipsTlsError, Tunnel}
use usg_supplicant.Tlv.Error.{TlvError}
use usg_supplicant.Tlv.Raw.{RawTlv, parse_all, encode_all}
use usg_supplicant.Eap
use usg_supplicant.Eap.{EapPacket, EapCode}
use usg_supplicant.KeySchedule.{TeapMac}
use usg_supplicant.KeySchedule.Errors.{KeyScheduleError}
use usg_supplicant.Outer.{TeapOuter, teap_eap_type, teap_version, ack, is_ack, parse, build}
use usg_supplicant.Outer.Reassembler
use usg_supplicant.Outer.Fragment.{fragment}
use usg_supplicant.Session.Types.{
  SessionConfig, InnerStep, FailReason, Outcome, failure, Step, continues, done, TeapSession,
}
use usg_supplicant.Session.Flow
use usg_supplicant.Session.Machine
use usg_supplicant.Supplicant.Types.{
  max_tls_message, max_handshake_rounds, max_phase2_rounds, DriverConfig, DriverStep, respond,
  finished, Violation, DriverError, decode, tls, protocol, Phase, TeapDriver, success_before_result,
  unexpected_code, not_teap, expected_start, after_terminal_state, handshake_rounds, inner_used,
  seed_rejected, phase2_rounds, no_session,
}

module _ {T I : Type 0} (tunnel : Tunnel T) where
  abbrev pub seed_of : Act T I (List ℕ)
  seed_of d = (map_err tls (tunnel.session_key_seed d.tunnel), d)

  abbrev pub mac_of : Act T I TeapMac
  mac_of d = (map_err tls (tunnel.negotiated_mac d.tunnel), d)

  abbrev pub make_session : List ℕ → TeapMac → I → Act T I (TeapSession I)
  make_session seed mac inner d = (seeded (Flow.new (session_config d.cfg) seed mac inner), d)

  unfoldable pub start_phase2 : Act T I (Unit {0})
  start_phase2 = do
    seed ← seed_of
    mac ← mac_of
    inner ← take_inner
    begun ← make_session seed mac inner
    begin_phase2 begun

  -- Behind the end of the TLS handshake.
  unfoldable pub complete_handshake : Act T I DriverStep
  complete_handshake = do
    flight ← on_tunnel tunnel.take_outgoing
    on_tunnel tunnel.finish_handshake
    start_phase2
    send_tls_message flight

  unfoldable pub continue_handshake : Act T I DriverStep
  continue_handshake = do flight ← on_tunnel tunnel.take_outgoing; send_tls_message flight

  unfoldable pub after_feed : Act T I DriverStep
  after_feed d =
      (if tunnel.is_handshaking d.tunnel then continue_handshake else complete_handshake) d

  abbrev pub handshake_message : Option (List ℕ) → Act T I DriverStep
  handshake_message none = respond_with (ack teap_version)
  handshake_message (some message) = do on_tunnel (tunnel.feed_incoming message); after_feed

  -- `if self.rounds > limit` behind the count.
  abbrev pub limit_rounds : ℕ → Violation → Act T I (Unit {0})
  limit_rounds limit v d = require (not (ltb limit d.rounds)) v d

  unfoldable pub on_handshake : TeapOuter → Act T I DriverStep
  on_handshake outer = do
    count_round
    limit_rounds max_handshake_rounds handshake_rounds
    message ← push_outer outer
    handshake_message message

  unfoldable pub protect_tlvs : List RawTlv → Act T I (List ℕ)
  protect_tlvs tlvs = do
    bytes ← lift (map_err decode (encode_all tlvs))
    on_tunnel (tunnel.protect bytes)

  unfoldable pub on_start : TeapOuter → Act T I DriverStep
  on_start outer = do
    require outer.start expected_start
    set_phase Phase.handshake
    client_hello ← on_tunnel tunnel.take_outgoing
    send_tls_message client_hello

module _ {T I : Type 0} (tunnel : Tunnel T) (process : I → List ℕ → InnerStep × I) where
  -- `session.step(&tlvs)?` on the session that is there.
  abbrev pub step_session : Option (TeapSession I) → List RawTlv → Act T I Step
  step_session none tlvs = fail (protocol no_session)
  step_session (some s) tlvs = λ d.
      let (r, t) = Machine.step process s tlvs in
      (map_err DriverError.session r, record d { session = some t })

  unfoldable pub on_tlvs : List RawTlv → Act T I Step
  on_tlvs tlvs d = step_session d.session tlvs d

  unfoldable pub on_session_step : Step → Act T I DriverStep
  on_session_step (continues out) = do
    ciphertext ← protect_tlvs tunnel out
    send_tls_message ciphertext
  on_session_step (done send outcome) = do
    ciphertext ← protect_tlvs tunnel send
    modify (λ d. record d { phase = Phase.terminated; pending = some outcome })
    send_tls_message ciphertext

  unfoldable pub on_records : List ℕ → Act T I DriverStep
  on_records records = do
    plaintext ← on_tunnel (tunnel.unprotect records)
    tlvs ← lift (map_err decode (parse_all plaintext))
    next ← on_tlvs tlvs
    on_session_step next

  abbrev pub phase2_message : Option (List ℕ) → Act T I DriverStep
  phase2_message none = respond_with (ack teap_version)
  phase2_message (some records) = on_records records

  unfoldable pub on_phase2 : TeapOuter → Act T I DriverStep
  on_phase2 outer = do
    count_round
    limit_rounds tunnel max_phase2_rounds phase2_rounds
    message ← push_outer outer
    phase2_message message

  unfoldable pub dispatch : Phase → TeapOuter → Act T I DriverStep
  dispatch Phase.expect_start outer = on_start tunnel outer
  dispatch Phase.handshake outer = on_handshake tunnel outer
  dispatch Phase.phase2 outer = on_phase2 outer
  dispatch Phase.terminated outer = fail (protocol after_terminal_state)

  -- A bare ACK drives the queue of fragments.
  unfoldable pub on_outer : TeapOuter → Act T I DriverStep
  on_outer outer d =
      if is_ack outer && not (is_empty d.out_queue)
      then next_out_fragment d
      else dispatch d.phase outer d

  unfoldable pub on_request : EapPacket → Act T I DriverStep
  on_request pkt = do
    require (is_type teap_eap_type pkt.type_) not_teap
    modify (λ d. record d { last_id = pkt.id })
    outer ← lift (map_err decode (parse pkt.body))
    on_outer outer

  -- `self.pending.take().ok_or(…)?`
  unfoldable pub take_pending : Act T I Outcome
  take_pending d = (ok_or d.pending (protocol success_before_result), record d { pending = none })

  unfoldable pub on_success : Act T I DriverStep
  on_success = do set_phase Phase.terminated; outcome ← take_pending; pure (finished none outcome)

  abbrev pub on_failure : Act T I DriverStep
  on_failure d = (
    ok (finished none (failure FailReason.server_failure)),
    record d { phase = Phase.terminated; pending = none },
  )

  unfoldable pub on_packet : EapPacket → EapCode → Act T I DriverStep
  on_packet pkt EapCode.failure = on_failure
  on_packet pkt EapCode.success = on_success
  on_packet pkt EapCode.request = on_request pkt
  on_packet pkt _ = fail (protocol unexpected_code)

  -- `TeapDriver::step`
  unfoldable pub step : List ℕ → Act T I DriverStep
  step eap_request = do pkt ← lift (map_err decode (Eap.decode eap_request)); on_packet pkt pkt.code

-- `TeapDriver::new`; `connected` is what building the client config and the connection gave.
unfoldable pub new :
    {T I : Type 0}
    → DriverConfig
    → (connected : Result FipsTlsError T) → I
    → Result DriverError (TeapDriver T I)
new cfg (err e) inner = err (tls e)
new cfg (ok tunnel) inner = ok (record {
  cfg = cfg;
  tunnel = tunnel;
  inner = some inner;
  phase = Phase.expect_start;
  reasm = Reassembler.new max_tls_message;
  out_queue = [];
  session = none;
  pending = none;
  last_id = 0;
  rounds = 0;
})

unfoldable pub is_established : {T I : Type 0} → TeapDriver T I → Bool
is_established d = elim d.phase [ Phase.phase2 ↦ true | Phase.terminated ↦ true | _ ↦ false ]
