-- ===== src/Supplicant/Inner.antt =====
-- crates/supplicant/src/inner_tls.rs: EAP-TLS as the inner method, a second TLS handshake.
use usg_supplicant.Common.{
  ℕ, Bool, true, false, not, ◌&&◌, List, [], ◌∷◌, Option, none, some, Result, ok, err, map_err,
  ok_or, is_empty, get_range, if◌then◌else◌,
}
use usg_supplicant.Common.Text.{octets}
use usg_supplicant.Common.Exec.{Exec, lift, pure, fail, modify, ◌>>=◌, ◌>>◌}
use usg_supplicant.Fips.{FipsTlsError, Tunnel}
use usg_supplicant.Tlv.Error.{TlvError}
use usg_supplicant.Eap
use usg_supplicant.Eap.{EapPacket, EapCode}
use usg_supplicant.KeySchedule.{imsk_len}
use usg_supplicant.Outer.{TeapOuter, ack, is_ack, parse, build}
use usg_supplicant.Outer.Reassembler
use usg_supplicant.Outer.Reassembler.{Reassembler}
use usg_supplicant.Outer.Fragment.{fragment}
use usg_supplicant.Session.Types.{InnerStep}
use usg_supplicant.Supplicant.Types.{max_tls_message}
use usg_supplicant.Supplicant.Driver.{is_type}
pub mod Completion
pub mod Completes
pub mod Verdict

abbrev pub eap_tls_type : ℕ
eap_tls_type = 13

abbrev pub eap_tls_version : ℕ
eap_tls_version = 0

abbrev pub eap_tls_exporter_label : List ℕ
eap_tls_exporter_label = octets "EXPORTER_EAP_TLS_Key_Material"

abbrev pub eap_tls_key_len : ℕ
eap_tls_key_len = 64

pub data InnerTlsError : Type 0 where
  connect protocol : InnerTlsError

pub data State : Type 0 where
  handshake await_commitment done failed : State

pub record EapTlsInner (T : Type 0) : Type 0 where
  pub tunnel : T
  pub reasm : Reassembler
  pub out_queue : List TeapOuter
  pub state : State
  pub started : Bool
  pub max_fragment : ℕ
  pub last_id : ℕ

-- `connected` is what `TeapTlsClient::connect` gave.
unfoldable pub new :
    {T : Type 0} → (connected : Result FipsTlsError T) → ℕ → Result InnerTlsError (EapTlsInner T)
new (err e) max_fragment = err InnerTlsError.connect
new (ok tunnel) max_fragment = ok (record {
  tunnel = tunnel;
  reasm = Reassembler.new max_tls_message;
  out_queue = [];
  state = State.handshake;
  started = false;
  max_fragment = max_fragment;
  last_id = 0;
})

abbrev pub is_request : EapCode → Bool
is_request EapCode.request = true
is_request _ = false

-- `matches!(self.state, State::Done | State::Failed)`
abbrev pub is_over : State → Bool
is_over State.done = true
is_over State.failed = true
is_over _ = false

abbrev pub response : ℕ → TeapOuter → EapPacket
response id outer = record {
  code = EapCode.response;
  id = id;
  type_ = some eap_tls_type;
  body = build outer;
}

abbrev pub collapse : {E A : Type 0} → Result E A → Result InnerTlsError A
collapse r = map_err (λ _. InnerTlsError.protocol) r

abbrev pub responded : Result TlvError (List ℕ) → Result InnerTlsError InnerStep
responded (ok bytes) = ok (InnerStep.respond bytes)
responded (err e) = err InnerTlsError.protocol

abbrev pub Act : (T A : Type 0) → Type 0
Act T A = Exec InnerTlsError (EapTlsInner T) A

module _ {T : Type 0} where
  abbrev pub on_tunnel : {A : Type 0} → (T → Result FipsTlsError A × T) → Act T A
  on_tunnel m s = let (r, t) = m s.tunnel in (collapse r, record s { tunnel = t })

  unfoldable pub push_outer : TeapOuter → Act T (Option (List ℕ))
  push_outer outer s =
      let (r, reasm) = Reassembler.push s.reasm outer in (collapse r, record s { reasm = reasm })

  unfoldable pub respond_with : TeapOuter → Act T InnerStep
  respond_with outer s = (responded (Eap.encode (response s.last_id outer)), s)

  abbrev pub queue_fragments : List TeapOuter → Act T InnerStep
  queue_fragments [] = do
    modify (λ s. record s { out_queue = [] })
    respond_with (ack eap_tls_version)
  queue_fragments (first ∷ frags) = do
    modify (λ s. record s { out_queue = frags })
    respond_with first

  unfoldable pub send_tls : List ℕ → Act T InnerStep
  send_tls message s = queue_fragments (fragment message s.max_fragment eap_tls_version) s

  abbrev pub pop_fragment : List TeapOuter → Act T InnerStep
  pop_fragment [] = respond_with (ack eap_tls_version)
  pop_fragment (outer ∷ frags) = do modify (λ s. record s { out_queue = frags }); respond_with outer

  unfoldable pub next_fragment : Act T InnerStep
  next_fragment s = pop_fragment s.out_queue s

  -- The early return with `InnerTlsError::Protocol`.
  abbrev pub require : Bool → Act T (Unit {0})
  require true = pure tt
  require false = fail InnerTlsError.protocol

  abbrev pub set_state : State → Act T (Unit {0})
  set_state state = modify (λ s. record s { state = state })

module _ {T : Type 0} (tunnel : Tunnel T) where
  unfoldable pub open_handshake : TeapOuter → Act T InnerStep
  open_handshake outer = do
    require outer.start
    modify (λ s. record s { started = true })
    client_hello ← on_tunnel tunnel.take_outgoing
    send_tls client_hello

  unfoldable pub continue_handshake : Act T InnerStep
  continue_handshake = do flight ← on_tunnel tunnel.take_outgoing; send_tls flight

  unfoldable pub complete_handshake : Act T InnerStep
  complete_handshake = do
    flight ← on_tunnel tunnel.take_outgoing
    on_tunnel tunnel.finish_handshake
    set_state State.await_commitment
    send_tls flight

  unfoldable pub after_feed : Act T InnerStep
  after_feed s =
      (if tunnel.is_handshaking s.tunnel then continue_handshake else complete_handshake) s

  abbrev pub handshake_message : Option (List ℕ) → Act T InnerStep
  handshake_message none = respond_with (ack eap_tls_version)
  handshake_message (some records) = do on_tunnel (tunnel.feed_incoming records); after_feed

  unfoldable pub on_started : TeapOuter → Act T InnerStep
  on_started outer = do message ← push_outer outer; handshake_message message

  unfoldable pub on_handshake : TeapOuter → Act T InnerStep
  on_handshake outer s = (if s.started then on_started outer else open_handshake outer) s

  abbrev pub exported : Act T (List ℕ)
  exported s =
      (collapse (tunnel.export_keying_material eap_tls_exporter_label eap_tls_key_len s.tunnel), s)

  abbrev pub commitment_message : Option (List ℕ) → Act T InnerStep
  commitment_message none = respond_with (ack eap_tls_version)
  commitment_message (some records) = do
    require (not (is_empty records))
    key ← exported
    imsk ← lift (ok_or (get_range 0 imsk_len key) InnerTlsError.protocol)
    set_state State.done
    pure (InnerStep.finished imsk)

  unfoldable pub on_commitment : TeapOuter → Act T InnerStep
  on_commitment outer = do message ← push_outer outer; commitment_message message

  unfoldable pub dispatch : State → TeapOuter → Act T InnerStep
  dispatch State.handshake outer = on_handshake outer
  dispatch State.await_commitment outer = on_commitment outer
  dispatch _ outer = fail InnerTlsError.protocol

  unfoldable pub on_outer : TeapOuter → Act T InnerStep
  on_outer outer s =
      if is_ack outer && not (is_empty s.out_queue)
      then next_fragment s
      else dispatch s.state outer s

  unfoldable pub try_process : List ℕ → Act T InnerStep
  try_process inner_eap = do
    (λ s. require (not (is_over s.state)) s)
    pkt ← lift (collapse (Eap.decode inner_eap))
    require (is_request pkt.code && is_type eap_tls_type pkt.type_)
    modify (λ s. record s { last_id = pkt.id })
    outer ← lift (collapse (parse pkt.body))
    on_outer outer

  -- Any error is `Failed`, and the method is over.
  abbrev pub settle : Result InnerTlsError InnerStep × EapTlsInner T → InnerStep × EapTlsInner T
  settle (ok step, s) = (step, s)
  settle (err e, s) = (InnerStep.failed, record s { state = State.failed })

  unfoldable pub process : EapTlsInner T → List ℕ → InnerStep × EapTlsInner T
  process s inner_eap = settle (try_process inner_eap s)
