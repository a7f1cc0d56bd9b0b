-- ===== src/Supplicant/Driver/Actions.antt =====
-- crates/supplicant/src/driver.rs: the steps that the methods of `TeapDriver` are built of, and the
-- answers with their queue of fragments.
use usg_supplicant.Common.{
  ℕ, Bool, true, false, List, [], ◌∷◌, Option, none, some, Result, ok, err, ok_or, map_err,
  saturating_add, ◌==◌,
}
use usg_supplicant.Common.Exec.{Exec, pure, fail, modify, ◌>>◌}
use usg_supplicant.Fips.{FipsTlsError}
use usg_supplicant.Tlv.Error.{TlvError}
use usg_supplicant.Eap
use usg_supplicant.Eap.{EapPacket, EapCode}
use usg_supplicant.KeySchedule.Errors.{KeyScheduleError}
use usg_supplicant.Outer.{TeapOuter, teap_eap_type, teap_version, ack, build}
use usg_supplicant.Outer.Reassembler
use usg_supplicant.Outer.Fragment.{fragment}
use usg_supplicant.Session.Types.{SessionConfig, TeapSession}
use usg_supplicant.Supplicant.Types.{
  DriverConfig, DriverStep, respond, Violation, DriverError, decode, tls, protocol, Phase,
  TeapDriver, inner_used, seed_rejected,
}

-- `pkt.type_ != Some(n)` is `not (is_type n pkt.type_)`.
abbrev pub is_type : ℕ → Option ℕ → Bool
is_type n none = false
is_type n (some t) = t == n

abbrev pub response : ℕ → TeapOuter → EapPacket
response id outer = record {
  code = EapCode.response;
  id = id;
  type_ = some teap_eap_type;
  body = build outer;
}

abbrev pub responded : Result TlvError (List ℕ) → Result DriverError DriverStep
responded (ok bytes) = ok (respond bytes)
responded (err e) = err (decode e)

abbrev pub session_config : DriverConfig → SessionConfig
session_config cfg = record {
  identity = cfg.identity;
  mat_vendor_id = cfg.mat_vendor_id;
  mat_to_present = cfg.mat_to_present;
}

abbrev pub seeded : {A : Type 0} → Result KeyScheduleError A → Result DriverError A
seeded r = map_err (λ _. protocol seed_rejected) r

abbrev pub Act : (T I A : Type 0) → Type 0
Act T I A = Exec DriverError (TeapDriver T I) A

module _ {T I : Type 0} where
  -- A method of the tunnel, with the `From` of its error.
  abbrev pub on_tunnel : {A : Type 0} → (T → Result FipsTlsError A × T) → Act T I A
  on_tunnel m d = let (r, t) = m d.tunnel in (map_err tls r, record d { tunnel = t })

  -- `self.reasm.push(outer)?`
  unfoldable pub push_outer : TeapOuter → Act T I (Option (List ℕ))
  push_outer outer d =
      let (r, reasm) = Reassembler.push d.reasm outer in
      (map_err decode r, record d { reasm = reasm })

  -- `self.respond(&outer)`: the packet carries the identifier of the last request.
  unfoldable pub respond_with : TeapOuter → Act T I DriverStep
  respond_with outer d = (responded (Eap.encode (response d.last_id outer)), d)

  -- The first fragment goes out, the others are queued.
  abbrev pub queue_fragments : List TeapOuter → Act T I DriverStep
  queue_fragments [] = do modify (λ d. record d { out_queue = [] }); respond_with (ack teap_version)
  queue_fragments (first ∷ frags) = do
    modify (λ d. record d { out_queue = frags })
    respond_with first

  unfoldable pub send_tls_message : List ℕ → Act T I DriverStep
  send_tls_message message d = queue_fragments (fragment message d.cfg.max_fragment teap_version) d

  abbrev pub pop_fragment : List TeapOuter → Act T I DriverStep
  pop_fragment [] = respond_with (ack teap_version)
  pop_fragment (outer ∷ frags) = do modify (λ d. record d { out_queue = frags }); respond_with outer

  unfoldable pub next_out_fragment : Act T I DriverStep
  next_out_fragment d = pop_fragment d.out_queue d

  -- The early return with a protocol violation.
  abbrev pub require : Bool → Violation → Act T I (Unit {0})
  require true v = pure tt
  require false v = fail (protocol v)

  unfoldable pub count_round : Act T I (Unit {0})
  count_round = modify (λ d. record d { rounds = saturating_add d.rounds 1 })

  abbrev pub set_phase : Phase → Act T I (Unit {0})
  set_phase p = modify (λ d. record d { phase = p })

  -- `self.inner.take().ok_or(…)?`
  unfoldable pub take_inner : Act T I I
  take_inner d = (ok_or d.inner (protocol inner_used), record d { inner = none })

  abbrev pub begin_phase2 : TeapSession I → Act T I (Unit {0})
  begin_phase2 begun =
      modify (λ d. record d { session = some begun; phase = Phase.phase2; rounds = 0 })
