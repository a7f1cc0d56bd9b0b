-- ===== src/Supplicant/Phase2.antt =====
-- crates/supplicant/src/driver.rs: phase 2 and the whole of `step`.
use usg_supplicant.Common.{
  ℕ, not, ◌&&◌, List, Option, none, some, ok, is_empty, ◌≡◌, refl, sym, subst, Bool-cases, inl, inr,
  ltb, ok_or, saturating_add,
}
use usg_supplicant.Common.Exec.{Post, Post-bind, pure, ◌>>=◌}
use usg_supplicant.Fips.{Tunnel}
use usg_supplicant.Tlv.Raw.{parse_all}
use usg_supplicant.Eap
use usg_supplicant.Eap.{EapPacket, EapCode}
use usg_supplicant.Outer.{TeapOuter, teap_version, teap_eap_type, is_ack, ack, parse}
use usg_supplicant.Outer.Reassembler.{Reassembler}
use usg_supplicant.Session.Types.{InnerStep, Outcome, Step, continues, done, TeapSession}
use usg_supplicant.Supplicant.Types.{
  max_phase2_rounds, finished, decode, protocol, Phase, TeapDriver, success_before_result, not_teap,
  phase2_rounds,
}
use usg_supplicant.Supplicant.Rules.{bind-lift, bind-on_tunnel, bind-push_outer, bind-require}
use usg_supplicant.Supplicant.Driver
use usg_supplicant.Supplicant.Driver.{Act}
use usg_supplicant.Supplicant.Evidence.{
  protected, PendingSound, OptionSound, LiveSound, DriverSound,
}
use usg_supplicant.Supplicant.Rules.{Post-protect_tlvs}
use usg_supplicant.Supplicant.Sound.{
  Good, respond_with-Good, send_tls_message-Good, next_out_fragment-Good, on_handshake-Good,
  on_start-Good,
}
use usg_supplicant.Supplicant.Carried.{Stepped, Opened, on_tlvs-Post}

module _ {T I : Type 0} (tunnel : Tunnel T) (process : I → List ℕ → InnerStep × I) (origin : T)
    (start : I) where
  phase2-DriverSound :
      (d : TeapDriver T I)
      → d.phase ≡ Phase.phase2
      → OptionSound tunnel process origin start d.tunnel d.session
      → PendingSound tunnel process origin start d.pending
      → DriverSound tunnel process origin start d
  phase2-DriverSound d e h p =
      (subst (λ q. LiveSound tunnel process origin start q d.tunnel d.inner d.session) (sym e) h, p)

  OptionSound-protected :
      (now then : T) (o : Option (TeapSession I)) (bytes records : List ℕ)
      → tunnel.protect bytes now ≡ (ok records, then)
      → OptionSound tunnel process origin start now o
      → OptionSound tunnel process origin start then o
  OptionSound-protected now then none bytes records e h = tt
  OptionSound-protected now then (some s) bytes records e h = record {
    handshake = h.handshake;
    reached = protected h.reached e;
    sourced = h.sourced;
    backed = h.backed;
  }

  on_session_step-Good :
      (st : Step) (d : TeapDriver T I)
      → Stepped tunnel process origin start st d
      → Post (Good tunnel process origin start) (Driver.on_session_step tunnel process st d)
  unfolding Driver.on_session_step
  on_session_step-Good (continues out) d (phase, h, pend) =
      Post-bind (Driver.protect_tlvs tunnel out) Driver.send_tls_message d
        (λ _ e. DriverSound tunnel process origin start e) (Good tunnel process origin start)
        (Post-protect_tlvs tunnel out d (λ e. DriverSound tunnel process origin start e)
          (λ bytes records t e.
            phase2-DriverSound (record d { tunnel = t }) phase
              (OptionSound-protected d.tunnel t d.session bytes records e h) pend))
        (λ bytes e g. send_tls_message-Good tunnel process origin start bytes e g)
  on_session_step-Good (done send outcome) d h =
      Post-bind (Driver.protect_tlvs tunnel send) _ d (λ _ _. Unit {0})
        (Good tunnel process origin start)
        (Post-protect_tlvs tunnel send d (λ _. Unit {0}) (λ _ _ _ _. tt))
        (λ bytes e _.
          unfold ◌>>=◌ in
          send_tls_message-Good tunnel process origin start bytes
            (record e { phase = Phase.terminated; pending = some outcome }) (tt, h))

  on_records-Good :
      (records : List ℕ) (d : TeapDriver T I)
      → d.phase ≡ Phase.phase2
      → OptionSound tunnel process origin start d.tunnel d.session
      → PendingSound tunnel process origin start d.pending
      → Post (Good tunnel process origin start) (Driver.on_records tunnel process records d)
  unfolding Driver.on_records Opened
  on_records-Good records d phase h pend =
      bind-on_tunnel _ (Good tunnel process origin start) d (tunnel.unprotect records)
        (λ plaintext t opened.
          let e = record d { tunnel = t } in
          bind-lift _ (Good tunnel process origin start) e decode (parse_all plaintext) (λ m parsed.
            Post-bind (Driver.on_tlvs tunnel process m) (Driver.on_session_step tunnel process) e
              (Stepped tunnel process origin start) (Good tunnel process origin start)
              (on_tlvs-Post tunnel process origin start m d.tunnel e
                (records, plaintext, opened, parsed) phase h pend)
              (λ st f g. on_session_step-Good st f g)))

  on_phase2-Good :
      (outer : TeapOuter) (d : TeapDriver T I)
      → d.phase ≡ Phase.phase2
      → OptionSound tunnel process origin start d.tunnel d.session
      → PendingSound tunnel process origin start d.pending
      → Post (Good tunnel process origin start) (Driver.on_phase2 tunnel process outer d)
  unfolding Driver.on_phase2 Driver.count_round ◌>>=◌
  on_phase2-Good outer d phase h pend =
      let counted = record d { rounds = saturating_add d.rounds 1 } in
      bind-require (Good tunnel process origin start) counted
        (not (ltb max_phase2_rounds counted.rounds)) phase2_rounds _
        (λ _.
          bind-push_outer (Good tunnel process origin start) counted outer
            (Driver.phase2_message tunnel process) (λ m reasm. at_message m reasm))
    where
      at_message :
          (m : Option (List ℕ)) (reasm : Reassembler)
          → Post (Good tunnel process origin start) (
              Driver.phase2_message tunnel process m
                (record d { rounds = saturating_add d.rounds 1; reasm = reasm }))
      at_message none reasm =
          respond_with-Good tunnel process origin start (ack teap_version)
            (record d { rounds = saturating_add d.rounds 1; reasm = reasm })
            (phase2-DriverSound d phase h pend)
      at_message (some records) reasm =
          on_records-Good records (record d { rounds = saturating_add d.rounds 1; reasm = reasm })
            phase h pend

  at_phase :
      (d : TeapDriver T I) (p : Phase)
      → d.phase ≡ p
      → LiveSound tunnel process origin start d.phase d.tunnel d.inner d.session
      → LiveSound tunnel process origin start p d.tunnel d.inner d.session
  at_phase d p e h =
      subst (λ q. LiveSound tunnel process origin start q d.tunnel d.inner d.session) e h

  dispatch-Good :
      (p : Phase) (outer : TeapOuter) (d : TeapDriver T I)
      → d.phase ≡ p
      → DriverSound tunnel process origin start d
      → Post (Good tunnel process origin start) (Driver.dispatch tunnel process p outer d)
  unfolding Driver.dispatch
  dispatch-Good Phase.expect_start outer d e (h, p) =
      on_start-Good tunnel process origin start outer d (at_phase d Phase.expect_start e h) p
  dispatch-Good Phase.handshake outer d e (h, p) =
      on_handshake-Good tunnel process origin start outer d e (at_phase d Phase.handshake e h) p
  dispatch-Good Phase.phase2 outer d e (h, p) =
      on_phase2-Good outer d e (at_phase d Phase.phase2 e h) p
  dispatch-Good Phase.terminated outer d e h = tt

  on_outer-Good :
      (outer : TeapOuter) (d : TeapDriver T I)
      → DriverSound tunnel process origin start d
      → Post (Good tunnel process origin start) (Driver.on_outer tunnel process outer d)
  unfolding Driver.on_outer
  on_outer-Good outer d h = elim (Bool-cases (is_ack outer && not (is_empty d.out_queue))) [
    | inl e ↦ rw e (next_out_fragment-Good tunnel process origin start d h)
    | inr e ↦ rw e (dispatch-Good d.phase outer d refl h)
  ]

  on_packet-Good :
      (pkt : EapPacket) (code : EapCode) (d : TeapDriver T I)
      → DriverSound tunnel process origin start d
      → Post (Good tunnel process origin start) (Driver.on_packet tunnel process pkt code d)
  unfolding Driver.on_packet Driver.on_request Driver.on_success Driver.take_pending ◌>>=◌
  on_packet-Good pkt EapCode.failure d h = (tt, (tt, tt))
  on_packet-Good pkt EapCode.success d h = at_pending d.pending (h.1)
    where
      at_pending :
          (o : Option Outcome)
          → PendingSound tunnel process origin start o
          → Post (Good tunnel process origin start) (
              ((λ d. (ok_or o (protocol success_before_result), record d { pending = none }))
                  >>= λ outcome. pure (finished none outcome))
                (record d { phase = Phase.terminated }))
      at_pending none h = tt
      at_pending (some outcome) h = (h, (tt, tt))
  on_packet-Good pkt EapCode.request d h =
      bind-require (Good tunnel process origin start) d (Driver.is_type teap_eap_type pkt.type_)
        not_teap _
        (λ _.
          bind-lift _ (Good tunnel process origin start) (record d { last_id = pkt.id }) decode
            (parse pkt.body) (λ outer _. on_outer-Good outer (record d { last_id = pkt.id }) h))
  on_packet-Good pkt EapCode.response d h = tt
  on_packet-Good pkt (EapCode.unknown v) d h = tt

  -- A step of a sound driver is sound, and leaves the driver sound unless it fails.
  pub step-Good :
      (eap_request : List ℕ) (d : TeapDriver T I)
      → DriverSound tunnel process origin start d
      → Post (Good tunnel process origin start) (Driver.step tunnel process eap_request d)
  unfolding Driver.step
  step-Good eap_request d h =
      bind-lift _ (Good tunnel process origin start) d decode (Eap.decode eap_request)
        (λ pkt _. on_packet-Good pkt pkt.code d h)
