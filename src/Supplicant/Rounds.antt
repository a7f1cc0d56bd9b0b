-- ===== src/Supplicant/Rounds.antt =====
-- crates/supplicant/src/driver.rs: the stages of the driver in the methods behind a whole message.
use usg_supplicant.Common.{
  ℕ, not, List, Option, none, some, ok, err, map_err, ◌+◌, ◌-◌, ◌<◌, ◌≡◌, sym, subst, ltb, arith,
  saturating_add, true,
}
use usg_supplicant.Common.Exec.{Post, Post-bind, ◌>>=◌}
use usg_supplicant.Fips.{Tunnel}
use usg_supplicant.Tlv.Raw.{RawTlv, parse_all}
use usg_supplicant.Outer.{TeapOuter, teap_version, ack}
use usg_supplicant.Session.Types.{InnerStep, Step, continues, done, TeapSession, Answer}
use usg_supplicant.Session.Machine
use usg_supplicant.Supplicant.Types.{
  max_handshake_rounds, max_phase2_rounds, DriverError, decode, Phase, TeapDriver, expected_start,
  handshake_rounds, phase2_rounds,
}
use usg_supplicant.Supplicant.Rules.{
  bind-lift, bind-on_tunnel, bind-push_outer, bind-require, Post-protect_tlvs,
}
use usg_supplicant.Supplicant.Driver
use usg_supplicant.Supplicant.Driver.{Act}
use usg_supplicant.Supplicant.Measure.{
  stage, stage_of, Below, respond_with-Post, send_tls_message-Below, after_feed-Below,
}

-- A count that stays within the limit brings the limit nearer.
counts : (r : ℕ) → not (ltb 64 (saturating_add r 1)) ≡ true → 64 - saturating_add r 1 < 64 - r
counts r h = ground arith

module _ {T I : Type 0} (tunnel : Tunnel T) where
  handshake_message-Below :
      (k : ℕ) (m : Option (List ℕ)) (d : TeapDriver T I)
      → stage d < k
      → 65 < k
      → Post (Below k) (Driver.handshake_message tunnel m d)
  handshake_message-Below k none d h more =
      respond_with-Post (Below k) (ack teap_version) d (λ _. h)
  handshake_message-Below k (some message) d h more =
      bind-on_tunnel _ (Below k) d (tunnel.feed_incoming message)
        (λ _ t _. after_feed-Below tunnel k (record d { tunnel = t }) h more)

  on_handshake-Below :
      (outer : TeapOuter) (d : TeapDriver T I)
      → d.phase ≡ Phase.handshake
      → Post (Below (stage_of Phase.handshake d.rounds)) (Driver.on_handshake tunnel outer d)
  unfolding Driver.on_handshake Driver.count_round ◌>>=◌
  on_handshake-Below outer d e =
      let k : ℕ = 66 + (64 - d.rounds) in
      let counted = record d { rounds = saturating_add d.rounds 1 } in
      bind-require (Below k) counted (not (ltb max_handshake_rounds counted.rounds))
        handshake_rounds _
        (λ within.
          bind-push_outer (Below k) counted outer (λ m. Driver.handshake_message tunnel m)
            (λ m reasm.
              handshake_message-Below k m (record counted { reasm = reasm })
                (subst (λ p. stage_of p (saturating_add d.rounds 1) < k) (sym e)
                  (let c = counts d.rounds within in omega arith))
                (let c = counts d.rounds within in omega arith)))

  on_start-Below :
      (outer : TeapOuter) (d : TeapDriver T I) → Post (Below 131) (Driver.on_start tunnel outer d)
  unfolding Driver.on_start ◌>>=◌
  on_start-Below outer d = bind-require (Below 131) d outer.start expected_start _ (λ _.
      bind-on_tunnel _ (Below 131) (record d { phase = Phase.handshake }) tunnel.take_outgoing
        (λ hello t _.
          send_tls_message-Below 131 hello (record d { phase = Phase.handshake; tunnel = t })
            (omega arith)))

module _ {T I : Type 0} (tunnel : Tunnel T) (process : I → List ℕ → InnerStep × I) where
  on_tlvs-Post :
      (k : ℕ) (m : List RawTlv) (d : TeapDriver T I)
      → stage d < k
      → Post (λ _ e. stage e < k) (Driver.on_tlvs tunnel process m d)
  unfolding Driver.on_tlvs
  on_tlvs-Post k m d h = at_session d.session
    where
      stepped :
          (p : Answer × TeapSession I)
          → Post
              (λ _ e. stage e < k)
              (map_err DriverError.session p.0, record d { session = some p.1 })
      stepped (ok st, t) = h
      stepped (err e, t) = tt

      at_session :
          (o : Option (TeapSession I))
          → Post (λ _ e. stage e < k) (Driver.step_session tunnel process o m d)
      at_session none = tt
      at_session (some s) = stepped (Machine.step process s m)

  on_session_step-Below :
      (k : ℕ) (st : Step) (d : TeapDriver T I)
      → stage d < k
      → 0 < k
      → Post (Below k) (Driver.on_session_step tunnel process st d)
  unfolding Driver.on_session_step
  on_session_step-Below k (continues out) d h more =
      Post-bind (Driver.protect_tlvs tunnel out) Driver.send_tls_message d (λ _ e. stage e < k)
        (Below k) (Post-protect_tlvs tunnel out d (λ e. stage e < k) (λ _ _ _ _. h))
        (λ bytes e g. send_tls_message-Below k bytes e g)
  on_session_step-Below k (done send outcome) d h more =
      Post-bind (Driver.protect_tlvs tunnel send) _ d (λ _ _. Unit {0}) (Below k)
        (Post-protect_tlvs tunnel send d (λ _. Unit {0}) (λ _ _ _ _. tt))
        (λ bytes e _.
          unfold ◌>>=◌ in
          send_tls_message-Below k bytes
            (record e { phase = Phase.terminated; pending = some outcome }) more)

  phase2_message-Below :
      (k : ℕ) (m : Option (List ℕ)) (d : TeapDriver T I)
      → stage d < k
      → 0 < k
      → Post (Below k) (Driver.phase2_message tunnel process m d)
  unfolding Driver.on_records
  phase2_message-Below k none d h more = respond_with-Post (Below k) (ack teap_version) d (λ _. h)
  phase2_message-Below k (some records) d h more =
      bind-on_tunnel _ (Below k) d (tunnel.unprotect records) (λ plaintext t _.
        bind-lift _ (Below k) (record d { tunnel = t }) decode (parse_all plaintext)
          (λ m _.
            Post-bind (Driver.on_tlvs tunnel process m) (Driver.on_session_step tunnel process)
              (record d { tunnel = t }) (λ _ e. stage e < k) (Below k)
              (on_tlvs-Post k m (record d { tunnel = t }) h)
              (λ st e g. on_session_step-Below k st e g more)))

  on_phase2-Below :
      (outer : TeapOuter) (d : TeapDriver T I)
      → d.phase ≡ Phase.phase2
      → Post (Below (stage_of Phase.phase2 d.rounds)) (Driver.on_phase2 tunnel process outer d)
  unfolding Driver.on_phase2 Driver.count_round ◌>>=◌
  on_phase2-Below outer d e =
      let k : ℕ = 1 + (64 - d.rounds) in
      let counted = record d { rounds = saturating_add d.rounds 1 } in
      bind-require (Below k) counted (not (ltb max_phase2_rounds counted.rounds)) phase2_rounds _
        (λ within.
          bind-push_outer (Below k) counted outer (Driver.phase2_message tunnel process) (λ m reasm.
            phase2_message-Below k m (record counted { reasm = reasm })
              (subst (λ p. stage_of p (saturating_add d.rounds 1) < k) (sym e)
                (let c = counts d.rounds within in omega arith))
              (omega arith)))

  pub dispatch-Below :
      (p : Phase) (outer : TeapOuter) (d : TeapDriver T I)
      → d.phase ≡ p
      → Post (Below (stage_of p d.rounds)) (Driver.dispatch tunnel process p outer d)
  unfolding Driver.dispatch
  dispatch-Below Phase.expect_start outer d e = on_start-Below tunnel outer d
  dispatch-Below Phase.handshake outer d e = on_handshake-Below tunnel outer d e
  dispatch-Below Phase.phase2 outer d e = on_phase2-Below outer d e
  dispatch-Below Phase.terminated outer d e = tt
