-- ===== src/Supplicant/Measure.antt =====
-- crates/supplicant/src/driver.rs: what an answer uses up, in the methods behind one fragment.
use usg_supplicant.Common.{
  ℕ, List, [], ◌∷◌, Option, none, some, Result, ok, err, ◌+◌, ◌-◌, ◌<◌, ◌≡◌, inl, inr, refl,
  Bool-cases, ok_or, length, arith,
}
use usg_supplicant.Common.Exec.{Post, Post-bind, ◌>>=◌}
use usg_supplicant.Fips.{Tunnel}
use usg_supplicant.Tlv.Error.{TlvError}
use usg_supplicant.Eap
use usg_supplicant.Outer.{TeapOuter, teap_version, ack}
use usg_supplicant.Outer.Fragment.{fragment}
use usg_supplicant.Session.Flow
use usg_supplicant.Supplicant.Types.{
  DriverStep, tls, protocol, Phase, TeapDriver, inner_used, seed_rejected,
}
use usg_supplicant.Supplicant.Rules.{bind-lift, bind-on_tunnel}
use usg_supplicant.Supplicant.Driver
use usg_supplicant.Supplicant.Driver.{Act}

-- An upper bound on the answers that are left, the queued fragments aside.
abbrev pub stage_of : Phase → (rounds : ℕ) → ℕ
stage_of Phase.expect_start rounds = 131
stage_of Phase.handshake rounds = 66 + (64 - rounds)
stage_of Phase.phase2 rounds = 1 + (64 - rounds)
stage_of Phase.terminated rounds = 0

module _ {T I : Type 0} where
  abbrev pub stage : TeapDriver T I → ℕ
  stage d = stage_of d.phase d.rounds

  -- An answer leaves a stage below `k`.
  abbrev pub Below : ℕ → DriverStep → TeapDriver T I → Type 0
  Below k (DriverStep.respond bytes) d = stage d < k
  Below k (DriverStep.finished send outcome) d = Unit {0}

  -- An answer leaves the stage at `k` and the queue at `n`.
  abbrev pub Kept : (k n : ℕ) → DriverStep → TeapDriver T I → Type 0
  Kept k n (DriverStep.respond bytes) d = (stage d ≡ k) × (length d.out_queue ≡ n)
  Kept k n (DriverStep.finished send outcome) d = Unit {0}

  responded-Post :
      (Q : DriverStep → TeapDriver T I → Type 0) (r : Result TlvError (List ℕ)) (d : TeapDriver T I)
      → ((bytes : List ℕ) → Q (DriverStep.respond bytes) d)
      → Post Q (Driver.responded r, d)
  responded-Post Q (ok bytes) d h = h bytes
  responded-Post Q (err e) d h = tt

  pub respond_with-Post :
      (Q : DriverStep → TeapDriver T I → Type 0) (outer : TeapOuter) (d : TeapDriver T I)
      → ((bytes : List ℕ) → Q (DriverStep.respond bytes) d)
      → Post Q (Driver.respond_with outer d)
  unfolding Driver.respond_with
  respond_with-Post Q outer d h =
      responded-Post Q (Eap.encode (Driver.response d.last_id outer)) d h

  pub send_tls_message-Below :
      (k : ℕ) (message : List ℕ) (d : TeapDriver T I)
      → stage d < k
      → Post (Below k) (Driver.send_tls_message message d)
  unfolding Driver.send_tls_message ◌>>=◌
  send_tls_message-Below k message d h = queued (fragment message d.cfg.max_fragment teap_version)
    where
      queued : (frags : List TeapOuter) → Post (Below k) (Driver.queue_fragments frags d)
      queued [] =
          respond_with-Post (Below k) (ack teap_version) (record d { out_queue = [] }) (λ _. h)
      queued (first ∷ frags) =
          respond_with-Post (Below k) first (record d { out_queue = frags }) (λ _. h)

  pub pop_fragment-Kept :
      (outer : TeapOuter) (frags : List TeapOuter) (d : TeapDriver T I)
      → Post (Kept (stage d) (length frags)) (Driver.pop_fragment (outer ∷ frags) d)
  unfolding ◌>>=◌
  pop_fragment-Kept outer frags d =
      respond_with-Post (Kept (stage d) (length frags)) outer (record d { out_queue = frags })
        (λ _. (refl, refl))

module _ {T I : Type 0} (tunnel : Tunnel T) where
  -- Phase 2 starts with no round counted.
  start_phase2-Post :
      (d : TeapDriver T I) → Post (λ _ e. stage e < 66) (Driver.start_phase2 tunnel d)
  unfolding Driver.start_phase2 Driver.take_inner ◌>>=◌
  start_phase2-Post d =
      let Fresh : Unit {0} → TeapDriver T I → Type 0 = λ _ e. stage e < 66 in
      bind-lift _ Fresh d tls (tunnel.session_key_seed d.tunnel) (λ seed _.
        bind-lift _ Fresh d tls (tunnel.negotiated_mac d.tunnel)
          (λ mac _. with_inner seed mac d.inner))
    where
      with_inner :
          (seed : List ℕ) (mac : _) (o : Option I)
          → Post
              (λ _ e. stage e < 66)
              (((λ d. (ok_or o (protocol inner_used), record d { inner = none })) >>= λ inner.
                  Driver.make_session tunnel seed mac inner >>= λ begun. Driver.begin_phase2 begun)
                d)
      with_inner seed mac none = tt
      with_inner seed mac (some inner) =
          bind-lift _ (λ (_ : Unit {0}) e. stage e < 66) (record d { inner = none })
            (λ _. protocol seed_rejected) (Flow.new (Driver.session_config d.cfg) seed mac inner)
            (λ s e. omega arith)

  pub after_feed-Below :
      (k : ℕ) (d : TeapDriver T I)
      → stage d < k
      → 65 < k
      → Post (Below k) (Driver.after_feed tunnel d)
  unfolding Driver.after_feed Driver.continue_handshake Driver.complete_handshake
  after_feed-Below k d h more = elim (Bool-cases (tunnel.is_handshaking d.tunnel)) [
    | inl e ↦ rw e (
        bind-on_tunnel _ (Below k) d tunnel.take_outgoing
          (λ flight t _. send_tls_message-Below k flight (record d { tunnel = t }) h))
    | inr e ↦ rw e (
        bind-on_tunnel _ (Below k) d tunnel.take_outgoing (λ flight t _.
          bind-on_tunnel _ (Below k) (record d { tunnel = t }) tunnel.finish_handshake
            (λ _ u _.
              Post-bind (Driver.start_phase2 tunnel) (λ _. Driver.send_tls_message flight)
                (record d { tunnel = u }) (λ _ e. stage e < 66) (Below k)
                (start_phase2-Post (record d { tunnel = u }))
                (λ _ e g. send_tls_message-Below k flight e (omega arith)))))
  ]
