-- ===== src/Supplicant/Sound.antt =====
-- crates/supplicant/src/driver.rs: the methods of the driver and `DriverSound`.
use usg_supplicant.Common.{
  ℕ, not, List, [], ◌∷◌, Option, none, some, Result, ok, err, ◌≡◌, refl, sym, subst, ◌∙◌,
  Bool-cases, inl, inr, ltb, ok_or, arith, saturating_add,
}
use usg_supplicant.Common.Exec.{Post, Post-bind, ◌>>=◌}
use usg_supplicant.Fips.{Tunnel}
use usg_supplicant.Tlv.Error.{TlvError}
use usg_supplicant.Eap
use usg_supplicant.Eap.{EapPacket, EapCode}
use usg_supplicant.KeySchedule.{TeapMac}
use usg_supplicant.Outer.{TeapOuter, teap_version, ack}
use usg_supplicant.Outer.Fragment.{fragment}
use usg_supplicant.KeySchedule.{KeySchedule}
use usg_supplicant.KeySchedule
use usg_supplicant.Session.Types.{SessionConfig, InnerStep, TeapSession}
use usg_supplicant.Session.Sourced.{Sourced}
use usg_supplicant.Session.Sourced.Run.{MadeSourced, new-MadeSourced}
use usg_supplicant.Session.Flow
use usg_supplicant.Supplicant.Types.{
  max_handshake_rounds, DriverStep, tls, protocol, Phase, TeapDriver, expected_start,
  handshake_rounds, inner_used, seed_rejected,
}
use usg_supplicant.Supplicant.Rules.{bind-lift, bind-on_tunnel, bind-push_outer, bind-require}
use usg_supplicant.Supplicant.Driver
use usg_supplicant.Supplicant.Driver.{Act}
use usg_supplicant.Supplicant.Evidence.{
  at_origin, took, fed, Reached, PendingSound, StepSound, SessionSound, BeforeSound, LiveSound,
  DriverSound,
}

module _ {T I : Type 0} (tunnel : Tunnel T) (process : I → List ℕ → InnerStep × I) (origin : T)
    (start : I) where
  abbrev pub Good : DriverStep → TeapDriver T I → Type 0
  Good st d = StepSound tunnel process origin start st × DriverSound tunnel process origin start d

  responded-Good :
      (r : Result TlvError (List ℕ)) (d : TeapDriver T I)
      → DriverSound tunnel process origin start d
      → Post Good (Driver.responded r, d)
  responded-Good (ok bytes) d h = (tt, h)
  responded-Good (err e) d h = tt

  pub respond_with-Good :
      (outer : TeapOuter) (d : TeapDriver T I)
      → DriverSound tunnel process origin start d
      → Post Good (Driver.respond_with outer d)
  unfolding Driver.respond_with
  respond_with-Good outer d h = responded-Good (Eap.encode (Driver.response d.last_id outer)) d h

  queue_fragments-Good :
      (frags : List TeapOuter) (d : TeapDriver T I)
      → DriverSound tunnel process origin start d
      → Post Good (Driver.queue_fragments frags d)
  unfolding ◌>>=◌
  queue_fragments-Good [] d h = respond_with-Good (ack teap_version) (record d { out_queue = [] }) h
  queue_fragments-Good (first ∷ frags) d h =
      respond_with-Good first (record d { out_queue = frags }) h

  pub send_tls_message-Good :
      (message : List ℕ) (d : TeapDriver T I)
      → DriverSound tunnel process origin start d
      → Post Good (Driver.send_tls_message message d)
  unfolding Driver.send_tls_message
  send_tls_message-Good message d h =
      queue_fragments-Good (fragment message d.cfg.max_fragment teap_version) d h

  pub next_out_fragment-Good :
      (d : TeapDriver T I)
      → DriverSound tunnel process origin start d
      → Post Good (Driver.next_out_fragment d)
  unfolding Driver.next_out_fragment ◌>>=◌
  next_out_fragment-Good d h = popped d.out_queue
    where
      popped : (frags : List TeapOuter) → Post Good (Driver.pop_fragment frags d)
      popped [] = respond_with-Good (ack teap_version) d h
      popped (outer ∷ frags) = respond_with-Good outer (record d { out_queue = frags }) h

  new_key :
      (cfg : SessionConfig) (seed : List ℕ) (mac : TeapMac) (inner : I) (s : TeapSession I)
      → Flow.new cfg seed mac inner ≡ ok s
      → s.cmk ≡ none
  unfolding Flow.new
  new_key cfg seed mac inner s e = ground arith

  -- A new session has no key yet, and its schedule is that of the handshake.
  new-SessionSound :
      (cfg : SessionConfig) (seed : List ℕ) (mac : TeapMac) (s : TeapSession I)
      (before established : T)
      → Reached tunnel origin before
      → tunnel.finish_handshake before ≡ (ok tt, established)
      → tunnel.session_key_seed established ≡ ok seed
      → tunnel.negotiated_mac established ≡ ok mac
      → Flow.new cfg seed mac start ≡ ok s
      → SessionSound tunnel process origin start established s
  new-SessionSound cfg seed mac s before established r f g n e =
      let (first, k, h) : (first : KeySchedule) × (KeySchedule.new seed ≡ ok first)
          × Sourced process start first mac s =
        subst (λ x. MadeSourced process seed mac start x) e
          (new-MadeSourced process cfg seed mac start) in
      record {
        handshake = record {
          before = before;
          established = established;
          mac = mac;
          seed = seed;
          first = first;
          reached = r;
          finished = f;
          named = n;
          seeded = g;
          scheduled = k;
        };
        reached = at_origin;
        sourced = h;
        backed =
            λ cmk has. let no : ⊥ = cc (sym (new_key cfg seed mac start s e) ∙ has) in elim no [ ];
      }

  start_phase2-Post :
      (before : T) (d : TeapDriver T I)
      → Reached tunnel origin before
      → tunnel.finish_handshake before ≡ (ok tt, d.tunnel)
      → ((i : I) → d.inner ≡ some i → i ≡ start)
      → PendingSound tunnel process origin start d.pending
      → Post (λ _ e. DriverSound tunnel process origin start e) (Driver.start_phase2 tunnel d)
  unfolding Driver.start_phase2 Driver.take_inner ◌>>=◌
  start_phase2-Post before d r f unused p =
      bind-lift _ (λ (_ : Unit {0}) e. DriverSound tunnel process origin start e) d tls
        (tunnel.session_key_seed d.tunnel)
        (λ seed seeded.
          bind-lift _ (λ (_ : Unit {0}) e. DriverSound tunnel process origin start e) d tls
            (tunnel.negotiated_mac d.tunnel)
            (λ mac named. with_inner seed mac seeded named d.inner refl))
    where
      with_inner :
          (seed : List ℕ) (mac : TeapMac)
          → tunnel.session_key_seed d.tunnel ≡ ok seed
          → tunnel.negotiated_mac d.tunnel ≡ ok mac
          → (o : Option I) → d.inner ≡ o
          → Post
              (λ _ e. DriverSound tunnel process origin start e)
              (((λ d. (ok_or o (protocol inner_used), record d { inner = none })) >>= λ inner.
                  Driver.make_session tunnel seed mac inner >>= λ begun. Driver.begin_phase2 begun)
                d)
      with_inner seed mac g n none e = tt
      with_inner seed mac g n (some inner) e =
          bind-lift _ (λ (_ : Unit {0}) e. DriverSound tunnel process origin start e)
            (record d { inner = none }) (λ _. protocol seed_rejected)
            (Flow.new (Driver.session_config d.cfg) seed mac inner)
            (λ s made. (
              new-SessionSound (Driver.session_config d.cfg) seed mac s before d.tunnel r f g n (
                  subst (λ i. Flow.new (Driver.session_config d.cfg) seed mac i ≡ ok s)
                    (unused inner e) made),
              p,
            ))

  -- Only the handshake is over what it has to be over.
  handshake-DriverSound :
      (d : TeapDriver T I)
      → d.phase ≡ Phase.handshake
      → BeforeSound tunnel process origin start d.tunnel d.inner
      → PendingSound tunnel process origin start d.pending
      → DriverSound tunnel process origin start d
  handshake-DriverSound d e h p =
      (subst (λ q. LiveSound tunnel process origin start q d.tunnel d.inner d.session) (sym e) h, p)

  complete_handshake-Good :
      (d : TeapDriver T I)
      → BeforeSound tunnel process origin start d.tunnel d.inner
      → PendingSound tunnel process origin start d.pending
      → Post Good (Driver.complete_handshake tunnel d)
  unfolding Driver.complete_handshake
  complete_handshake-Good d (r, unused) p =
      bind-on_tunnel _ Good d tunnel.take_outgoing (λ flight t e.
        bind-on_tunnel _ Good (record d { tunnel = t }) tunnel.finish_handshake
          (λ _ u f.
            Post-bind (Driver.start_phase2 tunnel) (λ _. Driver.send_tls_message flight)
              (record d { tunnel = u }) (λ _ e. DriverSound tunnel process origin start e) Good
              (start_phase2-Post t (record d { tunnel = u }) (took r e) f unused p)
              (λ _ e h. send_tls_message-Good flight e h)))

  after_feed-Good :
      (d : TeapDriver T I)
      → d.phase ≡ Phase.handshake
      → BeforeSound tunnel process origin start d.tunnel d.inner
      → PendingSound tunnel process origin start d.pending
      → Post Good (Driver.after_feed tunnel d)
  unfolding Driver.after_feed Driver.continue_handshake
  after_feed-Good d phase h p = elim (Bool-cases (tunnel.is_handshaking d.tunnel)) [
    | inl e ↦ rw e (
        bind-on_tunnel _ Good d tunnel.take_outgoing (λ flight t f.
          send_tls_message-Good flight (record d { tunnel = t })
            (handshake-DriverSound (record d { tunnel = t }) phase (took (h.0) f, h.1) p)))
    | inr e ↦ rw e (complete_handshake-Good d h p)
  ]

  handshake_message-Good :
      (m : Option (List ℕ)) (d : TeapDriver T I)
      → d.phase ≡ Phase.handshake
      → BeforeSound tunnel process origin start d.tunnel d.inner
      → PendingSound tunnel process origin start d.pending
      → Post Good (Driver.handshake_message tunnel m d)
  handshake_message-Good none d phase h p =
      respond_with-Good (ack teap_version) d (handshake-DriverSound d phase h p)
  handshake_message-Good (some message) d phase h p =
      bind-on_tunnel _ Good d (tunnel.feed_incoming message)
        (λ _ t e. after_feed-Good (record d { tunnel = t }) phase (fed (h.0) e, h.1) p)

  pub on_handshake-Good :
      (outer : TeapOuter) (d : TeapDriver T I)
      → d.phase ≡ Phase.handshake
      → BeforeSound tunnel process origin start d.tunnel d.inner
      → PendingSound tunnel process origin start d.pending
      → Post Good (Driver.on_handshake tunnel outer d)
  unfolding Driver.on_handshake Driver.count_round ◌>>=◌
  on_handshake-Good outer d phase h p =
      let counted = record d { rounds = saturating_add d.rounds 1 } in
      bind-require Good counted (not (ltb max_handshake_rounds counted.rounds)) handshake_rounds _
        (λ _.
          bind-push_outer Good counted outer (λ m. Driver.handshake_message tunnel m)
            (λ m reasm. handshake_message-Good m (record counted { reasm = reasm }) phase h p))

  pub on_start-Good :
      (outer : TeapOuter) (d : TeapDriver T I)
      → BeforeSound tunnel process origin start d.tunnel d.inner
      → PendingSound tunnel process origin start d.pending
      → Post Good (Driver.on_start tunnel outer d)
  unfolding Driver.on_start ◌>>=◌
  on_start-Good outer d h p = bind-require Good d outer.start expected_start _ (λ _.
      bind-on_tunnel _ Good (record d { phase = Phase.handshake }) tunnel.take_outgoing
        (λ hello t e.
          send_tls_message-Good hello (record d { phase = Phase.handshake; tunnel = t })
            ((took (h.0) e, h.1), p)))
