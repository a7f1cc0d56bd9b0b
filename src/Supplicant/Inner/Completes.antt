-- ===== src/Supplicant/Inner/Completes.antt =====
-- crates/supplicant/src/inner_tls.rs: the methods of the inner method and `Good`.
use usg_supplicant.Common.{
  ℕ, Bool, true, false, not, ◌&&◌, List, Option, none, some, ok, ok_or, is_empty, get_range,
  if◌then◌else◌, ◌≡◌, refl, sym, subst, Bool-cases, inl, inr,
}
use usg_supplicant.Common.Exec.{Post, Post-lift, lift, pure, ◌>>=◌, ◌>>◌}
use usg_supplicant.Fips.{Tunnel}
use usg_supplicant.Eap
use usg_supplicant.KeySchedule.{imsk_len}
use usg_supplicant.Outer.{TeapOuter, ack, is_ack, parse}
use usg_supplicant.Session.Types.{InnerStep}
use usg_supplicant.Supplicant.Inner
use usg_supplicant.Supplicant.Driver
use usg_supplicant.Supplicant.Inner.{
  eap_tls_type, eap_tls_version, eap_tls_exporter_label, eap_tls_key_len, InnerTlsError, State,
  EapTlsInner, Act, process,
}
use usg_supplicant.Supplicant.Inner.Completion.{
  StateSound, InnerSound, Good, respond_with-Good, send_tls-Good, next_fragment-Good,
  bind-on_tunnel, bind-push_outer, bind-require,
}

module _ {T : Type 0} (tunnel : Tunnel T) where
  -- Behind a `finish_handshake` that let the tunnel pass.
  finished_flight-Good :
      (flight : List ℕ) (s : EapTlsInner T) (before : T)
      → tunnel.finish_handshake before ≡ (ok tt, s.tunnel)
      → Post (Good tunnel) ((Inner.set_state State.await_commitment >> Inner.send_tls flight) s)
  unfolding ◌>>=◌
  finished_flight-Good flight s before f =
      send_tls-Good tunnel flight (record s { state = State.await_commitment }) (before, f)

  -- In the handshake nothing is asked of the tunnel yet.
  at_handshake : (s : EapTlsInner T) → s.state ≡ State.handshake → InnerSound tunnel s
  at_handshake s e = subst (λ x. StateSound tunnel x s.tunnel) (sym e) tt

  after_feed-Good :
      (s : EapTlsInner T)
      → s.state ≡ State.handshake
      → Post (Good tunnel) (Inner.after_feed tunnel s)
  unfolding Inner.after_feed Inner.continue_handshake Inner.complete_handshake
  after_feed-Good s e = elim (Bool-cases (tunnel.is_handshaking s.tunnel)) [
    | inl b ↦ rw b (
        bind-on_tunnel tunnel (Good tunnel) s _ tunnel.take_outgoing (λ flight t _.
          send_tls-Good tunnel flight (record s { tunnel = t })
            (at_handshake (record s { tunnel = t }) e)))
    | inr b ↦ rw b (
        bind-on_tunnel tunnel (Good tunnel) s _ tunnel.take_outgoing (λ flight t _.
          bind-on_tunnel tunnel (Good tunnel) (record s { tunnel = t }) _ tunnel.finish_handshake
            (λ _ u f. finished_flight-Good flight (record s { tunnel = u }) t f)))
  ]

  handshake_message-Good :
      (m : Option (List ℕ)) (s : EapTlsInner T)
      → s.state ≡ State.handshake
      → Post (Good tunnel) (Inner.handshake_message tunnel m s)
  handshake_message-Good none s e =
      respond_with-Good tunnel (ack eap_tls_version) s (at_handshake s e)
  handshake_message-Good (some records) s e =
      bind-on_tunnel tunnel (Good tunnel) s _ (tunnel.feed_incoming records)
        (λ _ t _. after_feed-Good (record s { tunnel = t }) e)

  on_handshake-Good :
      (outer : TeapOuter) (s : EapTlsInner T)
      → s.state ≡ State.handshake
      → Post (Good tunnel) (Inner.on_handshake tunnel outer s)
  unfolding Inner.on_handshake Inner.on_started Inner.open_handshake ◌>>=◌
  on_handshake-Good outer s e = at_started s.started
    where
      at_started :
          (b : Bool)
          → Post
              (Good tunnel)
              ((if b then Inner.on_started tunnel outer else Inner.open_handshake tunnel outer) s)
      at_started true =
          bind-push_outer tunnel (Good tunnel) s outer (λ m. Inner.handshake_message tunnel m)
            (λ m reasm. handshake_message-Good m (record s { reasm = reasm }) e)
      at_started false =
          let s' = record s { started = true } in
          bind-require tunnel (Good tunnel) s outer.start _ (λ _.
            bind-on_tunnel tunnel (Good tunnel) s' (λ hello. Inner.send_tls hello)
              tunnel.take_outgoing
              (λ hello t _.
                send_tls-Good tunnel hello (record s' { tunnel = t })
                  (at_handshake (record s' { tunnel = t }) e)))

  commitment_message-Good :
      (m : Option (List ℕ)) (s : EapTlsInner T) (before : T)
      → s.state ≡ State.await_commitment
      → tunnel.finish_handshake before ≡ (ok tt, s.tunnel)
      → Post (Good tunnel) (Inner.commitment_message tunnel m s)
  unfolding ◌>>=◌
  commitment_message-Good none s before e f =
      respond_with-Good tunnel (ack eap_tls_version) s
        (subst (λ x. StateSound tunnel x s.tunnel) (sym e) (before, f))
  commitment_message-Good (some records) s before e f =
      bind-require tunnel (Good tunnel) s (not (is_empty records)) _ (λ _.
        Post-lift (Good tunnel) _ (λ _. InnerTlsError.protocol)
          (tunnel.export_keying_material eap_tls_exporter_label eap_tls_key_len s.tunnel) s
          (λ key exported. cut key exported (get_range 0 imsk_len key) refl))
    where
      cut :
          (key : List ℕ)
          → tunnel.export_keying_material eap_tls_exporter_label eap_tls_key_len s.tunnel ≡ ok key
          → (o : Option (List ℕ)) → get_range 0 imsk_len key ≡ o
          → Post (Good tunnel) (
              (lift (ok_or o InnerTlsError.protocol) >>= λ imsk.
              Inner.set_state State.done >> pure (InnerStep.finished imsk))
                s)
      cut key x none g = tt
      cut key x (some imsk) g =
          (record { before = before; key = key; finished = f; exported = x; cut = g }, refl)

  on_commitment-Good :
      (outer : TeapOuter) (s : EapTlsInner T) (before : T)
      → s.state ≡ State.await_commitment
      → tunnel.finish_handshake before ≡ (ok tt, s.tunnel)
      → Post (Good tunnel) (Inner.on_commitment tunnel outer s)
  unfolding Inner.on_commitment
  on_commitment-Good outer s before e f =
      bind-push_outer tunnel (Good tunnel) s outer (λ m. Inner.commitment_message tunnel m)
        (λ m reasm. commitment_message-Good m (record s { reasm = reasm }) before e f)

  dispatch-Good :
      (q : State) (outer : TeapOuter) (s : EapTlsInner T)
      → s.state ≡ q
      → InnerSound tunnel s
      → Post (Good tunnel) (Inner.dispatch tunnel q outer s)
  unfolding Inner.dispatch
  dispatch-Good State.handshake outer s e h = on_handshake-Good outer s e
  dispatch-Good State.await_commitment outer s e h =
      let (before, f) : (before : T) × (tunnel.finish_handshake before ≡ (ok tt, s.tunnel)) =
        subst (λ x. StateSound tunnel x s.tunnel) e h in
      on_commitment-Good outer s before e f
  dispatch-Good State.done outer s e h = tt
  dispatch-Good State.failed outer s e h = tt

  on_outer-Good :
      (outer : TeapOuter) (s : EapTlsInner T)
      → InnerSound tunnel s
      → Post (Good tunnel) (Inner.on_outer tunnel outer s)
  unfolding Inner.on_outer
  on_outer-Good outer s h = elim (Bool-cases (is_ack outer && not (is_empty s.out_queue))) [
    | inl e ↦ rw e (next_fragment-Good tunnel s h)
    | inr e ↦ rw e (dispatch-Good s.state outer s refl h)
  ]

  pub try_process-Good :
      (inner_eap : List ℕ) (s : EapTlsInner T)
      → InnerSound tunnel s
      → Post (Good tunnel) (Inner.try_process tunnel inner_eap s)
  unfolding Inner.try_process ◌>>=◌
  try_process-Good inner_eap s h =
      bind-require tunnel (Good tunnel) s (not (Inner.is_over s.state)) _ (λ _.
        Post-lift (Good tunnel) _ (λ _. InnerTlsError.protocol) (Eap.decode inner_eap) s
          (λ pkt _.
            bind-require tunnel (Good tunnel) s
              (Inner.is_request pkt.code && Driver.is_type eap_tls_type pkt.type_) _
              (λ _.
                Post-lift (Good tunnel) (Inner.on_outer tunnel) (λ _. InnerTlsError.protocol)
                  (parse pkt.body) (record s { last_id = pkt.id })
                  (λ outer _. on_outer-Good outer (record s { last_id = pkt.id }) h))))
