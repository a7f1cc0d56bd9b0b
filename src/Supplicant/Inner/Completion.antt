-- ===== src/Supplicant/Inner/Completion.antt =====
-- crates/supplicant/src/inner_tls.rs: what has to have happened before the inner method is done.
use usg_supplicant.Common.{
  ℕ, Bool, true, false, List, [], ◌∷◌, Option, some, Result, ok, err, get_range, ◌≡◌, refl,
}
use usg_supplicant.Common.Exec.{Post, Post-call, ◌>>=◌}
use usg_supplicant.Fips.{FipsTlsError, Tunnel}
use usg_supplicant.Tlv.Error.{TlvError}
use usg_supplicant.Eap
use usg_supplicant.KeySchedule.{imsk_len}
use usg_supplicant.Outer.{TeapOuter, ack}
use usg_supplicant.Outer.Reassembler
use usg_supplicant.Outer.Reassembler.{Reassembler}
use usg_supplicant.Outer.Fragment.{fragment}
use usg_supplicant.Session.Types.{InnerStep}
use usg_supplicant.Supplicant.Inner
use usg_supplicant.Supplicant.Inner.{
  eap_tls_type, eap_tls_version, eap_tls_exporter_label, eap_tls_key_len, InnerTlsError, State,
  EapTlsInner, Act, process,
}

-- The octets are the first 32 of the key that this state of the tunnel exports, and it is the state
-- that a `finish_handshake` left when it let the tunnel pass.
pub record Completed {T : Type 0} (tunnel : Tunnel T) (t : T) (imsk : List ℕ) : Type 0 where
  pub before : T
  pub key : List ℕ
  pub finished : tunnel.finish_handshake before ≡ (ok tt, t)
  pub exported : tunnel.export_keying_material eap_tls_exporter_label eap_tls_key_len t ≡ ok key
  pub cut : get_range 0 imsk_len key ≡ some imsk

module _ {T : Type 0} (tunnel : Tunnel T) where
  abbrev pub StateSound : State → T → Type 0
  StateSound State.await_commitment t = (before : T) × (tunnel.finish_handshake before ≡ (ok tt, t))
  StateSound State.handshake t = Unit {0}
  StateSound State.done t = Unit {0}
  StateSound State.failed t = Unit {0}

  abbrev pub InnerSound : EapTlsInner T → Type 0
  InnerSound s = StateSound s.state s.tunnel

  -- What a call may return, and what it leaves.
  abbrev pub Good : InnerStep → EapTlsInner T → Type 0
  Good (InnerStep.respond bytes) s = InnerSound s
  Good (InnerStep.finished imsk) s = Completed tunnel s.tunnel imsk × (s.state ≡ State.done)
  Good InnerStep.failed s = s.state ≡ State.failed

  responded-Good :
      (r : Result TlvError (List ℕ)) (s : EapTlsInner T)
      → InnerSound s
      → Post Good (Inner.responded r, s)
  responded-Good (ok bytes) s h = h
  responded-Good (err e) s h = tt

  pub respond_with-Good :
      (outer : TeapOuter) (s : EapTlsInner T)
      → InnerSound s
      → Post Good (Inner.respond_with outer s)
  unfolding Inner.respond_with
  respond_with-Good outer s h = responded-Good (Eap.encode (Inner.response s.last_id outer)) s h

  pub send_tls-Good :
      (message : List ℕ) (s : EapTlsInner T) → InnerSound s → Post Good (Inner.send_tls message s)
  unfolding Inner.send_tls ◌>>=◌
  send_tls-Good message s h = queued (fragment message s.max_fragment eap_tls_version)
    where
      queued : (frags : List TeapOuter) → Post Good (Inner.queue_fragments frags s)
      queued [] = respond_with-Good (ack eap_tls_version) (record s { out_queue = [] }) h
      queued (first ∷ frags) = respond_with-Good first (record s { out_queue = frags }) h

  pub next_fragment-Good : (s : EapTlsInner T) → InnerSound s → Post Good (Inner.next_fragment s)
  unfolding Inner.next_fragment ◌>>=◌
  next_fragment-Good s h = popped s.out_queue
    where
      popped : (frags : List TeapOuter) → Post Good (Inner.pop_fragment frags s)
      popped [] = respond_with-Good (ack eap_tls_version) s h
      popped (outer ∷ frags) = respond_with-Good outer (record s { out_queue = frags }) h

  module _ {B : Type 0} (Q : B → EapTlsInner T → Type 0) (s : EapTlsInner T) where
    pub bind-on_tunnel :
        {A : Type 0} (next : A → Act T B) (m : T → Result FipsTlsError A × T)
        → ((a : A) (t : T) → m s.tunnel ≡ (ok a, t) → Post Q (next a (record s { tunnel = t })))
        → Post Q ((Inner.on_tunnel m >>= next) s)
    unfolding ◌>>=◌
    bind-on_tunnel next m h =
        Post-call Q next (λ _. InnerTlsError.protocol) (m s.tunnel) (λ t. record s { tunnel = t }) s
          h

    pub bind-push_outer :
        (outer : TeapOuter) (next : Option (List ℕ) → Act T B)
        → ((m : Option (List ℕ)) (reasm : Reassembler)
            → Post Q (next m (record s { reasm = reasm })))
        → Post Q ((Inner.push_outer outer >>= next) s)
    unfolding ◌>>=◌ Inner.push_outer
    bind-push_outer outer next h =
        Post-call Q next (λ _. InnerTlsError.protocol) (Reassembler.push s.reasm outer)
          (λ reasm. record s { reasm = reasm }) s (λ m reasm _. h m reasm)

    pub bind-require :
        (b : Bool) (next : Unit {0} → Act T B)
        → (b ≡ true → Post Q (next tt s))
        → Post Q ((Inner.require b >>= next) s)
    unfolding ◌>>=◌
    bind-require true next h = h refl
    bind-require false next h = tt
