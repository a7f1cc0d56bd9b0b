-- ===== src/Supplicant/Carried.antt =====
-- crates/supplicant/src/driver.rs: what a message does to a session over the tunnel.
use usg_supplicant.Common.{
  ℕ, List, Option, none, some, ok, err, map_err, ◌≡◌, sym, subst, ◌∙◌, inl, inr,
}
use usg_supplicant.Common.Exec.{Post}
use usg_supplicant.Fips.{Tunnel}
use usg_supplicant.Tlv.Raw.{RawTlv, parse_all}
use usg_supplicant.Session.Types.{
  InnerStep, success, failure, Step, continues, done, TeapSession, Answer,
}
use usg_supplicant.Session.Machine
use usg_supplicant.Session.Stages.{Confirmed, Keyed}
use usg_supplicant.Session.Confirmed.{Answered, Concluded, step-Answered}
use usg_supplicant.Session.Sourced.{Sourced, Derived, AnswerSourced}
use usg_supplicant.Session.Sourced.Run.{step-AnswerSourced}
use usg_supplicant.Supplicant.Types.{DriverError, Phase, TeapDriver}
use usg_supplicant.Supplicant.Driver
use usg_supplicant.Supplicant.Driver.{Act}
use usg_supplicant.Supplicant.Evidence.{
  unprotected, Received, Authentic, OutcomeSound, PendingSound, SessionSound, OptionSound,
}

module _ {T I : Type 0} (tunnel : Tunnel T) (process : I → List ℕ → InnerStep × I) (origin : T)
    (start : I) where
  -- A key after a step that goes on is still backed.
  SessionSound-step :
      (now : T) (s t : TeapSession I) (m : List RawTlv)
      (h : SessionSound tunnel process origin start now s)
      → Received tunnel h.handshake.established m
      → (t.mac ≡ s.mac) × Keyed s m t
      → Sourced process start h.handshake.first h.handshake.mac t
      → SessionSound tunnel process origin start now t
  SessionSound-step now s t m h got (e, inl k) src = record {
    handshake = h.handshake;
    reached = h.reached;
    sourced = src;
    backed = λ cmk has. h.backed cmk (sym k ∙ has);
  }
  SessionSound-step now s t m h got (e, inr (key, k, c)) src =
      let (_, _, _, same_mac) = h.sourced in
      record {
        handshake = h.handshake;
        reached = h.reached;
        sourced = src;
        backed = λ cmk has.
            let same : key ≡ cmk = cc (sym k ∙ has) in
            (
              m,
              got,
              subst (λ x. Confirmed x cmk m) same_mac (subst (λ x. Confirmed s.mac x m) same c),
            );
      }

  -- The message that confirmed the key of a success.
  Concluded-backed :
      (now : T) (s t : TeapSession I) (m : List RawTlv) (msk emsk : List ℕ)
      (h : SessionSound tunnel process origin start now s)
      → Received tunnel h.handshake.established m
      → (c : Concluded s m msk emsk t)
      → (n : List RawTlv) × Received tunnel h.handshake.established n
        × Confirmed h.handshake.mac c.cmk n
  Concluded-backed now s t m msk emsk h got c =
      let (_, _, _, same_mac) = h.sourced in
      elim c.has_cmk [
        | inl had ↦ h.backed c.cmk had
        | inr f ↦ (m, got, subst (λ x. Confirmed x c.cmk m) same_mac f)
      ]

  -- A success of the session is authentic.
  Concluded-Authentic :
      (now : T) (s t : TeapSession I) (m : List RawTlv) (msk emsk : List ℕ)
      (h : SessionSound tunnel process origin start now s)
      → Received tunnel h.handshake.established m
      → Concluded s m msk emsk t
      → Derived process start h.handshake.first h.handshake.mac t msk emsk
      → Authentic tunnel process origin start msk emsk
  Concluded-Authentic now s t m msk emsk h got c (a, keys) =
      let (n, r, f) = Concluded-backed now s t m msk emsk h got c in
      let same : c.cmk ≡ a.cmk = cc (sym c.stored ∙ a.stored) in
      record {
        handshake = h.handshake;
        imsk = a.imsk;
        cmk = a.cmk;
        ks = t.ks;
        message = n;
        released = a.released;
        absorbed = a.absorbed;
        received = r;
        confirmed = subst (λ x. Confirmed h.handshake.mac x n) same f;
        keys = keys;
      }

  -- What a step of the session leaves for the driver.
  abbrev pub Stepped : Step → TeapDriver T I → Type 0
  Stepped (continues out) e =
      (e.phase ≡ Phase.phase2)
      × OptionSound tunnel process origin start e.tunnel e.session
      × PendingSound tunnel process origin start e.pending
  Stepped (done send outcome) e = OutcomeSound tunnel process origin start outcome

  Answered-Stepped :
      (s : TeapSession I) (m : List RawTlv) (d : TeapDriver T I) (p : Answer × TeapSession I)
      (h : SessionSound tunnel process origin start d.tunnel s)
      → Received tunnel h.handshake.established m
      → d.phase ≡ Phase.phase2
      → PendingSound tunnel process origin start d.pending
      → Answered process s m p
      → AnswerSourced process start h.handshake.first h.handshake.mac p.0 p.1
      → Post Stepped (map_err DriverError.session p.0, record d { session = some p.1 })
  Answered-Stepped s m d (ok (continues out), t) h got phase pend a src =
      (phase, SessionSound-step d.tunnel s t m h got a src, pend)
  Answered-Stepped s m d (ok (done send (success msk emsk mat)), t) h got phase pend a src =
      Concluded-Authentic d.tunnel s t m msk emsk h got a src
  Answered-Stepped s m d (ok (done send (failure reason)), t) h got phase pend a src = tt
  Answered-Stepped s m d (err e, t) h got phase pend a src = tt

  -- The message of the records that the tunnel opened on the way to its present state.
  unfoldable pub Opened : T → T → List RawTlv → Type 0
  Opened before after m =
      (records plaintext : List ℕ) × (tunnel.unprotect records before ≡ (ok plaintext, after))
      × (parse_all plaintext ≡ ok m)

  pub on_tlvs-Post :
      (m : List RawTlv) (before : T) (d : TeapDriver T I)
      → Opened before d.tunnel m
      → d.phase ≡ Phase.phase2
      → OptionSound tunnel process origin start before d.session
      → PendingSound tunnel process origin start d.pending
      → Post Stepped (Driver.on_tlvs tunnel process m d)
  unfolding Driver.on_tlvs Opened
  on_tlvs-Post m before d (records, plaintext, opened, parsed) phase h pend = at_session d.session h
    where
      at_session :
          (o : Option (TeapSession I))
          → OptionSound tunnel process origin start before o
          → Post Stepped (Driver.step_session tunnel process o m d)
      at_session none h = tt
      at_session (some s) h =
          let here : SessionSound tunnel process origin start d.tunnel s = record {
            handshake = h.handshake;
            reached = unprotected h.reached opened;
            sourced = h.sourced;
            backed = h.backed;
          } in
          let got : Received tunnel h.handshake.established m = record {
            records = records;
            before = before;
            after = d.tunnel;
            plaintext = plaintext;
            reached = h.reached;
            opened = opened;
            parsed = parsed;
          } in
          Answered-Stepped s m d (Machine.step process s m) here got phase pend
            (step-Answered process s m)
            (step-AnswerSourced process start h.handshake.first h.handshake.mac s m h.sourced)
