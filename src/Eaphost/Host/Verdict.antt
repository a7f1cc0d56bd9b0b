-- ===== src/Eaphost/Host/Verdict.antt =====
-- crates/eaphost/src/peer.rs: what stands behind a success that EAPHost is told of.
use mathlib.Core.List.{Memᴰ}
use usg_supplicant.Common.{
  ℕ, Bool, true, false, List, Option, none, some, ok, is_empty, ◌≡◌, refl, subst,
}
use usg_supplicant.Common.Assoc.{get}
use usg_supplicant.Fips.Client.{Connection, Library, tunnel}
use usg_supplicant.Fips.Connect.{Rustls, connection, connect}
use usg_supplicant.Fips.Gate.{Approved}
use usg_supplicant.Session.Types.{FailReason}
use usg_supplicant.Supplicant.Inner
use usg_supplicant.Supplicant.Inner.{EapTlsInner}
use usg_supplicant.Supplicant.Builder.{Wired}
use usg_supplicant.Supplicant.Evidence.{Authentic}
use usg_supplicant.Eaphost.Config.{SessionConfigBlob, from_bytes}
use usg_supplicant.Eaphost.Builder
use usg_supplicant.Eaphost.Builder.{KeyStores}
use usg_supplicant.Eaphost.Peer
use usg_supplicant.Eaphost.Peer.{TeapStep, AuthResult, PeerSession}
use usg_supplicant.Eaphost.Peer.Verdict.{
  teap_step, PeerSound, ResultSound, process-PeerSound, new-PeerSound,
}
use usg_supplicant.Eaphost.Peer.Approved.{
  InnerApproved, Handshaken-Approved, Released-InnerApproved,
}
use usg_supplicant.Eaphost.Registry
use usg_supplicant.Eaphost.Host
use usg_supplicant.Eaphost.Host.{World, Platform, Host}
use usg_supplicant.Eaphost.Host.Entry.{
  Prepared, Entry, begins, prepare, driver_config_of, run, get_result, is_success,
}
use usg_supplicant.Eaphost.Host.Keeps.{run-new-AllLive}
use usg_supplicant.Eaphost.Host.Prepared.{Assembled, prepare-Passed, build_driver-Assembled}

module _ {R B F C : Type 0} (stores : KeyStores R) (rustls : Rustls R B F C) (lib : Connection C)
    (libs : Library) (utf8 trust_anchor : List ℕ → Bool) (reason_text : FailReason → List ℕ) where
  abbrev pub platform : Platform (Wired C)
  platform = record {
    utf8 = utf8;
    trust_anchor = trust_anchor;
    build_driver = Builder.build_driver stores rustls;
    reason_text = reason_text;
  }

  abbrev pub steps : TeapStep (Wired C)
  steps = teap_step (tunnel lib libs) (Inner.process (tunnel lib libs))

  -- A live session: one of the calls began it, under the FIPS policy, with a profile that has trust
  -- anchors, and its driver is that of the profile.
  pub record Profiled (es : List Entry) : Type 0 where
    pub w : World
    pub blob : List ℕ
    pub cfg : SessionConfigBlob
    pub d : Wired C
    pub begun : Memᴰ (begins w blob) es
    pub fips : w.fips ≡ true
    pub parsed : from_bytes utf8 blob ≡ ok cfg
    pub rooted : is_empty cfg.roots ≡ false
    pub assembled : Assembled stores rustls cfg d

  abbrev LiveSound : List Entry → PeerSession (Wired C) → Type 0
  LiveSound es s =
      (p : Profiled es) × PeerSound (tunnel lib libs) (Inner.process (tunnel lib libs)) p.d.tunnel
        p.assembled.inner s

  started :
      (es : List Entry) (w : World) (blob : List ℕ) (p : Prepared (Wired C))
      → Memᴰ (begins w blob) es
      → prepare platform w blob ≡ some p
      → LiveSound es (Peer.new p.kind p.driver)
  started es w blob p begun e =
      let passed = prepare-Passed platform w blob p e in
      let a =
        build_driver-Assembled stores rustls passed.cfg p.driver passed.thumbprint passed.built in
      (
        record {
          w = w;
          blob = blob;
          cfg = passed.cfg;
          d = p.driver;
          begun = begun;
          fips = passed.fips;
          parsed = passed.parsed;
          rooted = passed.rooted;
          assembled = a;
        },
        new-PeerSound (tunnel lib libs) (Inner.process (tunnel lib libs))
            (driver_config_of passed.cfg) (connect rustls a.config passed.cfg.server_name) a.inner
            p.kind p.driver a.made,
      )

  -- What a session with this result has behind it.
  pub record Admitted (es : List Entry) (msk : List ℕ) : Type 0 where
    pub profiled : Profiled es
    pub emsk : List ℕ
    pub authentic :
        Authentic
          (tunnel lib libs)
          (Inner.process (tunnel lib libs))
          profiled.d.tunnel
          profiled.assembled.inner
          msk
          emsk
    pub approved : Approved lib libs authentic.handshake.mac
    pub inner_approved : InnerApproved lib libs authentic.imsk

  admitted :
      (es : List Entry) (s : PeerSession (Wired C)) (msk : List ℕ) (mat : Option (List ℕ))
      → s.result ≡ some (AuthResult.success msk mat)
      → LiveSound es s
      → Admitted es msk
  admitted es s msk mat e (p, sound) =
      let a = p.assembled in
      let (emsk, authentic) : (emsk : List ℕ) × Authentic (tunnel lib libs)
            (Inner.process (tunnel lib libs)) p.d.tunnel a.inner msk emsk =
        subst
          (λ r.
            ResultSound (tunnel lib libs) (Inner.process (tunnel lib libs)) p.d.tunnel a.inner r)
          e (sound.1) in
      record {
        profiled = p;
        emsk = emsk;
        authentic = authentic;
        approved = Handshaken-Approved lib libs authentic.handshake;
        inner_approved =
            Released-InnerApproved lib libs (connection rustls a.inner_config p.cfg.server_name)
              p.cfg.max_fragment a.inner authentic.imsk a.inner_made authentic.released;
      }

  -- If, after any calls of the entry points on a new host, in any order and for any handles, the
  -- result of a handle is reported as a success, then the result of that session has an MSK, and:
  -- one of the calls began a session while the FIPS policy of the system was on, with connection
  -- data that hold at least one trust anchor; a driver was built from these, whose two TLS clients
  -- have these anchors and expect the server that the data name, the inner one with the credential
  -- of the identity they name; and the MSK is authentic in the run of that driver's outer client,
  -- under the approved SHA-384 MAC, over an inner key that an approved inner client exports.
  pub get_result-Admitted :
      (es : List Entry) (w : World) (handle : ℕ)
      → (get_result platform w handle (run platform steps Host.new es)).0 ≡ true
      → (msk : List ℕ) × (mat : Option (List ℕ)) × (Registry.result handle
            (run platform steps Host.new es).registry
          ≡ some (AuthResult.success msk mat))
        × Admitted es msk
  unfolding get_result Registry.result Peer.take_response
  get_result-Admitted es w handle e =
      at_session (get handle (run platform steps Host.new es).registry.sessions) refl e
    where
      at_result :
          (s : PeerSession (Wired C)) (o : Option AuthResult)
          → s.result ≡ o
          → LiveSound es s
          → is_success platform o ≡ true
          → (msk : List ℕ) × (mat : Option (List ℕ)) × (s.result
              ≡ some (AuthResult.success msk mat))
            × Admitted es msk
      at_result s none same live e = let no : ⊥ = cc e in elim no [ ]
      at_result s (some (AuthResult.failure reason)) same live e = let no : ⊥ = cc e in elim no [ ]
      at_result s (some (AuthResult.success msk mat)) same live e =
          (msk, mat, same, admitted es s msk mat same live)

      at_session :
          (o : Option (PeerSession (Wired C)))
          → get handle (run platform steps Host.new es).registry.sessions ≡ o
          → is_success platform (Registry.result_of o) ≡ true
          → (msk : List ℕ) × (mat : Option (List ℕ)) × (Registry.result_of o
              ≡ some (AuthResult.success msk mat))
            × Admitted es msk
      at_session none there e = let no : ⊥ = cc e in elim no [ ]
      at_session (some s) there e =
          at_result s s.result refl
            (run-new-AllLive platform steps (LiveSound es)
              (λ s eap (p, h). (
                p,
                process-PeerSound (tunnel lib libs) (Inner.process (tunnel lib libs)) p.d.tunnel
                    p.assembled.inner s eap h,
              ))
              (λ s h. h) es (started es) handle s there)
            e
