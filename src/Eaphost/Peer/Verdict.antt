-- ===== src/Eaphost/Peer/Verdict.antt =====
-- crates/eaphost/src/session.rs: what stands behind a success that the operating system sees.
use usg_supplicant.Common.{
  ℕ, Bool, true, false, List, [], ◌∷◌, Option, none, some, Result, ok, err, ◌≡◌, refl, sym, subst,
  if◌then◌else◌,
}
use usg_supplicant.Common.Exec.{Post}
use usg_supplicant.Fips.{FipsTlsError, Tunnel}
use usg_supplicant.Session.Types.{InnerStep, Outcome}
use usg_supplicant.Supplicant.Types.{DriverConfig, DriverStep, DriverError, TeapDriver}
use usg_supplicant.Supplicant.Driver
use usg_supplicant.Supplicant.Evidence.{at_origin, Authentic, DriverSound}
use usg_supplicant.Supplicant.Sound.{Good}
use usg_supplicant.Supplicant.Phase2.{step-Good}
use usg_supplicant.Eaphost.Peer.{
  SessionKind, TeapStep, ProcessAction, AuthResult, PeerSession, new, after_step, process,
  take_response, finish,
}

-- The calls of `EAPHost` that change a session.
pub data Call : Type 0 where
  process_request : List ℕ → Call
  get_response : Call

module _ {D : Type 0} (api : TeapStep D) where
  abbrev pub call : PeerSession D → Call → PeerSession D
  call s (process_request eap_request) = (process api s eap_request).1
  call s get_response = (take_response s).1

  unfoldable pub calls : PeerSession D → List Call → PeerSession D
  calls s [] = s
  calls s (c ∷ cs) = calls (call s c) cs

module _ {T I : Type 0} (tunnel : Tunnel T) (inner_process : I → List ℕ → InnerStep × I) where
  abbrev pub teap_step : TeapStep (TeapDriver T I)
  teap_step = record {
    step = Driver.step tunnel inner_process;
    tunnel_established = Driver.is_established;
  }

  module _ (origin : T) (start : I) where
    abbrev pub ResultSound : Option AuthResult → Type 0
    ResultSound none = Unit {0}
    ResultSound (some (AuthResult.success msk mat)) =
        (emsk : List ℕ) × Authentic tunnel inner_process origin start msk emsk
    ResultSound (some (AuthResult.failure reason)) = Unit {0}

    -- The driver is still to be used only while the session lives.
    abbrev AliveSound : (terminated : Bool) → TeapDriver T I → Type 0
    AliveSound true d = Unit {0}
    AliveSound false d = DriverSound tunnel inner_process origin start d

    abbrev pub PeerSound : PeerSession (TeapDriver T I) → Type 0
    PeerSound s = AliveSound s.terminated s.driver × ResultSound s.result

    after_step-PeerSound :
        (r : Result DriverError DriverStep) (d : TeapDriver T I) (s : PeerSession (TeapDriver T I))
        → s.terminated ≡ false
        → ResultSound s.result
        → Post (Good tunnel inner_process origin start) (r, d)
        → PeerSound (after_step r (record s { driver = d })).1
    unfolding finish
    after_step-PeerSound (ok (DriverStep.respond resp)) d s live h (g, sound) =
        (subst (λ b. AliveSound b d) (sym live) sound, h)
    after_step-PeerSound (ok (DriverStep.finished send (Outcome.success msk emsk mat))) d s live h
          (g, sound) =
        (tt, (emsk, g))
    after_step-PeerSound (ok (DriverStep.finished send (Outcome.failure reason))) d s live h
          (g, sound) =
        (tt, tt)
    after_step-PeerSound (err e) d s live h g = (tt, tt)

    pub process-PeerSound :
        (s : PeerSession (TeapDriver T I)) (eap_request : List ℕ)
        → PeerSound s
        → PeerSound (process teap_step s eap_request).1
    unfolding process
    process-PeerSound s eap_request h = guarded s.terminated refl
      where
        guarded :
            (b : Bool)
            → s.terminated ≡ b
            → PeerSound
                (if b
                  then (ProcessAction.finished, s)
                  else (let (r, d) = Driver.step tunnel inner_process eap_request s.driver in
                      after_step r (record s { driver = d }))).1
        guarded true e = h
        guarded false e =
            let p = Driver.step tunnel inner_process eap_request s.driver in
            after_step-PeerSound p.0 p.1 s e (h.1) (
              step-Good tunnel inner_process origin start eap_request s.driver
                (subst (λ b. AliveSound b s.driver) e (h.0)))

    call-PeerSound :
        (s : PeerSession (TeapDriver T I)) (c : Call) → PeerSound s → PeerSound (call teap_step s c)
    unfolding take_response
    call-PeerSound s (process_request eap_request) h = process-PeerSound s eap_request h
    call-PeerSound s get_response h = h

    calls-PeerSound :
        (s : PeerSession (TeapDriver T I)) (cs : List Call)
        → PeerSound s
        → PeerSound (calls teap_step s cs)
    unfolding calls
    calls-PeerSound s [] h = h
    calls-PeerSound s (c ∷ cs) h = calls-PeerSound (call teap_step s c) cs (call-PeerSound s c h)

  abbrev MadeSound : I → Result DriverError (TeapDriver T I) → Type 0
  MadeSound inner (ok d) = DriverSound tunnel inner_process d.tunnel inner d
  MadeSound inner (err e) = Unit {0}

  new-MadeSound :
      (cfg : DriverConfig) (connected : Result FipsTlsError T) (inner : I)
      → MadeSound inner (Driver.new cfg connected inner)
  unfolding Driver.new
  new-MadeSound cfg (ok t) inner = ((at_origin, λ i e. cc e), tt)
  new-MadeSound cfg (err x) inner = tt

  pub new-PeerSound :
      (cfg : DriverConfig) (connected : Result FipsTlsError T) (inner : I) (kind : SessionKind)
      (d : TeapDriver T I)
      → Driver.new cfg connected inner ≡ ok d
      → PeerSound d.tunnel inner (new kind d)
  unfolding new
  new-PeerSound cfg connected inner kind d e =
      (subst (λ x. MadeSound inner x) e (new-MadeSound cfg connected inner), tt)

  -- If a peer session over a new driver shows a success after any sequence of calls, then, in the
  -- run of that driver's tunnel: a handshake of it passed `finish_handshake` and named a MAC and the
  -- seed of a first schedule; the inner method, fed some packets from its start, returned 32 octets
  -- as its key; the one absorption of these into the first schedule gave a compound key; a message
  -- that the tunnel opened behind the handshake had a `Success` Intermediate-Result whose
  -- Crypto-Binding is a version 1 request that verifies under that compound key; and the MSK is
  -- derived from the schedule behind that absorption.
  pub success-Authentic :
      (cfg : DriverConfig) (connected : Result FipsTlsError T) (inner : I) (kind : SessionKind)
      (d : TeapDriver T I) (cs : List Call) (msk : List ℕ) (mat : Option (List ℕ))
      → Driver.new cfg connected inner ≡ ok d
      → (calls teap_step (new kind d) cs).result ≡ some (AuthResult.success msk mat)
      → (emsk : List ℕ) × Authentic tunnel inner_process d.tunnel inner msk emsk
  success-Authentic cfg connected inner kind d cs msk mat e r =
      subst (λ x. ResultSound d.tunnel inner x) r
        ((calls-PeerSound d.tunnel inner (new kind d) cs
          (new-PeerSound cfg connected inner kind d e)).1)
