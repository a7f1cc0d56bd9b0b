-- ===== src/Supplicant/Evidence.antt =====
-- What stands behind a success of the driver, in one run of its tunnel: a handshake that the FIPS
-- check let pass, a message that was opened after it, and the key that the inner method released.
use usg_supplicant.Common.{ℕ, List, Option, none, some, ok, ◌≡◌}
use usg_supplicant.Fips.{Tunnel}
use usg_supplicant.Tlv.Raw.{RawTlv, parse_all}
use usg_supplicant.KeySchedule
use usg_supplicant.KeySchedule.{TeapMac, Cmk, KeySchedule, absorb_inner, derive_session_keys}
use usg_supplicant.Session.Types.{InnerStep, Outcome, success, failure, TeapSession}
use usg_supplicant.Session.Stages.{Confirmed}
use usg_supplicant.Session.Sourced.{Released, Sourced}
use usg_supplicant.Supplicant.Types.{Phase, TeapDriver, DriverStep, respond, finished}

-- The states of the tunnel behind `origin`: each is left by a method that returned.
pub data Reached {T : Type 0} (tunnel : Tunnel T) (origin : T) : T → Type 0 where
  at_origin : Reached tunnel origin origin
  took :
      {t u : T} {bytes : List ℕ}
      → Reached tunnel origin t
      → tunnel.take_outgoing t ≡ (ok bytes, u)
      → Reached tunnel origin u
  fed :
      {t u : T} {bytes : List ℕ}
      → Reached tunnel origin t
      → tunnel.feed_incoming bytes t ≡ (ok tt, u)
      → Reached tunnel origin u
  protected :
      {t u : T} {bytes records : List ℕ}
      → Reached tunnel origin t
      → tunnel.protect bytes t ≡ (ok records, u)
      → Reached tunnel origin u
  unprotected :
      {t u : T} {records bytes : List ℕ}
      → Reached tunnel origin t
      → tunnel.unprotect records t ≡ (ok bytes, u)
      → Reached tunnel origin u

-- Behind `established`, the tunnel opened some records to the octets of this message.
pub record Received {T : Type 0} (tunnel : Tunnel T) (established : T) (message : List RawTlv)
    : Type 0 where
  pub records : List ℕ
  pub before : T
  pub after : T
  pub plaintext : List ℕ
  pub reached : Reached tunnel established before
  pub opened : tunnel.unprotect records before ≡ (ok plaintext, after)
  pub parsed : parse_all plaintext ≡ ok message

-- The handshake that began at `origin`: `finish_handshake` returned, and the tunnel it left names
-- this MAC and exports the seed of this schedule.
pub record Handshaken {T : Type 0} (tunnel : Tunnel T) (origin : T) : Type 0 where
  pub before : T
  pub established : T
  pub mac : TeapMac
  pub seed : List ℕ
  pub first : KeySchedule
  pub reached : Reached tunnel origin before
  pub finished : tunnel.finish_handshake before ≡ (ok tt, established)
  pub named : tunnel.negotiated_mac established ≡ ok mac
  pub seeded : tunnel.session_key_seed established ≡ ok seed
  pub scheduled : KeySchedule.new seed ≡ ok first

module _ {T I : Type 0} (tunnel : Tunnel T) (process : I → List ℕ → InnerStep × I) (origin : T)
    (start : I) where
  -- The keys of an outcome: the inner method released its key, that key was absorbed once into the
  -- schedule of the handshake, a message that was opened behind the handshake is `Confirmed` under
  -- the key that came of it, and the keys are derived from the schedule that came of it.
  pub record Authentic (msk emsk : List ℕ) : Type 0 where
    pub handshake : Handshaken tunnel origin
    pub imsk : List ℕ
    pub cmk : Cmk
    pub ks : KeySchedule
    pub message : List RawTlv
    pub released : Released process start imsk
    pub absorbed : absorb_inner handshake.mac handshake.first imsk ≡ (ok cmk, ks)
    pub received : Received tunnel handshake.established message
    pub confirmed : Confirmed handshake.mac cmk message
    pub keys : derive_session_keys handshake.mac ks ≡ ok (msk, emsk)

  abbrev pub OutcomeSound : Outcome → Type 0
  OutcomeSound (success msk emsk mat) = Authentic msk emsk
  OutcomeSound (failure reason) = Unit {0}

  abbrev pub PendingSound : Option Outcome → Type 0
  PendingSound none = Unit {0}
  PendingSound (some outcome) = OutcomeSound outcome

  abbrev pub StepSound : DriverStep → Type 0
  StepSound (respond bytes) = Unit {0}
  StepSound (finished send outcome) = OutcomeSound outcome

  -- A session over the tunnel as it is now: its keys have their sources in the handshake and the
  -- inner method, and a key is there only with a message that is `Confirmed` under it.
  pub record SessionSound (now : T) (s : TeapSession I) : Type 0 where
    pub handshake : Handshaken tunnel origin
    pub reached : Reached tunnel handshake.established now
    pub sourced : Sourced process start handshake.first handshake.mac s
    pub backed :
        (cmk : Cmk)
        → s.cmk ≡ some cmk
        → (m : List RawTlv) × Received tunnel handshake.established m
          × Confirmed handshake.mac cmk m

  abbrev pub OptionSound : T → Option (TeapSession I) → Type 0
  OptionSound now none = Unit {0}
  OptionSound now (some s) = SessionSound now s

  -- Before Phase 2: the tunnel was only driven, and the inner method is not yet.
  abbrev pub BeforeSound : T → Option I → Type 0
  BeforeSound now o = Reached tunnel origin now × ((i : I) → o ≡ some i → i ≡ start)

  -- Only in Phase 2 is the session still to be used.
  abbrev pub LiveSound : Phase → T → Option I → Option (TeapSession I) → Type 0
  LiveSound Phase.phase2 now inner session = OptionSound now session
  LiveSound Phase.expect_start now inner session = BeforeSound now inner
  LiveSound Phase.handshake now inner session = BeforeSound now inner
  LiveSound Phase.terminated now inner session = Unit {0}

  abbrev pub DriverSound : TeapDriver T I → Type 0
  DriverSound d = LiveSound d.phase d.tunnel d.inner d.session × PendingSound d.pending
