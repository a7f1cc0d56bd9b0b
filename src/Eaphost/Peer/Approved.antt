-- ===== src/Eaphost/Peer/Approved.antt =====
-- The whole stack: a peer session over the driver, the driver over the TLS client, and beside it the
-- inner EAP-TLS method over a TLS client of its own.
use usg_supplicant.Common.{ℕ, false, List, Option, some, Result, ok, ◌≡◌, refl, sym, subst, [], ◌∷◌}
use usg_supplicant.Fips.{FipsTlsError}
use usg_supplicant.Fips.Client
use usg_supplicant.Fips.Client.{Connection, Library, TeapTlsClient, connect, tunnel}
use usg_supplicant.Fips.Gate.{Approved, finished-Approved, finish_handshake-inv}
use usg_supplicant.Session.Types.{InnerStep}
use usg_supplicant.Session.Sourced
use usg_supplicant.Session.Sourced.{Released}
use usg_supplicant.Supplicant.Types.{DriverConfig, TeapDriver}
use usg_supplicant.Supplicant.Driver
use usg_supplicant.Supplicant.Inner
use usg_supplicant.Supplicant.Inner.{EapTlsInner}
use usg_supplicant.Supplicant.Inner.Completion.{Completed}
use usg_supplicant.Supplicant.Inner.Verdict.{processed, inner_done}
use usg_supplicant.Supplicant.Evidence.{Authentic, Handshaken}
use usg_supplicant.Eaphost.Peer.{SessionKind, AuthResult, new}
use usg_supplicant.Eaphost.Peer.Verdict.{Call, calls, teap_step, success-Authentic}

module _ {C : Type 0} (lib : Connection C) (libs : Library) where
  pub Handshaken-Approved :
      {origin : TeapTlsClient C} (h : Handshaken (tunnel lib libs) origin) → Approved lib libs h.mac
  unfolding tunnel
  Handshaken-Approved h = finished-Approved lib libs h.before h.established h.mac h.finished h.named

  -- If a peer session over a driver and a TLS client of this library shows a success after any
  -- sequence of calls, then its MSK and a message are authentic in the run of that client (the
  -- handshake, the released inner key, the confirmed message and the derivation that
  -- `success-Authentic` names), the MAC of the handshake is the SHA-384 one, and there was a
  -- connection whose handshake was over, whose suite was TLS_AES_256_GCM_SHA384 and whose version,
  -- suite and group the FIPS allow-list let pass.
  pub success-Approved :
      {I : Type 0} (process : I → List ℕ → InnerStep × I) (cfg : DriverConfig)
      (connected : Result FipsTlsError C) (inner : I) (kind : SessionKind)
      (d : TeapDriver (TeapTlsClient C) I) (cs : List Call) (msk : List ℕ) (mat : Option (List ℕ))
      → Driver.new cfg (connect connected) inner ≡ ok d
      → (calls (teap_step (tunnel lib libs) process) (new kind d) cs).result
        ≡ some (AuthResult.success msk mat)
      → (emsk : List ℕ) × (a : Authentic (tunnel lib libs) process d.tunnel inner msk emsk)
        × Approved lib libs a.handshake.mac
  success-Approved process cfg connected inner kind d cs msk mat made r =
      let (emsk, a) =
        success-Authentic (tunnel lib libs) process cfg (connect connected) inner kind d cs msk mat
          made r in
      (emsk, a, Handshaken-Approved a.handshake)

  -- An inner TLS client: the octets are the first 32 of the key that it exports, `finish_handshake`
  -- had just let it pass, its handshake is over and its parameters are of the allow-list.
  pub record InnerApproved (imsk : List ℕ) : Type 0 where
    pub client : TeapTlsClient C
    pub completed : Completed (tunnel lib libs) client imsk
    pub over : lib.is_handshaking client.conn ≡ false
    pub allowed : Client.enforce_fips_parameters lib libs client ≡ ok tt

  Completed-InnerApproved :
      (t : TeapTlsClient C) (imsk : List ℕ)
      → Completed (tunnel lib libs) t imsk
      → InnerApproved imsk
  unfolding tunnel Client.enforce_fips_parameters
  Completed-InnerApproved t imsk c =
      let (over, allowed, same) = finish_handshake-inv lib libs c.before t c.finished in
      record {
        client = t;
        completed = c;
        over = subst (λ x. lib.is_handshaking x ≡ false) (sym same) over;
        allowed =
            subst
              (λ x.
                libs.enforce_fips_parameters (lib.protocol_version x)
                  (lib.negotiated_cipher_suite x) (lib.negotiated_key_exchange_group x)
                ≡ ok tt)
              (sym same) allowed;
      }

  -- Both runs feed the method in the same way.
  fed-processed :
      (s : EapTlsInner (TeapTlsClient C)) (eaps : List (List ℕ))
      → Sourced.fed (Inner.process (tunnel lib libs)) s eaps ≡ processed (tunnel lib libs) s eaps
  unfolding Sourced.fed processed
  fed-processed s [] = refl
  fed-processed s (eap ∷ eaps) = fed-processed (Inner.process (tunnel lib libs) s eap).1 eaps

  pub Released-InnerApproved :
      (connected : Result FipsTlsError C) (max_fragment : ℕ) (s : EapTlsInner (TeapTlsClient C))
      (imsk : List ℕ)
      → Inner.new (connect connected) max_fragment ≡ ok s
      → Released (Inner.process (tunnel lib libs)) s imsk
      → InnerApproved imsk
  Released-InnerApproved connected max_fragment s imsk made r =
      let (c, _) =
        inner_done (tunnel lib libs) (connect connected) max_fragment s r.eaps [] r.eap [] imsk made
          (subst (λ i. (Inner.process (tunnel lib libs) i r.eap).0 ≡ InnerStep.finished imsk)
            (fed-processed s r.eaps) r.returned) in
      Completed-InnerApproved _ imsk c

  -- A peer session over a driver with the inner EAP-TLS method, both over TLS clients of this
  -- library: if it shows a success after any sequence of calls, then the MSK and a message are
  -- authentic in the run of the outer client under the approved SHA-384 MAC, as in
  -- `success-Approved`, and the inner key that they rest on is the first 32 octets of the key that
  -- an inner client exports whose handshake is over, whose parameters are of the FIPS allow-list and
  -- that `finish_handshake` had just let pass.
  pub success-InnerApproved :
      (cfg : DriverConfig) (connected inner_connected : Result FipsTlsError C) (max_fragment : ℕ)
      (inner : EapTlsInner (TeapTlsClient C)) (kind : SessionKind)
      (d : TeapDriver (TeapTlsClient C) (EapTlsInner (TeapTlsClient C))) (cs : List Call)
      (msk : List ℕ) (mat : Option (List ℕ))
      → Inner.new (connect inner_connected) max_fragment ≡ ok inner
      → Driver.new cfg (connect connected) inner ≡ ok d
      → (calls
          (teap_step (tunnel lib libs) (Inner.process (tunnel lib libs)))
          (new kind d)
          cs).result
        ≡ some (AuthResult.success msk mat)
      → (emsk : List ℕ) × (a : Authentic
          (tunnel lib libs)
          (Inner.process (tunnel lib libs))
          d.tunnel
          inner
          msk
          emsk)
        × Approved lib libs a.handshake.mac
        × InnerApproved a.imsk
  success-InnerApproved cfg connected inner_connected max_fragment inner kind d cs msk mat began
        made r =
      let (emsk, a, approved) =
        success-Approved (Inner.process (tunnel lib libs)) cfg connected inner kind d cs msk mat
          made r in
      (
        emsk,
        a,
        approved,
        Released-InnerApproved inner_connected max_fragment inner a.imsk began a.released,
      )
