-- ===== src/Eaphost/Host/Credentials.antt =====
-- crates/eaphost/src/peer.rs: the published status and the credential of the other identity.
use usg_supplicant.Common.{ℕ, ◌≤◌, true, List, [], ◌∷◌, some, max_64, ◌≡◌, ◌≢◌, refl, ap, ◌∙◌}
use usg_supplicant.Common.Assoc.{get}
use usg_supplicant.Status
use usg_supplicant.Status.{AuthState, AuthStatus, one_line, flat, encode, decode}
use usg_supplicant.Status.RoundTrip.{flattened, AuthStatus_round_trip}
use usg_supplicant.Eaphost.Host
use usg_supplicant.Eaphost.Host.{StatusMeta, Host, World, publish_status}

-- The operating system lets the file be written and read.
pub record IsOpen (w : World) : Type 0 where
  pub secured : w.secured ≡ true
  pub readable : w.readable ≡ true
  pub writable : w.writable ≡ true
  pub in_range : w.now ≤ max_64

module _ {D : Type 0} where
  -- What a publication leaves, where it is let.
  publish_open :
      (w : World) (handle : ℕ) (meta : StatusMeta) (state : AuthState) (detail : List ℕ)
      (h : Host D)
      → IsOpen w
      → get handle h.status_meta ≡ some meta
      → let g =
          Host.activate meta.identity
            (Host.active_cert meta)
            (Host.recall (Host.read_status w h.file) h) in
        publish_status w handle state detail h
        ≡ record g { file = some (encode (Host.snapshot w meta state detail g)) }
  unfolding publish_status
  publish_open w handle meta state detail h o e = rw (e, o.secured, o.writable) refl

abbrev pub opposite : Status.Identity → Status.Identity
opposite Status.Identity.machine = Status.Identity.user
opposite Status.Identity.user = Status.Identity.machine

-- The credential of an identity that a status shows.
abbrev pub cert_of : Status.Identity → AuthStatus → List ℕ
cert_of Status.Identity.machine s = s.machine_cert
cert_of Status.Identity.user s = s.user_cert

abbrev pub thumbprint_of : Status.Identity → AuthStatus → List ℕ
thumbprint_of Status.Identity.machine s = s.machine_thumbprint
thumbprint_of Status.Identity.user s = s.user_thumbprint

refreshed_some : (prev field : List ℕ) → prev ≢ [] → Host.refreshed prev field ≡ prev
refreshed_some [] field h = absurd (h refl)
refreshed_some (c ∷ cs) field h = refl

cert_of-flattened :
    (i : Status.Identity) (s : AuthStatus) → cert_of i (flattened s) ≡ one_line (cert_of i s)
cert_of-flattened Status.Identity.machine s = refl
cert_of-flattened Status.Identity.user s = refl

thumbprint_of-flattened :
    (i : Status.Identity) (s : AuthStatus)
    → thumbprint_of i (flattened s) ≡ one_line (thumbprint_of i s)
thumbprint_of-flattened Status.Identity.machine s = refl
thumbprint_of-flattened Status.Identity.user s = refl

module _ {D : Type 0} where
  abbrev shown : World → Status.Identity → StatusMeta → AuthState → List ℕ → Host D → AuthStatus
  shown w i meta state detail h =
      Host.snapshot w meta state detail (Host.activate i (Host.active_cert meta) h)

  shows_own :
      (w : World) (i : Status.Identity) (meta : StatusMeta) (state : AuthState) (detail : List ℕ)
      (h : Host D)
      → (cert_of i (shown w i meta state detail h) ≡ meta.cert_subject)
        × (thumbprint_of i (shown w i meta state detail h) ≡ meta.cert_thumbprint)
  shows_own w Status.Identity.machine meta state detail h = (refl, refl)
  shows_own w Status.Identity.user meta state detail h = (refl, refl)

  shows_other :
      (w : World) (i : Status.Identity) (meta : StatusMeta) (state : AuthState) (detail : List ℕ)
      (prev : AuthStatus) (h : Host D)
      → cert_of (opposite i) prev ≢ []
      → thumbprint_of (opposite i) prev ≢ []
      → (cert_of (opposite i) (shown w i meta state detail (Host.recall (some prev) h))
          ≡ cert_of (opposite i) prev)
        × (thumbprint_of (opposite i) (shown w i meta state detail (Host.recall (some prev) h))
            ≡ thumbprint_of (opposite i) prev)
  shows_other w Status.Identity.machine meta state detail prev h c t =
      (refreshed_some prev.user_cert _ c, refreshed_some prev.user_thumbprint _ t)
  shows_other w Status.Identity.user meta state detail prev h c t =
      (refreshed_some prev.machine_cert _ c, refreshed_some prev.machine_thumbprint _ t)

  -- Where the operating system lets the file be read and written, and it holds a status with a
  -- subject and a thumbprint for the other identity: a publication for a session leaves a file
  -- that decodes to a status with this state, this identity and time, the credential of the session
  -- as its own, and the credential of the other identity as it was, each with newlines as spaces.
  pub publish_keeps_other :
      (w : World) (handle : ℕ) (meta : StatusMeta) (state : AuthState) (detail text : List ℕ)
      (prev : AuthStatus) (h : Host D)
      → IsOpen w
      → get handle h.status_meta ≡ some meta
      → h.file ≡ some text
      → decode text ≡ some prev
      → cert_of (opposite meta.identity) prev ≢ []
      → thumbprint_of (opposite meta.identity) prev ≢ []
      → (s : AuthStatus) × (Host.read_status w (publish_status w handle state detail h).file
          ≡ some s)
        × (s.state ≡ state)
        × (s.identity ≡ meta.identity)
        × (s.updated_unix ≡ w.now)
        × (cert_of meta.identity s ≡ one_line meta.cert_subject)
        × (thumbprint_of meta.identity s ≡ one_line meta.cert_thumbprint)
        × (cert_of (opposite meta.identity) s ≡ one_line (cert_of (opposite meta.identity) prev))
        × (thumbprint_of (opposite meta.identity) s
            ≡ one_line (thumbprint_of (opposite meta.identity) prev))
  publish_keeps_other w handle meta state detail text prev h o m f p c t =
      let i = meta.identity in
      let read : Host.read_status w h.file ≡ some prev = rw (o.readable, f, p) refl in
      let g = Host.recall (some prev) h in
      let snap = shown w i meta state detail g in
      let (c1, t1) = shows_own w i meta state detail g in
      let (c2, t2) = shows_other w i meta state detail prev h c t in
      (
        flattened snap,
        rw (publish_open w handle meta state detail h o m, read, o.readable)
            (AuthStatus_round_trip snap o.in_range),
        refl,
        refl,
        refl,
        cert_of-flattened i snap ∙ ap one_line c1,
        thumbprint_of-flattened i snap ∙ ap one_line t1,
        cert_of-flattened (opposite i) snap ∙ ap one_line c2,
        thumbprint_of-flattened (opposite i) snap ∙ ap one_line t2,
      )
