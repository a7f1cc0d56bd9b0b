-- ===== src/Eaphost/Host/Entry.antt =====
-- crates/eaphost/src/peer.rs: the entry points that EAPHost calls during a session, on values in
-- place of its pointers. Where one returns an error code, there is no value.
use usg_supplicant.Common.{
  ℕ, Bool, true, false, not, ◌&&◌, List, [], ◌∷◌, Option, none, some, Result, ok, err, length, leb,
  is_empty, and_then, if◌then◌else◌,
}
use usg_supplicant.Common.Text.{octets}
use usg_supplicant.Common.Assoc.{insert, remove}
use usg_supplicant.Session.Types.{Identity}
use usg_supplicant.Supplicant.Types.{DriverConfig}
use usg_supplicant.Creds.{CertSelector}
use usg_supplicant.Eaphost.Config.{SessionConfigBlob, from_bytes}
use usg_supplicant.Eaphost.Peer
use usg_supplicant.Eaphost.Peer.{SessionKind, TeapStep, ProcessAction, AuthResult}
use usg_supplicant.Eaphost.Registry
use usg_supplicant.Eaphost.Registry.{SessionRegistry, ResponseFetch}
use usg_supplicant.Eaphost.Host.{StatusMeta, Host, World, Platform, publish_status}
use usg_supplicant.Status
use usg_supplicant.Status.{AuthState}

-- `.ok()`
abbrev pub to_option : {E A : Type 0} → Result E A → Option A
to_option (ok a) = some a
to_option (err e) = none

abbrev pub require : Bool → Option (Unit {0})
require true = some tt
require false = none

abbrev pub identity_of : (machine : Bool) → Identity
identity_of true = Identity.machine
identity_of false = Identity.user

abbrev pub kind_of : (machine : Bool) → SessionKind
kind_of true = SessionKind.machine
kind_of false = SessionKind.user

abbrev pub status_identity_of : (machine : Bool) → Status.Identity
status_identity_of true = Status.Identity.machine
status_identity_of false = Status.Identity.user

abbrev pub selector_of : SessionConfigBlob → CertSelector
selector_of cfg = record {
  thumbprint_sha256 = none;
  require_client_auth_eku = true;
  subject_contains = some cfg.selector_subject;
  issuer_contains = none;
}

abbrev pub driver_config_of : SessionConfigBlob → DriverConfig
driver_config_of cfg = record {
  identity = identity_of cfg.machine;
  server_name = cfg.server_name;
  mat_vendor_id = cfg.mat_vendor_id;
  mat_to_present = cfg.mat;
  max_fragment = cfg.max_fragment;
}

abbrev pub meta_of : SessionConfigBlob → (thumbprint : List ℕ) → StatusMeta
meta_of cfg thumbprint = record {
  identity = status_identity_of cfg.machine;
  cert_subject = cfg.selector_subject;
  cert_thumbprint = thumbprint;
  server_name = cfg.server_name;
}

-- What `begin_session` makes before it registers it.
pub record Prepared (D : Type 0) : Type 0 where
  pub kind : SessionKind
  pub driver : D
  pub meta : StatusMeta

-- Every trust anchor of the profile has to be one.
unfoldable pub add_roots : (trust_anchor : List ℕ → Bool) → List (List ℕ) → Option (Unit {0})
add_roots trust_anchor [] = some tt
add_roots trust_anchor (der ∷ ders) =
    let rest = add_roots trust_anchor ders in if trust_anchor der then rest else none

module _ {D : Type 0} (os : Platform D) where
  abbrev pub prepared_with : SessionConfigBlob → Option (D × List ℕ) → Option (Prepared D)
  prepared_with cfg none = none
  prepared_with cfg (some (driver, thumbprint)) =
      some (record { kind = kind_of cfg.machine; driver = driver; meta = meta_of cfg thumbprint })

  unfoldable pub prepare : World → (blob : List ℕ) → Option (Prepared D)
  prepare w blob = and_then (require w.fips) (λ _.
      and_then (to_option (from_bytes os.utf8 blob)) (λ cfg.
        and_then (add_roots os.trust_anchor cfg.roots) (λ _.
          and_then (require (not (is_empty cfg.roots))) (λ _.
            prepared_with cfg
              (to_option (os.build_driver (driver_config_of cfg) cfg.roots (selector_of cfg)))))))

  abbrev pub register : World → Option (Prepared D) → Host D → Option ℕ × Host D
  register w none h = (none, h)
  register w (some p) h =
      let (handle, r) = Registry.begin (Peer.new p.kind p.driver) h.registry in
      (
        some handle,
        publish_status w handle AuthState.connecting []
            (record h { registry = r; status_meta = insert handle p.meta h.status_meta }),
      )

  unfoldable pub begin_session : World → (blob : List ℕ) → Host D → Option ℕ × Host D
  begin_session w blob h = register w (prepare w blob) h

  -- `(EAP_HEADER_LEN..=MAX_EAP_PACKET).contains(&cb_receive_packet)`
  abbrev pub packet_fits : List ℕ → Bool
  packet_fits eap = leb 4 (length eap) && leb (length eap) 65535

  abbrev pub progress_of : Option Bool → AuthState
  progress_of (some true) = AuthState.inner_in_progress
  progress_of (some false) = AuthState.connecting
  progress_of none = AuthState.connecting

  abbrev pub report_progress :
      TeapStep D → World → (handle : ℕ) → Option ProcessAction → Host D → Host D
  report_progress api w handle (some ProcessAction.respond) h =
      publish_status w handle (progress_of (Registry.tunnel_established api handle h.registry)) [] h
  report_progress api w handle (some ProcessAction.finished) h = h
  report_progress api w handle none h = h

  unfoldable pub process_request_packet :
      TeapStep D → World → (handle : ℕ) → (eap : List ℕ) → Host D → Option ProcessAction × Host D
  process_request_packet api w handle eap h =
      if packet_fits eap
      then (let (action, r) = Registry.process api handle eap h.registry in
          (action, report_progress api w handle action (record h { registry = r })))
      else (none, h)

  -- A buffer that is null is one of no octets.
  unfoldable pub get_response_packet :
      (handle : ℕ) → (avail : Option ℕ) → Host D → ResponseFetch × Host D
  get_response_packet handle avail h =
      let (f, r) =
        Registry.fetch_response handle (elim avail [ none ↦ 0 | some n ↦ n ]) h.registry in
      (f, record h { registry = r })

  abbrev pub terminal_status : Option AuthResult → AuthState × List ℕ
  terminal_status (some (AuthResult.success msk mat)) = (AuthState.authenticated, [])
  terminal_status (some (AuthResult.failure reason)) = (AuthState.failed, os.reason_text reason)
  terminal_status none = (AuthState.failed, octets "no result")

  abbrev pub is_success : Option AuthResult → Bool
  is_success (some (AuthResult.success msk mat)) = true
  is_success (some (AuthResult.failure reason)) = false
  is_success none = false

  unfoldable pub get_result : World → (handle : ℕ) → Host D → Bool × Host D
  get_result w handle h =
      let result = Registry.result handle h.registry in
      let (state, detail) = terminal_status result in
      (is_success result, publish_status w handle state detail h)

  unfoldable pub end_session : (handle : ℕ) → Host D → Host D
  end_session handle h = record h {
    registry = (Registry.end handle h.registry).1;
    status_meta = remove handle h.status_meta;
  }

-- The calls of the entry points that change the state.
pub data Entry : Type 0 where
  begins : World → (blob : List ℕ) → Entry
  processes : World → (handle : ℕ) → (eap : List ℕ) → Entry
  fetches : (handle : ℕ) → (avail : Option ℕ) → Entry
  asks : World → (handle : ℕ) → Entry
  ends : (handle : ℕ) → Entry

module _ {D : Type 0} (os : Platform D) (api : TeapStep D) where
  abbrev pub entered : Host D → Entry → Host D
  entered h (begins w blob) = (begin_session os w blob h).1
  entered h (processes w handle eap) = (process_request_packet os api w handle eap h).1
  entered h (fetches handle avail) = (get_response_packet os handle avail h).1
  entered h (asks w handle) = (get_result os w handle h).1
  entered h (ends handle) = end_session os handle h

  unfoldable pub run : Host D → List Entry → Host D
  run h [] = h
  run h (e ∷ es) = run (entered h e) es
