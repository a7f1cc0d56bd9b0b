-- ===== src/Eaphost/Host.antt =====
-- crates/eaphost/src/peer.rs: the statics behind the entry points, and the status they publish.
pub mod Entry
pub mod Keeps
pub mod Prepared
pub mod Verdict
pub mod Credentials
use usg_supplicant.Common.{
  ℕ, Bool, true, false, not, ◌&&◌, List, [], ◌∷◌, Option, none, some, Result, ok, err, length, leb,
  is_empty, and_then, if◌then◌else◌,
}
use usg_supplicant.Common.Assoc.{get, insert, remove}
use usg_supplicant.Session.Types.{Identity, FailReason}
use usg_supplicant.Supplicant.Types.{DriverConfig}
use usg_supplicant.Creds.{CertSelector}
use usg_supplicant.Eaphost.Config.{ConfigError, SessionConfigBlob, from_bytes}
use usg_supplicant.Eaphost.Peer
use usg_supplicant.Eaphost.Peer.{SessionKind, TeapStep, ProcessAction, AuthResult, PeerSession}
use usg_supplicant.Eaphost.Registry
use usg_supplicant.Eaphost.Registry.{SessionRegistry, ResponseFetch}
use usg_supplicant.Eaphost.Builder.{BuildError}
use usg_supplicant.Status
use usg_supplicant.Status.{AuthState, AuthStatus}

pub record StatusMeta : Type 0 where
  pub identity : Status.Identity
  pub cert_subject : List ℕ
  pub cert_thumbprint : List ℕ
  pub server_name : List ℕ

pub record CertInfo : Type 0 where
  pub subject : List ℕ
  pub thumbprint : List ℕ

-- The statics of the module, and the status file. Of `last_certs` the first is the machine's.
pub record Host (D : Type 0) : Type 0 where
  pub registry : SessionRegistry D
  pub status_meta : List (ℕ × StatusMeta)
  pub machine_cert : CertInfo
  pub user_cert : CertInfo
  pub file : Option (List ℕ)

-- What the operating system answers during a call: whether its FIPS policy is on, whether the
-- status directory is secured, whether the file can be read and written, and the time.
pub record World : Type 0 where
  pub fips : Bool
  pub secured : Bool
  pub readable : Bool
  pub writable : Bool
  pub now : ℕ

abbrev pub unknown_cert : CertInfo
unknown_cert = record { subject = []; thumbprint = [] }

unfoldable pub new : {D : Type 0} → Host D
new = record {
  registry = Registry.new;
  status_meta = [];
  machine_cert = unknown_cert;
  user_cert = unknown_cert;
  file = none;
}

-- `usg_status::read_status`
abbrev pub read_status : World → Option (List ℕ) → Option AuthStatus
read_status w file = if w.readable then and_then file Status.decode else none

-- `usg_status::write_status`, whose error is ignored.
abbrev pub write_status : World → AuthStatus → Option (List ℕ) → Option (List ℕ)
write_status w status file = if w.writable then some (Status.encode status) else file

-- `if !prev.is_empty() { field = prev; }`
abbrev pub refreshed : (prev field : List ℕ) → List ℕ
refreshed [] field = field
refreshed (c ∷ cs) field = c ∷ cs

abbrev pub active_cert : StatusMeta → CertInfo
active_cert meta = record { subject = meta.cert_subject; thumbprint = meta.cert_thumbprint }

module _ {D : Type 0} where
  -- The credentials of the other identity are taken from the file.
  abbrev pub recall : Option AuthStatus → Host D → Host D
  recall none h = h
  recall (some prev) h = record h {
    machine_cert = record {
      subject = refreshed prev.machine_cert h.machine_cert.subject;
      thumbprint = refreshed prev.machine_thumbprint h.machine_cert.thumbprint;
    };
    user_cert = record {
      subject = refreshed prev.user_cert h.user_cert.subject;
      thumbprint = refreshed prev.user_thumbprint h.user_cert.thumbprint;
    };
  }

  abbrev pub activate : Status.Identity → CertInfo → Host D → Host D
  activate Status.Identity.machine active h = record h { machine_cert = active }
  activate Status.Identity.user active h = record h { user_cert = active }

  abbrev pub snapshot : World → StatusMeta → AuthState → (detail : List ℕ) → Host D → AuthStatus
  snapshot w meta state detail h = record {
    state = state;
    identity = meta.identity;
    cert_subject = meta.cert_subject;
    machine_cert = h.machine_cert.subject;
    user_cert = h.user_cert.subject;
    machine_thumbprint = h.machine_cert.thumbprint;
    user_thumbprint = h.user_cert.thumbprint;
    server_name = meta.server_name;
    detail = detail;
    updated_unix = w.now;
  }

  abbrev pub write_snapshot : World → StatusMeta → AuthState → (detail : List ℕ) → Host D → Host D
  write_snapshot w meta state detail h = record h {
    file = write_status w (snapshot w meta state detail h) h.file;
  }

  abbrev pub publish_meta :
      World → Option StatusMeta → AuthState → (detail : List ℕ) → Host D → Host D
  publish_meta w none state detail h = h
  publish_meta w (some meta) state detail h =
      if w.secured
      then write_snapshot w meta state detail
          (activate meta.identity (active_cert meta) (recall (read_status w h.file) h))
      else h

  unfoldable pub publish_status :
      World → (handle : ℕ) → AuthState → (detail : List ℕ) → Host D → Host D
  publish_status w handle state detail h = publish_meta w (get handle h.status_meta) state detail h

-- What the entry points call beside the registry: the UTF-8 test of the profile's reader, the
-- parser of trust anchors, `build_driver`, and the derived text of a `FailReason`.
pub record Platform (D : Type 0) : Type 0 where
  pub utf8 : List ℕ → Bool
  pub trust_anchor : List ℕ → Bool
  pub build_driver :
      DriverConfig → (roots : List (List ℕ)) → CertSelector → Result BuildError (D × List ℕ)
  pub reason_text : FailReason → List ℕ
