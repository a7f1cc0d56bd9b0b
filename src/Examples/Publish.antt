-- ===== src/Examples/Publish.antt =====
-- The status of a user session, published after that of a machine session.
use usg_supplicant.Common.{true, [], ◌∷◌, some, ◌≡◌, ◌≢◌, refl, arith}
use usg_supplicant.Common.Text.{octets}
use usg_supplicant.Status
use usg_supplicant.Status.{AuthState, AuthStatus, one_line, encode}
use usg_supplicant.Status.RoundTrip.{flattened, AuthStatus_round_trip}
use usg_supplicant.Eaphost.Host
use usg_supplicant.Eaphost.Host.{StatusMeta, Host, World, publish_status}
use usg_supplicant.Eaphost.Host.Credentials.{cert_of, thumbprint_of, publish_keeps_other}

abbrev world : World
world = record { fips = true; secured = true; readable = true; writable = true; now = 1700000000 }

abbrev at_boot : AuthStatus
at_boot = record {
  state = AuthState.authenticated;
  identity = Status.Identity.machine;
  cert_subject = octets "host";
  machine_cert = octets "host";
  user_cert = [];
  machine_thumbprint = octets "AA";
  user_thumbprint = [];
  server_name = octets "teap";
  detail = [];
  updated_unix = 1600000000;
}

abbrev user_meta : StatusMeta
user_meta = record {
  identity = Status.Identity.user;
  cert_subject = octets "user";
  cert_thumbprint = octets "BB";
  server_name = octets "teap";
}

-- The process was started again, and the file is there.
abbrev restarted : Host (Unit {0})
restarted = record Host.new { status_meta = (2, user_meta) ∷ []; file = some (encode at_boot) }

known : cert_of Status.Identity.machine (flattened at_boot) ≢ []
unfolding one_line
known e = let no : ⊥ = cc e in elim no [ ]

known_thumbprint : thumbprint_of Status.Identity.machine (flattened at_boot) ≢ []
unfolding one_line
known_thumbprint e = let no : ⊥ = cc e in elim no [ ]

publish_keeps_other_example :
    (s : AuthStatus) × (Host.read_status world
        (publish_status world 2 AuthState.connecting [] restarted).file
      ≡ some s)
    × (s.state ≡ AuthState.connecting)
    × (s.identity ≡ Status.Identity.user)
    × (s.updated_unix ≡ 1700000000)
    × (s.user_cert ≡ one_line (octets "user"))
    × (s.user_thumbprint ≡ one_line (octets "BB"))
    × (s.machine_cert ≡ one_line (one_line (octets "host")))
    × (s.machine_thumbprint ≡ one_line (one_line (octets "AA")))
publish_keeps_other_example =
    publish_keeps_other world 2 user_meta AuthState.connecting [] (encode at_boot)
      (flattened at_boot) restarted
      (record { secured = refl; readable = refl; writable = refl; in_range = omega arith }) refl
      refl (AuthStatus_round_trip at_boot (omega arith)) known known_thumbprint
