-- ===== src/Examples/Status.antt =====
-- A status that is published, a selection of certificates, and connection data as text.
use usg_supplicant.Common.{◌++◌, refl, ℕ, List, [], ◌∷◌, none, some, ◌>>=◌, ◌≡◌, arith, true, false}
use usg_supplicant.Common.Text.{octets}
use usg_supplicant.Status.{AuthState, Identity, AuthStatus, encode, decode}
use usg_supplicant.Status.RoundTrip.{flattened, AuthStatus_round_trip}
use usg_supplicant.Eaphost.ConfigXml.{to_hex, xml_text_to_blob}
use usg_supplicant.Eaphost.ConfigXml.RoundTrip.{xml_text_to_blob-to_hex}
use usg_supplicant.Creds.{CertSelector, Certificates, select}
use usg_supplicant.Creds.Selection.{matching, only, select-only}

-- The detail has a newline.
abbrev failed_at_logon : AuthStatus
failed_at_logon = record {
  state = AuthState.failed;
  identity = Identity.user;
  cert_subject = octets "CN=user.example";
  machine_cert = octets "CN=host.example";
  user_cert = octets "CN=user.example";
  machine_thumbprint = octets "AABB";
  user_thumbprint = [];
  server_name = octets "teap.example";
  detail = 97 ∷ 10 ∷ 98 ∷ [];
  updated_unix = 1700000000;
}

AuthStatus_round_trip_example : decode (encode failed_at_logon) ≡ some (flattened failed_at_logon)
AuthStatus_round_trip_example = AuthStatus_round_trip failed_at_logon (omega arith)

-- A certificate is its subject, and has the extension where that is not empty.
abbrev x509 : Certificates (List ℕ)
x509 = record {
  sha256 = λ der. der;
  from_der = λ der. some der;
  client_auth = λ cert. elim cert [ [] ↦ false | c ∷ cs ↦ true ];
  subject = λ cert. cert;
  issuer = λ cert. [];
}

abbrev selector : CertSelector
selector = record {
  thumbprint_sha256 = none;
  require_client_auth_eku = true;
  subject_contains = some (98 ∷ []);
  issuer_contains = none;
}

abbrev store : List (List ℕ)
store = (97 ∷ []) ∷ [] ∷ (97 ∷ 98 ∷ []) ∷ []

select-only_example : select x509 selector store ≡ (matching x509 selector store >>= only)
select-only_example = select-only x509 selector store (omega arith)

xml_text_to_blob-to_hex_example :
    xml_text_to_blob ((32 ∷ []) ++ (to_hex (222 ∷ 7 ∷ []) ++ 10 ∷ [])) ≡ some (222 ∷ 7 ∷ [])
xml_text_to_blob-to_hex_example =
    xml_text_to_blob-to_hex (32 ∷ []) (222 ∷ 7 ∷ []) (10 ∷ []) (omega arith) (omega arith)
      (refl, tt) (refl, tt)
