-- ===== src/Creds/KeyInfo.antt =====
-- crates/creds/src/keyinfo.rs: how the key of a certificate signs.
pub mod Signs
use usg_supplicant.Common.{
  ℕ, Bool, List, Option, none, some, Result, ok, err, ok_or, and_then, ltb, if◌then◌else◌, ◌>>=◌,
}
use usg_supplicant.Common.Text.{octets}
use usg_supplicant.Common.Lines.{same}
use usg_supplicant.Creds.{CredError}
use usg_supplicant.Creds.Ecdsa.{p256_coord_len, p384_coord_len}

abbrev pub oid_ec_public_key : List ℕ
oid_ec_public_key = octets "1.2.840.10045.2.1"

abbrev pub oid_rsa_encryption : List ℕ
oid_rsa_encryption = octets "1.2.840.113549.1.1.1"

abbrev pub oid_p256 : List ℕ
oid_p256 = octets "1.2.840.10045.3.1.7"

abbrev pub oid_p384 : List ℕ
oid_p384 = octets "1.3.132.0.34"

abbrev pub rsa_min_bits : ℕ
rsa_min_bits = 2048

-- Those of the schemes of `rustls` that the code names.
pub data SignatureScheme : Type 0 where
  ecdsa_nistp256_sha256 ecdsa_nistp384_sha384 rsa_pss_sha256 : SignatureScheme

pub data CertKey : Type 0 where
  ecdsa : (scheme : SignatureScheme) → (coord_len : ℕ) → CertKey
  rsa_pss : (scheme : SignatureScheme) → (digest_len : ℕ) → CertKey

-- What is called of the X.509 parser: the algorithm, the size of an RSA key where there is one, and
-- the parameters of the algorithm, which may be an object identifier.
pub record PublicKeys (X A : Type 0) : Type 0 where
  pub from_der : List ℕ → Option X
  pub algorithm : X → List ℕ
  pub rsa_key_size : X → Option ℕ
  pub parameters : X → Option A
  pub as_oid : A → Option (List ℕ)

module _ {X A : Type 0} (keys : PublicKeys X A) where
  abbrev pub rsa_sized : (bits : ℕ) → Result CredError CertKey
  rsa_sized bits =
      if ltb bits rsa_min_bits
      then err CredError.unsupported_key
      else ok (CertKey.rsa_pss SignatureScheme.rsa_pss_sha256 32)

  abbrev pub rsa_key : X → Result CredError CertKey
  rsa_key cert = do bits ← ok_or (keys.rsa_key_size cert) CredError.unsupported_key; rsa_sized bits

  abbrev pub on_curve : List ℕ → Result CredError CertKey
  on_curve curve =
      if same curve oid_p256
      then ok (CertKey.ecdsa SignatureScheme.ecdsa_nistp256_sha256 p256_coord_len)
      else if same curve oid_p384
      then ok (CertKey.ecdsa SignatureScheme.ecdsa_nistp384_sha384 p384_coord_len)
      else err CredError.unsupported_key

  abbrev pub ec_key : X → Result CredError CertKey
  ec_key cert = do
    params ← ok_or (keys.parameters cert) CredError.unsupported_key
    curve ← ok_or (keys.as_oid params) CredError.unsupported_key
    on_curve curve

  abbrev pub scheme_of : X → Result CredError CertKey
  scheme_of cert =
      if same (keys.algorithm cert) oid_rsa_encryption
      then rsa_key cert
      else if same (keys.algorithm cert) oid_ec_public_key
      then ec_key cert
      else err CredError.unsupported_key

  unfoldable pub scheme_for_cert : List ℕ → Result CredError CertKey
  scheme_for_cert cert_der = do
    cert ← ok_or (keys.from_der cert_der) CredError.bad_certificate
    scheme_of cert
