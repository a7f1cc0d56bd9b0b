-- ===== src/Eaphost/Builder.antt =====
-- crates/eaphost/src/builder.rs: the driver of a session with the credential of its identity.
use usg_supplicant.Common.{
  ℕ, ◌/◌, ◌%◌, ◌+◌, List, [], ◌∷◌, Option, none, some, Result, ok, map_err, first, ltb,
  if◌then◌else◌, ◌>>=◌,
}
use usg_supplicant.Fips.Connect.{ClientAuth, Rustls}
use usg_supplicant.Session.Types.{Identity}
use usg_supplicant.Supplicant.Types.{DriverConfig, DriverError}
use usg_supplicant.Supplicant.Builder.{Wired, assemble_driver}
use usg_supplicant.Creds.{CredError, CertSelector}

-- The text of a driver error is not looked at.
pub data BuildError : Type 0 where
  credential : CredError → BuildError
  driver : DriverError → BuildError

-- The key stores of Windows: a signer for the certificate of the machine or of the user, and its
-- chain.
pub record KeyStores (R : Type 0) : Type 0 where
  pub machine_signer : CertSelector → Result CredError R
  pub user_signer : CertSelector → Result CredError R
  pub cert_chain : R → List (List ℕ)
  pub sha256 : List ℕ → List ℕ

-- One digit of `{b:02X}`.
abbrev upper_digit : ℕ → ℕ
upper_digit n = if ltb n 10 then 48 + n else 55 + n

unfoldable pub hex_upper : List ℕ → List ℕ
hex_upper [] = []
hex_upper (b ∷ bytes) = upper_digit (b / 16) ∷ upper_digit (b % 16) ∷ hex_upper bytes

module _ {R B F C : Type 0} (stores : KeyStores R) (rustls : Rustls R B F C) where
  abbrev pub signer_of : Identity → CertSelector → Result CredError R
  signer_of Identity.machine selector = stores.machine_signer selector
  signer_of Identity.user selector = stores.user_signer selector

  abbrev pub thumbprint_of : Option (List ℕ) → List ℕ
  thumbprint_of none = []
  thumbprint_of (some der) = hex_upper (stores.sha256 der)

  unfoldable pub build_driver :
      DriverConfig → (roots : List (List ℕ)) → CertSelector → Result BuildError (Wired C × List ℕ)
  build_driver cfg roots selector = do
    signer ← map_err BuildError.credential (signer_of cfg.identity selector)
    built ←
        map_err BuildError.driver (assemble_driver rustls cfg roots (ClientAuth.resolver signer))
    ok (built, thumbprint_of (first (stores.cert_chain signer)))
