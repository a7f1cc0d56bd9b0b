-- ===== src/Creds.antt =====
-- crates/creds/src: which certificate is selected from a store.
pub mod Selection
pub mod Ecdsa
pub mod KeyInfo
use usg_supplicant.Common.{
  ℕ, zero, suc, Bool, true, false, not, ◌&&◌, ◌||◌, List, [], ◌∷◌, Option, none, some, Result, ok,
  err, map_err, ok_or, is_some, saturating_add, if◌then◌else◌, ◌==◌, ◌>>=◌,
}
use usg_supplicant.Common.Lines.{same}

pub data CredError : Type 0 where
  no_matching_cert : CredError
  ambiguous_match : (count : ℕ) → CredError
  bad_certificate no_signing_key : CredError
  store_failure : (detail : ℕ) → CredError
  bad_signature unsupported_key : CredError

pub record CertSelector : Type 0 where
  pub thumbprint_sha256 : Option (List ℕ)
  pub require_client_auth_eku : Bool
  pub subject_contains : Option (List ℕ)
  pub issuer_contains : Option (List ℕ)

-- What `matches` calls of the digest and of the X.509 parser: `client_auth` is `false` where there is no such
-- extension or it cannot be read.
pub record Certificates (X : Type 0) : Type 0 where
  pub sha256 : List ℕ → List ℕ
  pub from_der : List ℕ → Option X
  pub client_auth : X → Bool
  pub subject : X → List ℕ
  pub issuer : X → List ℕ

unfoldable pub starts_with : (prefix text : List ℕ) → Bool
starts_with [] text = true
starts_with (p ∷ ps) [] = false
starts_with (p ∷ ps) (c ∷ cs) = p == c && starts_with ps cs

-- `str::contains`
unfoldable pub contains : (part text : List ℕ) → Bool
contains part [] = starts_with part []
contains part (c ∷ cs) = starts_with part (c ∷ cs) || contains part cs

-- A criterion that is not set holds.
abbrev pub contains_set : Option (List ℕ) → List ℕ → Bool
contains_set none text = true
contains_set (some part) text = contains part text

abbrev pub thumbprint_ok : Option (List ℕ) → List ℕ → Bool
thumbprint_ok none got = true
thumbprint_ok (some want) got = same got want

module _ {X : Type 0} (x509 : Certificates X) where
  abbrev pub needs_parse : CertSelector → Bool
  needs_parse s =
      s.require_client_auth_eku || is_some s.subject_contains || is_some s.issuer_contains

  abbrev pub matches_parsed : CertSelector → X → Bool
  matches_parsed s cert =
      (not s.require_client_auth_eku || x509.client_auth cert)
      && contains_set s.subject_contains (x509.subject cert)
      && contains_set s.issuer_contains (x509.issuer cert)

  unfoldable pub matches : CertSelector → List ℕ → Result CredError Bool
  matches s cert_der =
      if thumbprint_ok s.thumbprint_sha256 (x509.sha256 cert_der)
      then (if needs_parse s
          then (do
            cert ← ok_or (x509.from_der cert_der) CredError.bad_certificate
            ok (matches_parsed s cert))
          else ok true)
      else ok false

  -- `match (found, count)`.
  abbrev pub selected : Option (List ℕ) → ℕ → Result CredError (List ℕ)
  selected found zero = err CredError.no_matching_cert
  selected none (suc n) = err (CredError.ambiguous_match (suc n))
  selected (some cert) (suc zero) = ok cert
  selected (some cert) (suc (suc n)) = err (CredError.ambiguous_match (suc (suc n)))

  abbrev pub note_match : (List ℕ) → Bool → Option (List ℕ) × ℕ → Option (List ℕ) × ℕ
  note_match cert true (found, count) = (some cert, saturating_add count 1)
  note_match cert false p = p

  unfoldable pub select_loop :
      CertSelector → List (List ℕ) → Option (List ℕ) × ℕ → Result CredError (List ℕ)
  select_loop s [] (found, count) = selected found count
  select_loop s (cert ∷ certs) p = do
    matched ← matches s cert
    select_loop s certs (note_match cert matched p)

  unfoldable pub select : CertSelector → List (List ℕ) → Result CredError (List ℕ)
  select s certs = select_loop s certs (none, 0)
