-- ===== src/Creds/KeyInfo/Signs.antt =====
-- crates/creds/src/keyinfo.rs and ecdsa.rs: from the key of a certificate to its signatures.
use usg_supplicant.Common.{
  ℕ, Bool, true, false, List, ◌++◌, Option, none, some, Result, ok, err, ok_or, length, ltb,
  if◌then◌else◌, ◌>>=◌, ◌≡◌, refl, subst, ◌⊎◌, inl, inr, [], ◌∷◌, ◌&&◌, ◌==◌, ==_iff,
}
use usg_supplicant.Common.Text.{octets}
use usg_supplicant.Common.Bytes.{AreBytes}
use usg_supplicant.Common.Lines.{same}
use usg_supplicant.Creds.{CredError}
use usg_supplicant.Creds.Ecdsa.{raw_to_der}
use usg_supplicant.Creds.Ecdsa.Reader.{number, read_signature}
use usg_supplicant.Creds.Ecdsa.Decodes.{read_signature-raw_to_der}
use usg_supplicant.Creds.KeyInfo.{
  CertKey, SignatureScheme, PublicKeys, scheme_for_cert, on_curve, rsa_key, rsa_sized, ec_key,
  scheme_of, oid_rsa_encryption, oid_ec_public_key, oid_p256, oid_p384,
}

-- The ECDSA schemes with the named curve and the coordinate length that each one has (RFC 5480,
-- section 2.1.1.1, and RFC 8446, section 4.2.3).
abbrev pub IsOfCurve : (curve : List ℕ) → SignatureScheme → (coord_len : ℕ) → Type 0
IsOfCurve curve scheme n =
    ((curve ≡ octets "1.2.840.10045.3.1.7")
      × (scheme ≡ SignatureScheme.ecdsa_nistp256_sha256)
      × (n ≡ 32))
    ⊎ ((curve ≡ octets "1.3.132.0.34")
        × (scheme ≡ SignatureScheme.ecdsa_nistp384_sha384)
        × (n ≡ 48))

same_sound : (xs ys : List ℕ) → same xs ys ≡ true → xs ≡ ys
unfolding same
same_sound [] [] e = refl
same_sound [] (y ∷ ys) e = let no : ⊥ = cc e in elim no [ ]
same_sound (x ∷ xs) [] e = let no : ⊥ = cc e in elim no [ ]
same_sound (x ∷ xs) (y ∷ ys) e = at_first (x == y) refl e (λ t. same_sound xs ys t)
  where
    at_first :
        (b : Bool)
        → (x == y) ≡ b
        → (b && same xs ys) ≡ true
        → (same xs ys ≡ true → xs ≡ ys)
        → (x ∷ xs) ≡ (y ∷ ys)
    at_first true h t more = rw ((==_iff x y).0 h, more t) refl
    at_first false h t more = let no : ⊥ = cc t in elim no [ ]

module _ {X A : Type 0} (keys : PublicKeys X A) where
  -- The certificate parses to one with an elliptic-curve key, whose parameters name the curve.
  pub record OnCurve (cert_der : List ℕ) (scheme : SignatureScheme) (coord_len : ℕ) : Type 0 where
    pub cert : X
    pub params : A
    pub curve : List ℕ
    pub parsed : keys.from_der cert_der ≡ some cert
    pub elliptic : keys.algorithm cert ≡ octets "1.2.840.10045.2.1"
    pub has_params : keys.parameters cert ≡ some params
    pub named : keys.as_oid params ≡ some curve
    pub of_curve : IsOfCurve curve scheme coord_len

  -- An ECDSA key is what `P` says of its scheme and length; nothing is said of others.
  abbrev Where : (SignatureScheme → ℕ → Type 0) → Result CredError CertKey → Type 0
  Where P (ok (CertKey.ecdsa scheme n)) = P scheme n
  Where P (ok (CertKey.rsa_pss scheme n)) = Unit {0}
  Where P (err e) = Unit {0}

  on_curve-IsOfCurve : (curve : List ℕ) → Where (IsOfCurve curve) (on_curve keys curve)
  on_curve-IsOfCurve curve = at_tests (same curve oid_p256) (same curve oid_p384) refl refl
    where
      at_tests :
          (a b : Bool)
          → same curve oid_p256 ≡ a
          → same curve oid_p384 ≡ b
          → Where (IsOfCurve curve) (
              if a
              then ok (CertKey.ecdsa SignatureScheme.ecdsa_nistp256_sha256 32)
              else if b
              then ok (CertKey.ecdsa SignatureScheme.ecdsa_nistp384_sha384 48)
              else err CredError.unsupported_key)
      at_tests true b h k = inl (same_sound curve oid_p256 h, refl, refl)
      at_tests false true h k = inr (same_sound curve oid_p384 k, refl, refl)
      at_tests false false h k = tt

  module _ (cert_der : List ℕ) (cert : X) (parsed : keys.from_der cert_der ≡ some cert) where
    ec_key-OnCurve :
        keys.algorithm cert ≡ oid_ec_public_key → Where (OnCurve cert_der) (ec_key keys cert)
    ec_key-OnCurve elliptic = at_params (keys.parameters cert) refl
      where
        at_key :
            (params : A) (curve : List ℕ) (r : Result CredError CertKey)
            → keys.parameters cert ≡ some params
            → keys.as_oid params ≡ some curve
            → Where (IsOfCurve curve) r
            → Where (OnCurve cert_der) r
        at_key params curve (ok (CertKey.ecdsa scheme n)) h k f = record {
          cert = cert;
          params = params;
          curve = curve;
          parsed = parsed;
          elliptic = elliptic;
          has_params = h;
          named = k;
          of_curve = f;
        }
        at_key params curve (ok (CertKey.rsa_pss scheme n)) h k f = tt
        at_key params curve (err e) h k f = tt

        at_oid :
            (params : A) (o : Option (List ℕ))
            → keys.parameters cert ≡ some params
            → keys.as_oid params ≡ o
            → Where
                (OnCurve cert_der)
                (ok_or o CredError.unsupported_key >>= λ curve. on_curve keys curve)
        at_oid params none h k = tt
        at_oid params (some curve) h k =
            at_key params curve (on_curve keys curve) h k (on_curve-IsOfCurve curve)

        at_params :
            (o : Option A)
            → keys.parameters cert ≡ o
            → Where (OnCurve cert_der) (
                ok_or o CredError.unsupported_key >>= λ params.
                ok_or (keys.as_oid params) CredError.unsupported_key >>= λ curve.
                on_curve keys curve)
        at_params none h = tt
        at_params (some params) h = at_oid params (keys.as_oid params) h refl

    rsa_key-OnCurve : Where (OnCurve cert_der) (rsa_key keys cert)
    rsa_key-OnCurve = at_parsed (keys.rsa_key_size cert)
      where
        at_size :
            (small : Bool)
            → Where (OnCurve cert_der) (
                if small
                then err CredError.unsupported_key
                else ok (CertKey.rsa_pss SignatureScheme.rsa_pss_sha256 32))
        at_size true = tt
        at_size false = tt

        at_parsed :
            (o : Option ℕ)
            → Where
                (OnCurve cert_der)
                (ok_or o CredError.unsupported_key >>= λ bits. rsa_sized keys bits)
        at_parsed none = tt
        at_parsed (some bits) = at_size (ltb bits 2048)

    scheme_of-OnCurve : Where (OnCurve cert_der) (scheme_of keys cert)
    scheme_of-OnCurve =
        at_algorithm (same (keys.algorithm cert) oid_rsa_encryption)
          (same (keys.algorithm cert) oid_ec_public_key) refl
      where
        at_algorithm :
            (rsa ec : Bool)
            → same (keys.algorithm cert) oid_ec_public_key ≡ ec
            → Where (OnCurve cert_der) (
                if rsa
                then rsa_key keys cert
                else if ec
                then ec_key keys cert
                else err CredError.unsupported_key)
        at_algorithm true ec h = rsa_key-OnCurve
        at_algorithm false true h =
            ec_key-OnCurve (same_sound (keys.algorithm cert) oid_ec_public_key h)
        at_algorithm false false h = tt

  scheme_for_cert-OnCurve :
      (cert_der : List ℕ) → Where (OnCurve cert_der) (scheme_for_cert keys cert_der)
  unfolding scheme_for_cert
  scheme_for_cert-OnCurve cert_der = at_cert (keys.from_der cert_der) refl
    where
      at_cert :
          (o : Option X)
          → keys.from_der cert_der ≡ o
          → Where
              (OnCurve cert_der)
              (ok_or o CredError.bad_certificate >>= λ cert. scheme_of keys cert)
      at_cert none h = tt
      at_cert (some cert) h = scheme_of-OnCurve cert_der cert h

  coordinates :
      (curve : List ℕ) (scheme : SignatureScheme) (n : ℕ)
      → IsOfCurve curve scheme n
      → (n ≡ 32) ⊎ (n ≡ 48)
  coordinates curve scheme n (inl (_, _, e)) = inl e
  coordinates curve scheme n (inr (_, _, e)) = inr e

  -- Where the key of a certificate is taken as an ECDSA key, the certificate parses, its algorithm
  -- is id-ecPublicKey, its parameters name P-256 or P-384, and the scheme and the length are those
  -- of this curve; and every raw signature of two coordinates of that length becomes a DER SEQUENCE
  -- of two INTEGERs that a strict reader reads, to the very end, as the two numbers that the
  -- coordinates stand for.
  pub accepted_key_signs :
      (cert_der : List ℕ) (scheme : SignatureScheme) (n : ℕ) (r s : List ℕ)
      → scheme_for_cert keys cert_der ≡ ok (CertKey.ecdsa scheme n)
      → length r ≡ n
      → length s ≡ n
      → AreBytes r
      → AreBytes s
      → OnCurve cert_der scheme n
        × ((der : List ℕ) × (raw_to_der (r ++ s) n ≡ ok der)
            × (read_signature der ≡ some (number 0 r, number 0 s)))
  accepted_key_signs cert_der scheme n r s e lr ls br bs =
      let a : OnCurve cert_der scheme n =
        subst (λ x. Where (OnCurve cert_der) x) e (scheme_for_cert-OnCurve cert_der) in
      (a, read_signature-raw_to_der r s n (coordinates a.curve scheme n a.of_curve) lr ls br bs)
