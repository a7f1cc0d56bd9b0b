-- ===== src/Examples/Signing.antt =====
-- A certificate with a key on P-256 (crates/creds/src/keyinfo.rs), and a signature by it.
use usg_supplicant.Common.{
  ◌++◌, ℕ, List, ◌∷◌, none, some, ok, ◌≡◌, refl, arith, zero, suc, ◌<◌, replicate,
}
use usg_supplicant.Common.Text.{octets}
use usg_supplicant.Common.Lines.{same}
use usg_supplicant.Common.Bytes.{AreBytes}
use usg_supplicant.Creds.Ecdsa.{raw_to_der}
use usg_supplicant.Creds.Ecdsa.Reader.{number, read_signature}
use usg_supplicant.Creds.KeyInfo.{
  CertKey, SignatureScheme, PublicKeys, scheme_for_cert, oid_ec_public_key,
}
use usg_supplicant.Creds.KeyInfo.Signs.{OnCurve, accepted_key_signs}

-- A certificate is the object identifier of its curve.
abbrev curves : PublicKeys (List ℕ) (List ℕ)
curves = record {
  from_der = λ der. some der;
  algorithm = λ cert. oid_ec_public_key;
  rsa_key_size = λ cert. none;
  parameters = λ cert. some cert;
  as_oid = λ params. some params;
}

-- The high bit of the first number is set; the second one has a zero in front.
abbrev first : List ℕ
first = replicate 32 200

abbrev second : List ℕ
second = 0 ∷ replicate 31 7

on_p256 :
    scheme_for_cert curves (octets "1.2.840.10045.3.1.7")
    ≡ ok (CertKey.ecdsa SignatureScheme.ecdsa_nistp256_sha256 32)
unfolding scheme_for_cert same
on_p256 = refl

replicate-AreBytes : (n b : ℕ) → b < 256 → AreBytes (replicate n b)
replicate-AreBytes zero b h = tt
replicate-AreBytes (suc n) b h = (h, replicate-AreBytes n b h)

accepted_key_signs_example :
    OnCurve curves (octets "1.2.840.10045.3.1.7") SignatureScheme.ecdsa_nistp256_sha256 32
    × ((der : List ℕ) × (raw_to_der (first ++ second) 32 ≡ ok der)
        × (read_signature der ≡ some (number 0 first, number 0 second)))
accepted_key_signs_example =
    accepted_key_signs curves (octets "1.2.840.10045.3.1.7") SignatureScheme.ecdsa_nistp256_sha256
      32 first second on_p256 refl refl (replicate-AreBytes 32 200 (omega arith))
      (omega arith, replicate-AreBytes 31 7 (omega arith))
