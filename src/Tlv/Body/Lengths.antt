-- ===== src/Tlv/Body/Lengths.antt =====
-- crates/teap/src/tlv/body.rs: the Crypto-Binding body, whose MAC sizes come from its length.
use usg_supplicant.Common.{
  ℕ, ◌+◌, ◌-◌, ◌*◌, ◌/◌, ◌%◌, ◌<◌, Bool, true, List, [], ◌∷◌, ◌++◌, some, ok, ◌>>=◌, length,
  length-append, length-take, length-drop, get_range, get_range-append, get_from, get_from-append,
  take, drop, drop-length-append, take-length-append, take-append-drop, le→leb, ◌==◌, ◌≡◌, ◌≢◌,
  refl, sym, ap, subst, ◌∙◌, arith, inl, inr, Result-cases, dec_lt, ==_iff,
}
use usg_supplicant.Tlv.Body.CryptoBindingTlv.{CryptoBindingTlv, split_macs, from_value, to_tlv}

-- The shape of a Crypto-Binding TLV that can be sent: a nonce of 32 octets, and two MACs of the
-- same length, which is not 0.
pub record IsSplit (cb : CryptoBindingTlv) : Type 0 where
  pub nonce_len : length cb.nonce ≡ 32
  pub mac_some : 0 < length cb.emsk_compound_mac
  pub mac_same : length cb.emsk_compound_mac ≡ length cb.msk_compound_mac

split_macs_lem :
    (macs : List ℕ) (n : ℕ)
    → 0 < length macs
    → length macs % 2 ≡ 0
    → split_macs macs n ≡ ok (take (length macs / 2) macs, drop (length macs / 2) macs)
unfolding split_macs
split_macs_lem [] n h e = absurd (omega arith)
split_macs_lem (x ∷ xs) n h e =
    let whole : length (x ∷ xs) / 2 - 0 ≡ length (x ∷ xs) / 2 = omega arith in
    rw
      (
        e,
        whole,
        le→leb 0 (length (x ∷ xs) / 2) (omega arith),
        le→leb (length (x ∷ xs) / 2) (length (x ∷ xs)) (omega arith),
      )
      refl

-- No MACs, or a region that cannot be halved.
split_macs-eq-ok :
    (macs : List ℕ) (n : ℕ) (xs ys : List ℕ)
    → split_macs macs n ≡ ok (xs, ys)
    → (0 < length xs) × (length xs ≡ length ys) × (macs ≡ xs ++ ys)
unfolding split_macs
split_macs-eq-ok [] n xs ys h = absurd (ground arith)
split_macs-eq-ok (m ∷ ms) n xs ys h =
    let k : ℕ = length (m ∷ ms) / 2 in
    let whole : take k (m ∷ ms) ++ drop k (m ∷ ms) ≡ m ∷ ms = take-append-drop k (m ∷ ms) in
    ground (arith, whole, length-take k (m ∷ ms), length-drop k (m ∷ ms))

split_macs-append :
    (xs ys : List ℕ) (n : ℕ)
    → 0 < length xs
    → length xs ≡ length ys
    → split_macs (xs ++ ys) n ≡ ok (xs, ys)
split_macs-append xs ys n h e =
    let l : length (xs ++ ys) ≡ length xs + length ys = length-append xs ys in
    let half : length (xs ++ ys) / 2 ≡ length xs = omega arith in
    split_macs_lem (xs ++ ys) n (omega arith) (omega arith)
    ∙ rw (half, take-length-append xs ys, drop-length-append xs ys) refl

-- The octets of the fixed fields, then the nonce, then the MACs.
abbrev body_of : (reserved version received sub_type : ℕ) → List ℕ → List ℕ → List ℕ
body_of z v r s nonce macs = z ∷ v ∷ r ∷ s ∷ (nonce ++ macs)

from_value_lem :
    (z v r s : ℕ) (nonce macs : List ℕ)
    → length nonce ≡ 32
    → from_value (body_of z v r s nonce macs) ≡ (
        split_macs macs (length (body_of z v r s nonce macs)) >>= λ p. ok (record {
          version = v;
          received_version = r;
          sub_type = s;
          nonce = nonce;
          emsk_compound_mac = p.0;
          msk_compound_mac = p.1;
        }))
unfolding from_value
from_value_lem z v r s nonce macs h =
    let l : length (nonce ++ macs) ≡ 32 + length macs = length-append nonce macs ∙ omega arith in
    rw (nonce_cut, macs_cut, h) refl
  where
    nonce_cut : get_range 4 36 (body_of z v r s nonce macs) ≡ some nonce
    nonce_cut = rw h at (get_range-append (z ∷ v ∷ r ∷ s ∷ []) nonce macs)

    macs_cut : get_from 36 (body_of z v r s nonce macs) ≡ some macs
    macs_cut = rw h at (get_from-append (z ∷ v ∷ r ∷ s ∷ nonce) macs)

-- A Crypto-Binding TLV with a nonce of 32 octets and two non-empty MACs of one length is encoded,
-- and `from_value` reads the same TLV back.
pub CryptoBindingTlv_round_trip :
    (cb : CryptoBindingTlv) (m : Bool)
    → IsSplit cb
    → (to_tlv cb m >>= λ raw. from_value raw.value) ≡ ok cb
unfolding to_tlv
CryptoBindingTlv_round_trip cb m h =
    let same : (length cb.emsk_compound_mac == length cb.msk_compound_mac) ≡ true =
      (==_iff _ _).1 h.mac_same in
    rw same (
      from_value_lem 0 cb.version cb.received_version cb.sub_type cb.nonce
        (cb.emsk_compound_mac ++ cb.msk_compound_mac) h.nonce_len
      ∙ rw
          (split_macs-append cb.emsk_compound_mac cb.msk_compound_mac
            (length (
              body_of 0 cb.version cb.received_version cb.sub_type cb.nonce
                (cb.emsk_compound_mac ++ cb.msk_compound_mac)))
            h.mac_some h.mac_same)
          refl)

from_value-body_of :
    (z v r s : ℕ) (nonce macs : List ℕ) {cb : CryptoBindingTlv}
    → length nonce ≡ 32
    → from_value (body_of z v r s nonce macs) ≡ ok cb
    → IsSplit cb × (length (body_of z v r s nonce macs) ≡ 36 + 2 * length cb.emsk_compound_mac)
from_value-body_of z v r s nonce macs {cb} n h =
    elim (Result-cases (split_macs macs (length (body_of z v r s nonce macs)))) [
      | inl ((xs, ys), got) ↦
          let (some_mac, same, whole) = split_macs-eq-ok macs _ xs ys got in
          let l : length macs ≡ length xs + length ys = ap length whole ∙ length-append xs ys in
          let e : cb ≡ record {
            version = v;
            received_version = r;
            sub_type = s;
            nonce = nonce;
            emsk_compound_mac = xs;
            msk_compound_mac = ys;
          } =
            ground (arith, from_value_lem z v r s nonce macs n) in
          subst
            (λ c.
              IsSplit c
              × (length (body_of z v r s nonce macs) ≡ 36 + 2 * length c.emsk_compound_mac))
            (sym e)
            (
              record { nonce_len = n; mac_some = some_mac; mac_same = same },
              omega (arith, length-append nonce macs),
            )
      | inr (x, got) ↦ absurd (ground (arith, from_value_lem z v r s nonce macs n))
    ]

short_body :
    (z v r s : ℕ) (rest : List ℕ) {cb : CryptoBindingTlv}
    → length rest < 32
    → from_value (z ∷ v ∷ r ∷ s ∷ rest) ≢ ok cb
unfolding from_value
short_body z v r s rest h e = ground arith

-- Whatever body `from_value` accepts has at least 38 octets, an even number of them behind the
-- 36 of the prefix, and gives a nonce of 32 octets and two non-empty MACs of one length.
pub from_value-IsSplit :
    (body : List ℕ) {cb : CryptoBindingTlv}
    → from_value body ≡ ok cb
    → IsSplit cb × (length body ≡ 36 + 2 * length cb.emsk_compound_mac)
from_value-IsSplit [] h = absurd (unfold from_value in ground arith)
from_value-IsSplit (z ∷ []) h = absurd (unfold from_value in ground arith)
from_value-IsSplit (z ∷ v ∷ []) h = absurd (unfold from_value in ground arith)
from_value-IsSplit (z ∷ v ∷ r ∷ []) h = absurd (unfold from_value in ground arith)
from_value-IsSplit (z ∷ v ∷ r ∷ s ∷ rest) {cb} h = elim (dec_lt (length rest) 32) [
  | yes short ↦ absurd (short_body z v r s rest short h)
  | no long ↦
      let nonce : List ℕ = take 32 rest in
      let macs : List ℕ = drop 32 rest in
      let whole : nonce ++ macs ≡ rest = take-append-drop 32 rest in
      let n : length nonce ≡ 32 = omega (arith, length-take 32 rest) in
      subst
        (λ x.
          from_value (z ∷ v ∷ r ∷ s ∷ x) ≡ ok cb
          → IsSplit cb × (length (z ∷ v ∷ r ∷ s ∷ x) ≡ 36 + 2 * length cb.emsk_compound_mac))
        whole (from_value-body_of z v r s nonce macs n) h
]
