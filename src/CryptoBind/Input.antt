-- ===== src/CryptoBind/Input.antt =====
-- crates/teap/src/cryptobind.rs: the octets that are MACed.
use usg_supplicant.CryptoBind.Errors.{CryptoBindError}
use usg_supplicant.Common.{
  Result, ℕ, ◌+◌, ◌*◌, ◌≤◌, true, List, [], ◌∷◌, ◌++◌, ok, length, take, take-length-append,
  length-replicate, replicate, length-append, ◌==◌, ◌≡◌, refl, sym, ap, subst, ◌∙◌, arith, ==_iff,
}
use usg_supplicant.Tlv.Raw.{RawTlv, encode_into, type_word}
use usg_supplicant.Tlv.Raw
use usg_supplicant.Tlv.Raw.Frame.{IsValid, frame, encode_into_lem}
use usg_supplicant.Tlv.Body.CryptoBindingTlv.{CryptoBindingTlv}
use usg_supplicant.Tlv.Body.CryptoBindingTlv
use usg_supplicant.CryptoBind.{mac_input}

-- The body with two fields of `n` zero octets, and the whole TLV.
abbrev pub zeroed_body : CryptoBindingTlv → ℕ → List ℕ
zeroed_body cb n =
    0
    ∷ cb.version
    ∷ cb.received_version
    ∷ cb.sub_type
    ∷ (cb.nonce ++ (replicate n 0 ++ replicate n 0))

abbrev zeroed_tlv : CryptoBindingTlv → ℕ → RawTlv
zeroed_tlv cb n = Raw.new true 14 (zeroed_body cb n)

unfoldable pub macced : CryptoBindingTlv → ℕ → List ℕ
macced cb n = frame (zeroed_tlv cb n)

length-zeroed_body :
    (cb : CryptoBindingTlv) (n : ℕ) → length (zeroed_body cb n) ≡ 4 + length cb.nonce + 2 * n
length-zeroed_body cb n = omega (
  arith,
  length-append cb.nonce (replicate n 0 ++ replicate n 0),
  length-append {A = ℕ} (replicate n 0) (replicate n 0),
  length-replicate {A = ℕ} n 0,
)

zeroed-IsValid :
    (cb : CryptoBindingTlv) (n : ℕ) → length cb.nonce ≡ 32 → n ≤ 64 → IsValid (zeroed_tlv cb n)
zeroed-IsValid cb n h m = record {
  type_ne_zero = omega arith;
  type_fits = omega arith;
  value_fits = omega (arith, length-zeroed_body cb n);
}

-- With a nonce of 32 octets, the MACed octets are those of the TLV with both MAC fields zero.
pub mac_input_lem :
    (cb : CryptoBindingTlv) (n : ℕ)
    → length cb.nonce ≡ 32
    → n ≤ 64
    → mac_input cb n ≡ ok (macced cb n)
unfolding mac_input CryptoBindingTlv.to_tlv Raw.encode macced
mac_input_lem cb n h m =
    let same : (length {A = ℕ} (replicate n 0) == length {A = ℕ} (replicate n 0)) ≡ true =
      (==_iff _ _).1 refl in
    rw (same, encode_into_lem (zeroed_tlv cb n) [] (zeroed-IsValid cb n h m)) refl

-- The MACed octets determine the versions, the sub-type and the nonce.
pub macced-injective :
    (a b : CryptoBindingTlv) (n : ℕ)
    → length a.nonce ≡ 32
    → length b.nonce ≡ 32
    → macced a n ≡ macced b n
    → (a.version ≡ b.version)
      × (a.received_version ≡ b.received_version)
      × (a.sub_type ≡ b.sub_type)
      × (a.nonce ≡ b.nonce)
unfolding macced
macced-injective a b n ha hb e =
    let zeros : List ℕ = replicate n 0 ++ replicate n 0 in
    let tails : a.nonce ++ zeros ≡ b.nonce ++ zeros = cc e in
    let cut : take 32 (a.nonce ++ zeros) ≡ take 32 (b.nonce ++ zeros) = ap (take 32) tails in
    let left : take 32 (a.nonce ++ zeros) ≡ a.nonce =
      subst (λ k. take k (a.nonce ++ zeros) ≡ a.nonce) ha (take-length-append a.nonce zeros) in
    let right : take 32 (b.nonce ++ zeros) ≡ b.nonce =
      subst (λ k. take k (b.nonce ++ zeros) ≡ b.nonce) hb (take-length-append b.nonce zeros) in
    (cc e, cc e, cc e, sym left ∙ cut ∙ right)

-- Two TLVs with nonces of 32 octets whose MAC inputs, for one MAC of at most 64 octets, are the
-- same have the same versions, sub-type and nonce: the MAC covers each of these fields.
mac_input-injective :
    (a b : CryptoBindingTlv) (n : ℕ)
    → length a.nonce ≡ 32
    → length b.nonce ≡ 32
    → n ≤ 64
    → mac_input a n ≡ mac_input b n
    → (a.version ≡ b.version)
      × (a.received_version ≡ b.received_version)
      × (a.sub_type ≡ b.sub_type)
      × (a.nonce ≡ b.nonce)
mac_input-injective a b n ha hb m e =
    let left : Result CryptoBindError (List ℕ) = ok (macced a n) in
    let same : left ≡ ok (macced b n) = sym (mac_input_lem a n ha m) ∙ e ∙ mac_input_lem b n hb m in
    macced-injective a b n ha hb (cc same)
