-- ===== src/CryptoBind/Verified.antt =====
-- crates/teap/src/cryptobind.rs: what `verify` accepts, and `verify` behind `seal`.
use usg_supplicant.Common.{
  ℕ, true, false, List, ok, length, ◌↔◌, length-replicate, replicate, ◌==◌, ◌≡◌, refl, sym, ap, ◌∙◌,
  arith, ==_iff,
}
use usg_supplicant.Common.Bytes.{AreBytes}
use usg_supplicant.KeySchedule.{TeapMac, Cmk}
use usg_supplicant.KeySchedule.Expand.{MacLaws}
use usg_supplicant.Tlv.Body.CryptoBindingTlv.{CryptoBindingTlv}
use usg_supplicant.CryptoBind.{compute_msk_compound_mac, seal, verify, any_nonzero, ct_eq}
use usg_supplicant.CryptoBind.Compare.{ct_eq_iff, any_nonzero_iff}
use usg_supplicant.CryptoBind.Input.{macced, mac_input_lem}

-- The two MAC fields as the profile wants them: EMSK all zero, MSK the MAC of the TLV with both
-- fields zero.
pub record IsBound (mac : TeapMac) (cmk : Cmk) (cb : CryptoBindingTlv) : Type 0 where
  pub emsk_zero : cb.emsk_compound_mac ≡ replicate mac.hash_len 0
  pub msk_mac : cb.msk_compound_mac ≡ mac.hmac cmk.as_bytes (macced cb mac.hash_len)

module _ (mac : TeapMac) (laws : MacLaws mac) (cmk : Cmk) where
  compute_lem :
      (cb : CryptoBindingTlv)
      → length cb.nonce ≡ 32
      → compute_msk_compound_mac mac cmk cb ≡ ok (mac.hmac cmk.as_bytes (macced cb mac.hash_len))
  unfolding compute_msk_compound_mac
  compute_lem cb h = rw (mac_input_lem cb mac.hash_len h laws.hash_small) refl

  -- For a MAC that keeps the laws, `verify` accepts exactly the TLVs whose EMSK field is as many zeros as the hash has octets and
  -- whose MSK field is the MAC, under the key, of the TLV with both fields zero. (The TLV has a
  -- nonce of 32 octets and an MSK field of octets.)
  pub verify_iff :
      (cb : CryptoBindingTlv)
      → length cb.nonce ≡ 32
      → AreBytes cb.msk_compound_mac
      → (verify mac cmk cb ≡ ok tt) ↔ IsBound mac cmk cb
  unfolding verify
  verify_iff cb h bytes = (
    λ e. record {
      emsk_zero = ground (arith, compute_lem cb h, any_nonzero_iff cb.emsk_compound_mac);
      msk_mac = ground (
        arith,
        compute_lem cb h,
        ct_eq_iff (mac.hmac cmk.as_bytes (macced cb mac.hash_len)) cb.msk_compound_mac
            (laws.hmac-bytes cmk.as_bytes (macced cb mac.hash_len)) bytes,
      );
    },
    λ b.
        let n : ℕ = mac.hash_len in
        let m : List ℕ = mac.hmac cmk.as_bytes (macced cb n) in
        let l : length cb.msk_compound_mac ≡ n =
          ap length b.msk_mac ∙ laws.length-hmac cmk.as_bytes (macced cb n) in
        let l' : length cb.emsk_compound_mac ≡ n = ap length b.emsk_zero ∙ length-replicate n 0 in
        let same : ct_eq m cb.msk_compound_mac ≡ true =
          (ct_eq_iff m cb.msk_compound_mac (laws.hmac-bytes cmk.as_bytes (macced cb n)) bytes).1
            (sym b.msk_mac) in
        let zero_field : any_nonzero cb.emsk_compound_mac ≡ false =
          (any_nonzero_iff cb.emsk_compound_mac).1 (rw l' b.emsk_zero) in
        let one : (n == n) ≡ true = (==_iff n n).1 refl in
        rw (l, l', one, zero_field, compute_lem cb h, same) refl,
  )

  -- The TLV that `seal` makes.
  unfoldable pub sealed : CryptoBindingTlv → CryptoBindingTlv
  sealed cb = record cb {
    emsk_compound_mac = replicate mac.hash_len 0;
    msk_compound_mac = mac.hmac cmk.as_bytes (macced cb mac.hash_len);
  }

  macced-sealed : (cb : CryptoBindingTlv) (n : ℕ) → macced (sealed cb) n ≡ macced cb n
  unfolding macced sealed
  macced-sealed cb n = refl

  pub seal_lem : (cb : CryptoBindingTlv) → length cb.nonce ≡ 32 → seal mac cmk cb ≡ ok (sealed cb)
  unfolding seal sealed
  seal_lem cb h = rw (compute_lem cb h) refl

  pub sealed-IsBound : (cb : CryptoBindingTlv) → IsBound mac cmk (sealed cb)
  unfolding sealed
  sealed-IsBound cb = record {
    emsk_zero = refl;
    msk_mac = ap (mac.hmac cmk.as_bytes) (sym (macced-sealed cb mac.hash_len));
  }

  -- For a MAC that keeps the laws, `seal` succeeds on every TLV with a nonce of 32 octets: it changes nothing but the two MAC
  -- fields, and `verify` accepts the result under the same key.
  pub verify-seal :
      (cb : CryptoBindingTlv)
      → length cb.nonce ≡ 32
      → (done : CryptoBindingTlv) × (seal mac cmk cb ≡ ok done)
        × (verify mac cmk done ≡ ok tt)
        × (done.version ≡ cb.version)
        × (done.received_version ≡ cb.received_version)
        × (done.sub_type ≡ cb.sub_type)
        × (done.nonce ≡ cb.nonce)
  unfolding sealed
  verify-seal cb h = (
    sealed cb,
    seal_lem cb h,
    (verify_iff (sealed cb) h (laws.hmac-bytes cmk.as_bytes (macced cb mac.hash_len))).1
        (sealed-IsBound cb),
    refl,
    refl,
    refl,
    refl,
  )
