-- ===== src/CryptoBind.antt =====
-- crates/teap/src/cryptobind.rs: compute, seal and verify the MSK Compound MAC.
pub mod Errors
pub mod Compare
pub mod Input
pub mod Verified
use usg_supplicant.Common.{
  ℕ, zero, suc, ◌+◌, ◌-◌, ◌*◌, ◌/◌, ◌%◌, ◌≤◌, ◌<◌, max, bit_and, bit_or, bit_xor, Bool, true, false,
  not, ◌&&◌, ◌||◌, List, [], ◌∷◌, ◌++◌, append-nil, append_assoc, Option, none, some, Result, ok,
  err, ◌>>=◌, ◌>>◌, guard, ok_or, map_err, and_then, unwrap_or, is_some, length, first, take, drop,
  take_all, ℕ_discrete, dec_lt, ◌↔◌, length-replicate, replicate, get_range, get_from, is_empty,
  get_range-append, get_from-append, length-append, length-take, length-drop, take-append-drop, All,
  All-append, saturating_add, inl, inr, le→ltb, lt→ltb, leb, ltb, ◌==◌, if◌then◌else◌, ◌≡◌, ◌≢◌,
  ◌⊎◌, refl, sym, ap, subst, ◌∙◌, arith, le→leb, ==_iff, Bool-cases, Option-cases, Result-cases,
}
use usg_supplicant.KeySchedule.{TeapMac, Cmk}
use usg_supplicant.Tlv.Error.{TlvError}
use usg_supplicant.Tlv.Raw
use usg_supplicant.Tlv.Body.CryptoBindingTlv
use usg_supplicant.Tlv.Body.CryptoBindingTlv.{CryptoBindingTlv}
use Errors.{CryptoBindError, bad_mac_len, emsk_mac_not_zero, mac_mismatch, encode}

abbrev pub cb_subtype_request : ℕ
cb_subtype_request = 1

abbrev pub cb_subtype_response : ℕ
cb_subtype_response = 2

abbrev pub teap_version : ℕ
teap_version = 1

-- The loop `diff |= x ^ y` over the zipped slices.
unfoldable pub diff_loop : ℕ → List ℕ → List ℕ → ℕ
diff_loop diff (x ∷ xs) (y ∷ ys) = diff_loop (bit_or diff (bit_xor x y)) xs ys
diff_loop diff _ _ = diff

unfoldable pub ct_eq : List ℕ → List ℕ → Bool
ct_eq a b = if not (length a == length b) then false else diff_loop 0 a b == 0

-- Both MAC fields as `mac_len` zero octets.
abbrev pub zeroed : CryptoBindingTlv → ℕ → CryptoBindingTlv
zeroed cb mac_len = record cb {
  emsk_compound_mac = replicate mac_len 0;
  msk_compound_mac = replicate mac_len 0;
}

unfoldable pub mac_input : CryptoBindingTlv → ℕ → Result CryptoBindError (List ℕ)
mac_input cb mac_len =
    map_err encode (CryptoBindingTlv.to_tlv (zeroed cb mac_len) true >>= λ raw. Raw.encode raw)

unfoldable pub compute_msk_compound_mac :
    TeapMac → Cmk → CryptoBindingTlv → Result CryptoBindError (List ℕ)
compute_msk_compound_mac mac cmk cb = do
  input ← mac_input cb mac.hash_len
  ok (mac.hmac cmk.as_bytes input)

-- The sealed TLV; on an error the source leaves the TLV as it was.
unfoldable pub seal : TeapMac → Cmk → CryptoBindingTlv → Result CryptoBindError CryptoBindingTlv
seal mac cmk cb = do
  computed ← compute_msk_compound_mac mac cmk cb
  ok (record cb { emsk_compound_mac = replicate mac.hash_len 0; msk_compound_mac = computed })

-- `iter().any(|&b| b != 0)`
unfoldable pub any_nonzero : List ℕ → Bool
any_nonzero [] = false
any_nonzero (x ∷ xs) = not (x == 0) || any_nonzero xs

unfoldable pub verify : TeapMac → Cmk → CryptoBindingTlv → Result CryptoBindError (Unit {0})
verify mac cmk cb = do
  guard (length cb.msk_compound_mac == mac.hash_len)
      (bad_mac_len mac.hash_len (length cb.msk_compound_mac))
  guard (length cb.emsk_compound_mac == mac.hash_len)
      (bad_mac_len mac.hash_len (length cb.emsk_compound_mac))
  guard (not (any_nonzero cb.emsk_compound_mac)) emsk_mac_not_zero
  expected ← compute_msk_compound_mac mac cmk cb
  guard (ct_eq expected cb.msk_compound_mac) mac_mismatch
