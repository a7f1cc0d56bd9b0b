-- ===== src/Examples/Keys.antt =====
-- Runs of the key schedule and the Crypto-Binding under the toy MAC.
use usg_supplicant.Common.{
  ℕ, ◌*◌, ◌≤◌, ◌<◌, List, [], ◌∷◌, ok, err, length, replicate, take, drop, saturating_add, ◌≡◌, ◌≢◌,
  ◌↔◌, refl, ◌⊎◌, arith,
}
use usg_supplicant.KeySchedule.{KeySchedule, hkdf_expand, absorb_inner}
use usg_supplicant.KeySchedule.Errors.{output_too_long, bad_imsk_len}
use usg_supplicant.KeySchedule.Expand.{okm, hkdf_expand_cases}
use usg_supplicant.KeySchedule.Chain.{imck, absorb_inner_cases}
use usg_supplicant.Tlv.Body.CryptoBindingTlv.{CryptoBindingTlv}
use usg_supplicant.CryptoBind.{verify, seal}
use usg_supplicant.CryptoBind.Verified.{IsBound, verify_iff, verify-seal}
use usg_supplicant.Examples.Base.{toy_mac, toy_mac-MacLaws, toy_cmk}

hkdf_expand_cases_example :
    ((60 ≤ 32 * 255)
      × (hkdf_expand toy_mac (1 ∷ []) (2 ∷ []) 60 ≡ ok (okm toy_mac (1 ∷ []) (2 ∷ []) 60))
      × (length (okm toy_mac (1 ∷ []) (2 ∷ []) 60) ≡ 60))
    ⊎ ((32 * 255 < 60)
        × (hkdf_expand toy_mac (1 ∷ []) (2 ∷ []) 60 ≡ err (output_too_long 60 (32 * 255))))
hkdf_expand_cases_example = hkdf_expand_cases toy_mac (1 ∷ []) (2 ∷ []) toy_mac-MacLaws 60

abbrev some_chain : KeySchedule
some_chain = record { s_imck = replicate 40 3; methods = 0 }

abbrev some_imsk : List ℕ
some_imsk = replicate 32 11

absorb_inner_cases_example :
    ((length some_imsk ≡ 32)
      × (absorb_inner toy_mac some_chain some_imsk ≡ (
        ok (record { as_bytes = drop 40 (imck toy_mac toy_mac-MacLaws some_chain some_imsk) }),
        record {
          s_imck = take 40 (imck toy_mac toy_mac-MacLaws some_chain some_imsk);
          methods = saturating_add 0 1;
        },
      ))
      × (length (take 40 (imck toy_mac toy_mac-MacLaws some_chain some_imsk)) ≡ 40)
      × (length (drop 40 (imck toy_mac toy_mac-MacLaws some_chain some_imsk)) ≡ 20))
    ⊎ ((length some_imsk ≢ 32)
        × (absorb_inner toy_mac some_chain some_imsk ≡ (err (bad_imsk_len 32), some_chain)))
absorb_inner_cases_example = absorb_inner_cases toy_mac toy_mac-MacLaws some_chain some_imsk

abbrev grown_chain : KeySchedule
grown_chain = record { s_imck = replicate 40 3; methods = 1 }

abbrev a_binding : CryptoBindingTlv
a_binding = record {
  version = 1;
  received_version = 1;
  sub_type = 1;
  nonce = replicate 32 5;
  emsk_compound_mac = replicate 32 0;
  msk_compound_mac = replicate 32 9;
}

-- The same but for the MAC.
verify_iff_example : (verify toy_mac toy_cmk a_binding ≡ ok tt) ↔ IsBound toy_mac toy_cmk a_binding
verify_iff_example = verify_iff toy_mac toy_mac-MacLaws toy_cmk a_binding refl (omega arith)

verify-seal_example :
    (done : CryptoBindingTlv) × (seal toy_mac toy_cmk a_binding ≡ ok done)
    × (verify toy_mac toy_cmk done ≡ ok tt)
    × (done.version ≡ 1)
    × (done.received_version ≡ 1)
    × (done.sub_type ≡ 1)
    × (done.nonce ≡ replicate 32 5)
verify-seal_example = verify-seal toy_mac toy_mac-MacLaws toy_cmk a_binding refl
