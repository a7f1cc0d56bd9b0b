-- ===== src/Examples/Honest.antt =====
-- A session that is brought to its success by an honest server.
use usg_supplicant.Common.{ℕ, true, false, List, [], ◌∷◌, none, some, ok, replicate, ◌≡◌, refl}
use usg_supplicant.KeySchedule.{Cmk, KeySchedule, absorb_inner, derive_session_keys}
use usg_supplicant.CryptoBind.{seal}
use usg_supplicant.Tlv.Raw.{RawTlv}
use usg_supplicant.Tlv.Body.Fields.{ResultStatus}
use usg_supplicant.Tlv.Body.ResultTlv
use usg_supplicant.Tlv.Body.CryptoBindingTlv
use usg_supplicant.Tlv.Body.CryptoBindingTlv.{CryptoBindingTlv}
use usg_supplicant.Session.Types.{Identity, success, done, TeapSession}
use usg_supplicant.Session.Machine
use usg_supplicant.Session.Completes.{request_of, binding_tlv, confirmation, confirmation_succeeds}
use usg_supplicant.Examples.Base.{toy_mac, toy_mac-MacLaws}
use usg_supplicant.Examples.Conversation.{process}

abbrev waiting : TeapSession (Unit {0})
waiting = record {
  cfg = record { identity = Identity.user; mat_vendor_id = 311; mat_to_present = none };
  mac = toy_mac;
  inner = tt;
  ks = record { s_imck = replicate 40 0; methods = 0 };
  cmk = none;
  imsk = some (replicate 32 1);
  presented_mat = true;
  terminated = false;
}

confirmation_succeeds_example :
    (cmk : Cmk) × (ks : KeySchedule) × (cb : CryptoBindingTlv) × (reply : RawTlv) × (msk : List ℕ)
    × (emsk : List ℕ) × (absorb_inner toy_mac waiting.ks (replicate 32 1) ≡ (ok cmk, ks))
    × (seal toy_mac cmk (request_of (replicate 32 5)) ≡ ok cb)
    × (CryptoBindingTlv.to_tlv cb true ≡ ok (binding_tlv cb))
    × (derive_session_keys toy_mac ks ≡ ok (msk, emsk))
    × (Machine.step process waiting (confirmation cb) ≡ (
      ok (done (reply ∷ ResultTlv.to_tlv ResultStatus.success true ∷ []) (success msk emsk none)),
      record waiting { cmk = some cmk; ks = ks; terminated = true },
    ))
confirmation_succeeds_example =
    confirmation_succeeds process waiting (replicate 32 1) (replicate 32 5) toy_mac-MacLaws refl
      refl refl refl refl
