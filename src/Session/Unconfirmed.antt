-- ===== src/Session/Unconfirmed.antt =====
-- crates/teap/src/session.rs: the key of a session whose caller goes on after an error.
use usg_supplicant.Common.{ℕ, Bool, true, false, List, [], ◌∷◌, none, some, ok, err, ◌≡◌, refl}
use usg_supplicant.KeySchedule.{KeySchedule, Cmk, absorb_inner, derive_session_keys}
use usg_supplicant.Tlv.Error.{TlvError}
use usg_supplicant.Tlv.Raw.{RawTlv}
use usg_supplicant.Tlv.TypeId
use usg_supplicant.Tlv.Body.Fields.{ResultStatus, u16_at, status_to_u16, status_from_u16}
use usg_supplicant.Tlv.Body.ResultTlv
use usg_supplicant.Tlv.Body.IntermediateResultTlv
use usg_supplicant.Tlv.Body.IntermediateResultTlv.{IntermediateResultTlv}
use usg_supplicant.Tlv.Body.CryptoBindingTlv
use usg_supplicant.Tlv.Body.CryptoBindingTlv.{CryptoBindingTlv}
use usg_supplicant.Session.Types.{is_user, InnerStep, success, decode, done, TeapSession}
use usg_supplicant.Session.Flow.{find, of_type, any_malformed}
use usg_supplicant.Session.Binding
use usg_supplicant.Session.Machine

-- An Intermediate-Result alone, and a `Success` Result alone.
abbrev pub intermediate_only : List ℕ → List RawTlv
intermediate_only value =
    record { mandatory = true; tlv_type = TypeId.intermediate_result; value = value } ∷ []

abbrev pub result_only : List RawTlv
result_only = ResultTlv.to_tlv ResultStatus.success true ∷ []

module _ {I : Type 0} (process : I → List ℕ → InnerStep × I) where
  absorbed_step :
      (s : TeapSession I) (value imsk : List ℕ) (ir : IntermediateResultTlv) (nested : RawTlv)
      (x : TlvError) (cmk : Cmk) (ks : KeySchedule)
      → s.terminated ≡ false
      → s.imsk ≡ some imsk
      → s.cmk ≡ none
      → absorb_inner s.mac s.ks imsk ≡ (ok cmk, ks)
      → IntermediateResultTlv.from_value value ≡ ok ir
      → ir.status ≡ ResultStatus.success
      → find ir.tlvs TypeId.crypto_binding ≡ some nested
      → CryptoBindingTlv.from_value nested.value ≡ err x
      → Machine.step process s (intermediate_only value)
        ≡ (err (decode x), record s { cmk = some cmk; ks = ks })
  unfolding Machine.step Machine.stages Machine.identity_stage Machine.payload_stage
      Machine.intermediate_stage Machine.answer_of Binding.handle_inner_success Binding.after_absorb
      Binding.absorb_once Binding.located Binding.find_crypto_binding any_malformed of_type find
  absorbed_step s value imsk ir nested x cmk ks t i c a p st n b = rw (t, p, st, i, c, a, n, b) refl

  result_only-step :
      (s : TeapSession I) (cmk : Cmk) (msk emsk : List ℕ)
      → s.terminated ≡ false
      → s.cmk ≡ some cmk
      → derive_session_keys s.mac s.ks ≡ ok (msk, emsk)
      → Machine.step process s result_only
        ≡ (ok (done result_only (success msk emsk none)), record s { terminated = true })
  unfolding Machine.step Machine.stages Machine.identity_stage Machine.payload_stage
      Machine.intermediate_stage Machine.result_stage Machine.answer_of Machine.handle_result
      Machine.export_keys Machine.conclude Machine.issued_mat Machine.find_mat Machine.find_mat_in
      any_malformed of_type find ResultTlv.from_value ResultTlv.to_tlv u16_at status_to_u16
      status_from_u16
  result_only-step s cmk msk emsk t c k = by_identity (is_user s.cfg.identity) refl
    where
      by_identity :
          (b : Bool)
          → is_user s.cfg.identity ≡ b
          → Machine.step process s result_only
            ≡ (ok (done result_only (success msk emsk none)), record s { terminated = true })
      by_identity true e = rw (t, c, k, e) refl
      by_identity false e = rw (t, c, k, e) refl

  -- A session that has not ended and has an inner key but no key yet, and that the caller steps
  -- again after an `Err`: an Intermediate-Result whose nested Crypto-Binding does not decode leaves
  -- it with a key, and a `Success` Result alone then ends it in success, if the absorption and the
  -- derivation succeed. Neither message has a Crypto-Binding that decodes, so none was verified.
  pub unconfirmed_success :
      (s : TeapSession I) (value imsk : List ℕ) (ir : IntermediateResultTlv) (nested : RawTlv)
      (x : TlvError) (cmk : Cmk) (ks : KeySchedule) (msk emsk : List ℕ)
      → s.terminated ≡ false
      → s.imsk ≡ some imsk
      → s.cmk ≡ none
      → absorb_inner s.mac s.ks imsk ≡ (ok cmk, ks)
      → IntermediateResultTlv.from_value value ≡ ok ir
      → ir.status ≡ ResultStatus.success
      → find ir.tlvs TypeId.crypto_binding ≡ some nested
      → CryptoBindingTlv.from_value nested.value ≡ err x
      → derive_session_keys s.mac ks ≡ ok (msk, emsk)
      → let t = record s { cmk = some cmk; ks = ks } in
        (Machine.step process s (intermediate_only value) ≡ (err (decode x), t))
        × (Machine.step process t result_only
            ≡ (ok (done result_only (success msk emsk none)), record t { terminated = true }))
  unconfirmed_success s value imsk ir nested x cmk ks msk emsk t i c a p st n b k = (
    absorbed_step s value imsk ir nested x cmk ks t i c a p st n b,
    result_only-step (record s { cmk = some cmk; ks = ks }) cmk msk emsk t refl k,
  )
