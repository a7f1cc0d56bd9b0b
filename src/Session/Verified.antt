-- ===== src/Session/Verified.antt =====
-- crates/teap/src/session.rs: the Intermediate-Result stage and the check of its Crypto-Binding.
use usg_supplicant.Common.{
  ℕ, false, List, Option, none, some, Result, ok, err, ◌≡◌, refl, subst, inl, inr, arith,
  Bool-cases,
}
use usg_supplicant.KeySchedule.{Cmk, absorb_inner}
use usg_supplicant.KeySchedule.Errors.{KeyScheduleError}
use usg_supplicant.CryptoBind
use usg_supplicant.CryptoBind.Errors.{CryptoBindError}
use usg_supplicant.Tlv.Error.{TlvError}
use usg_supplicant.Tlv.Raw.{RawTlv}
use usg_supplicant.Tlv.TypeId
use usg_supplicant.Tlv.Body.Fields.{ResultStatus}
use usg_supplicant.Tlv.Body.IntermediateResultTlv
use usg_supplicant.Tlv.Body.IntermediateResultTlv.{IntermediateResultTlv}
use usg_supplicant.Tlv.Body.CryptoBindingTlv.{CryptoBindingTlv}
use usg_supplicant.Session.Types.{SessionError, TeapSession}
use usg_supplicant.Session.Flow.{find}
use usg_supplicant.Session.Binding
use usg_supplicant.Session.Machine
use usg_supplicant.Session.Stages.{Confirmed, Effect, Effect-trans}

fields_lem :
    (cb : CryptoBindingTlv)
    → Binding.wrong_fields cb ≡ false
    → (cb.sub_type ≡ 1) × (cb.version ≡ 1) × (cb.received_version ≡ 1)
fields_lem cb e = ground arith

module _ {I : Type 0} where
  -- Behind `find_crypto_binding`: what goes on has been verified under the key that is there.
  emitted-Effect :
      (r : Result TlvError RawTlv) (s : TeapSession I) (out inbound : List RawTlv)
      → Effect s inbound (Binding.emitted r s out)
  emitted-Effect (ok t) s out inbound = (refl, inl refl)
  emitted-Effect (err e) s out inbound = tt

  sealed_with-Effect :
      (r : Result CryptoBindError CryptoBindingTlv) (s : TeapSession I) (out inbound : List RawTlv)
      → Effect s inbound (Binding.sealed_with r s out)
  unfolding Binding.emit_response
  sealed_with-Effect (ok resp) s out inbound =
      emitted-Effect (Binding.binding_response resp) s out inbound
  sealed_with-Effect (err e) s out inbound = tt

  seal_response-Effect :
      (s : TeapSession I) (out inbound : List RawTlv) (cmk : Cmk) (cb : CryptoBindingTlv)
      → Effect s inbound (Binding.seal_response s out cmk cb)
  unfolding Binding.seal_response
  seal_response-Effect s out inbound cmk cb =
      sealed_with-Effect (CryptoBind.seal s.mac cmk (Binding.as_response cb)) s out inbound

  -- In the rest `s` is the state before the stage and `t` the one after the absorption.
  verified_with-Effect :
      (r : Result CryptoBindError (Unit {0})) (s t : TeapSession I) (out inbound : List RawTlv)
      (cmk : Cmk) (cb : CryptoBindingTlv)
      → t.mac ≡ s.mac
      → t.cmk ≡ some cmk
      → (r ≡ ok tt → Confirmed s.mac cmk inbound)
      → Effect s inbound (Binding.verified_with r t out cmk cb)
  verified_with-Effect (ok tt) s t out inbound cmk cb m e c =
      Effect-trans s t inbound (Binding.seal_response t out cmk cb) m (inr (cmk, e, c refl))
        (seal_response-Effect t out inbound cmk cb)
  verified_with-Effect (err x) s t out inbound cmk cb m e c = tt

  verify_binding-Effect :
      (s t : TeapSession I) (out inbound : List RawTlv) (cmk : Cmk) (cb : CryptoBindingTlv)
      → t.mac ≡ s.mac
      → t.cmk ≡ some cmk
      → (CryptoBind.verify s.mac cmk cb ≡ ok tt → Confirmed s.mac cmk inbound)
      → Effect s inbound (Binding.verify_binding t out cmk cb)
  unfolding Binding.verify_binding
  verify_binding-Effect s t out inbound cmk cb m e c =
      verified_with-Effect (CryptoBind.verify t.mac cmk cb) s t out inbound cmk cb m e
        (λ v. c (subst (λ x. CryptoBind.verify x cmk cb ≡ ok tt) m v))

  with_cmk-Effect :
      (o : Option Cmk) (s t : TeapSession I) (out inbound : List RawTlv) (cb : CryptoBindingTlv)
      → t.mac ≡ s.mac
      → t.cmk ≡ o
      → ((cmk : Cmk) → CryptoBind.verify s.mac cmk cb ≡ ok tt → Confirmed s.mac cmk inbound)
      → Effect s inbound (Binding.with_cmk o t out cb)
  with_cmk-Effect none s t out inbound cb m e c = tt
  with_cmk-Effect (some cmk) s t out inbound cb m e c =
      verify_binding-Effect s t out inbound cmk cb m e (c cmk)

  check_binding-Effect :
      (s t : TeapSession I) (out inbound : List RawTlv) (cb : CryptoBindingTlv)
      → t.mac ≡ s.mac
      → ((cmk : Cmk)
          → (cb.sub_type ≡ 1) × (cb.version ≡ 1) × (cb.received_version ≡ 1)
          → CryptoBind.verify s.mac cmk cb ≡ ok tt
          → Confirmed s.mac cmk inbound)
      → Effect s inbound (Binding.check_binding t out cb)
  unfolding Binding.check_binding
  check_binding-Effect s t out inbound cb m c = elim (Bool-cases (Binding.wrong_fields cb)) [
    | inl e ↦ rw e tt
    | inr e ↦
        rw e (with_cmk-Effect t.cmk s t out inbound cb m refl (λ cmk v. c cmk (fields_lem cb e) v))
  ]

  located-Effect :
      (r : Result SessionError (Option CryptoBindingTlv)) (s t : TeapSession I)
      (out inbound : List RawTlv)
      → t.mac ≡ s.mac
      → ((cmk : Cmk) (cb : CryptoBindingTlv)
          → r ≡ ok (some cb)
          → (cb.sub_type ≡ 1) × (cb.version ≡ 1) × (cb.received_version ≡ 1)
          → CryptoBind.verify s.mac cmk cb ≡ ok tt
          → Confirmed s.mac cmk inbound)
      → Effect s inbound (Binding.located r t out)
  unfolding Binding.located
  located-Effect (err e) s t out inbound m c = tt
  located-Effect (ok none) s t out inbound m c = tt
  located-Effect (ok (some cb)) s t out inbound m c =
      check_binding-Effect s t out inbound cb m (λ cmk. c cmk cb refl)

  -- The absorption keeps the MAC.
  abbrev AbsorbKeeps : TeapSession I → Result KeyScheduleError (Unit {0}) × TeapSession I → Type 0
  AbsorbKeeps s (r, t) = t.mac ≡ s.mac

  store_cmk-keeps :
      (r : Result KeyScheduleError Cmk) (s t : TeapSession I)
      → t.mac ≡ s.mac
      → AbsorbKeeps s (Binding.store_cmk r t)
  store_cmk-keeps (ok cmk) s t m = m
  store_cmk-keeps (err e) s t m = m

  absorb_once-keeps :
      (s : TeapSession I) (imsk : List ℕ) → AbsorbKeeps s (Binding.absorb_once s imsk)
  unfolding Binding.absorb_once
  absorb_once-keeps s imsk = into s.cmk
    where
      into : (o : Option Cmk) → AbsorbKeeps s (Binding.absorb_into o s imsk)
      into (some cmk) = refl
      into none =
          let p = absorb_inner s.mac s.ks imsk in store_cmk-keeps p.0 s (record s { ks = p.1 }) refl

  after_absorb-Effect :
      (s : TeapSession I) (p : Result KeyScheduleError (Unit {0}) × TeapSession I)
      (inbound : List RawTlv) (ir : IntermediateResultTlv) (raw : RawTlv) (out : List RawTlv)
      → AbsorbKeeps s p
      → find inbound TypeId.intermediate_result ≡ some raw
      → IntermediateResultTlv.from_value raw.value ≡ ok ir
      → ir.status ≡ ResultStatus.success
      → Effect s inbound (Binding.after_absorb p inbound ir out)
  unfolding Binding.after_absorb
  after_absorb-Effect s (err e, t) inbound ir raw out m f p st = tt
  after_absorb-Effect s (ok tt, t) inbound ir raw out m f p st =
      located-Effect (Binding.find_crypto_binding inbound ir) s t out inbound m
        (λ cmk cb l (a, b, c) v. record {
          raw = raw;
          ir = ir;
          cb = cb;
          has_ir = f;
          ir_parsed = p;
          ir_success = st;
          has_cb = l;
          is_request = a;
          is_version = b;
          is_received = c;
          verified = v;
        })

  inner_result-Effect :
      (status : ResultStatus) (s : TeapSession I) (inbound : List RawTlv)
      (ir : IntermediateResultTlv) (raw : RawTlv) (out : List RawTlv)
      → find inbound TypeId.intermediate_result ≡ some raw
      → IntermediateResultTlv.from_value raw.value ≡ ok ir
      → ir.status ≡ status
      → Effect s inbound (Machine.inner_result status ir inbound out s)
  unfolding Binding.handle_inner_success
  inner_result-Effect ResultStatus.success s inbound ir raw out f p st = with_imsk s.imsk
    where
      with_imsk :
          (o : Option (List ℕ)) → Effect s inbound (Binding.inner_success_with o s inbound ir out)
      with_imsk none = tt
      with_imsk (some imsk) =
          after_absorb-Effect s (Binding.absorb_once s imsk) inbound ir raw out
            (absorb_once-keeps s imsk) f p st
  inner_result-Effect _ s inbound ir raw out f p st = tt

  -- The Intermediate-Result stage sets the key only together with a verified Crypto-Binding.
  pub intermediate_stage-Effect :
      (inbound out : List RawTlv) (s : TeapSession I)
      → Effect s inbound (Machine.intermediate_stage inbound out s)
  unfolding Machine.intermediate_stage
  intermediate_stage-Effect inbound out s = found (find inbound TypeId.intermediate_result) refl
    where
      parsed :
          (raw : RawTlv) (r : Result TlvError IntermediateResultTlv)
          → find inbound TypeId.intermediate_result ≡ some raw
          → IntermediateResultTlv.from_value raw.value ≡ r
          → Effect s inbound (Machine.intermediate_parsed r inbound out s)
      parsed raw (err e) f p = tt
      parsed raw (ok ir) f p = inner_result-Effect ir.status s inbound ir raw out f p refl

      found :
          (o : Option RawTlv)
          → find inbound TypeId.intermediate_result ≡ o
          → Effect s inbound (Machine.intermediate_found o inbound out s)
      found none f = (refl, inl refl)
      found (some raw) f = parsed raw (IntermediateResultTlv.from_value raw.value) f refl
