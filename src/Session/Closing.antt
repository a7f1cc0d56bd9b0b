-- ===== src/Session/Closing.antt =====
-- crates/teap/src/session.rs: how each stage of `step` ends the session where it does.
use usg_supplicant.Common.{
  ℕ, Bool, true, false, not, ◌&&◌, List, [], ◌∷◌, ◌++◌, Option, none, some, Result, ok, err, ◌==◌,
  if◌then◌else◌, length, ◌≡◌, refl, ◌⊎◌, inl, inr, arith, Bool-cases,
}
use usg_supplicant.KeySchedule.{Cmk, derive_session_keys}
use usg_supplicant.KeySchedule.Errors.{KeyScheduleError}
use usg_supplicant.CryptoBind
use usg_supplicant.CryptoBind.Errors.{CryptoBindError}
use usg_supplicant.Tlv.Error.{TlvError}
use usg_supplicant.Tlv.Raw.{RawTlv}
use usg_supplicant.Tlv.TypeId
use usg_supplicant.Tlv.Body.Fields.{ResultStatus}
use usg_supplicant.Tlv.Body.IdentityType
use usg_supplicant.Tlv.Body.IdentityType.{IdentityType}
use usg_supplicant.Tlv.Body.ResultTlv
use usg_supplicant.Tlv.Body.EapPayloadTlv
use usg_supplicant.Tlv.Body.IntermediateResultTlv
use usg_supplicant.Tlv.Body.IntermediateResultTlv.{IntermediateResultTlv}
use usg_supplicant.Tlv.Body.CryptoBindingTlv.{CryptoBindingTlv}
use usg_supplicant.Session.Types.{
  matches, is_user, InnerStep, respond, finished, failed, FailReason, identity_mismatch,
  inner_failed, missing_crypto_binding, crypto_binding, server_failure, key_schedule, bad_imsk,
  bad_crypto_binding_fields, success, failure, SessionError, continues, done, TeapSession, Answer,
}
use usg_supplicant.Session.Flow.{Flow, leave, go_on, then_stage, fail, find}
use usg_supplicant.Session.Binding
use usg_supplicant.Session.Machine
use usg_supplicant.Session.Flow.{failure_tlv}

module _ {I : Type 0} where
  -- An answer that ends the session, with the state it leaves. A failure sends, last of all, the
  -- `Failure` Result.
  abbrev pub Closed : Answer × TeapSession I → Type 0
  Closed (ok (continues out), t) = Unit {0}
  Closed (ok (done send (success msk emsk mat)), t) =
      (t.terminated ≡ true)
      × ((out : List RawTlv) × (send ≡ out ++ ResultTlv.to_tlv ResultStatus.success true ∷ []))
      × ((is_user t.cfg.identity ≡ false) ⊎ (mat ≡ none))
  Closed (ok (done send (failure reason)), t) =
      (t.terminated ≡ true) × ((out : List RawTlv) × (send ≡ out ++ failure_tlv ∷ []))
  Closed (err e, t) = Unit {0}

  abbrev pub ClosedFlow : Flow × TeapSession I → Type 0
  ClosedFlow (leave a, t) = Closed (a, t)
  ClosedFlow (go_on out, t) = Unit {0}

  pub then_stage-Closed :
      (r : Flow × TeapSession I) (k : List RawTlv → TeapSession I → Flow × TeapSession I)
      → ClosedFlow r
      → ((out : List RawTlv) (t : TeapSession I) → ClosedFlow (k out t))
      → ClosedFlow (then_stage r k)
  then_stage-Closed (leave a, t) k e f = e
  then_stage-Closed (go_on out, t) k e f = f out t

  fail-Closed :
      (s : TeapSession I) (out : List RawTlv) (reason : FailReason) → ClosedFlow (fail s out reason)
  fail-Closed s out reason = (refl, (out, refl))

  pub identity-Closed :
      (inbound : List RawTlv) (s : TeapSession I) → ClosedFlow (Machine.identity_stage inbound s)
  unfolding Machine.identity_stage Machine.present_mat
  identity-Closed inbound s = found (find inbound TypeId.identity_type)
    where
      parsed : (r : Result TlvError IdentityType) → ClosedFlow (Machine.identity_parsed r s)
      parsed (err e) = tt
      parsed (ok it) = elim (Bool-cases (matches s.cfg.identity it)) [
        | inl e ↦ rw e (elim (Bool-cases (is_user s.cfg.identity && not s.presented_mat)) [
          | inl f ↦ rw f tt
          | inr f ↦ rw f tt
        ])
        | inr e ↦ rw e (fail-Closed s [] identity_mismatch)
      ]

      found : (o : Option RawTlv) → ClosedFlow (Machine.identity_found o s)
      found none = tt
      found (some raw) = parsed (IdentityType.from_value raw.value)

  pub payload-Closed :
      (process : I → List ℕ → InnerStep × I) (inbound out : List RawTlv) (s : TeapSession I)
      → ClosedFlow (Machine.payload_stage process inbound out s)
  unfolding Machine.payload_stage
  payload-Closed process inbound out s = found (find inbound TypeId.eap_payload)
    where
      stepped :
          (st : InnerStep) (t : TeapSession I) → ClosedFlow (Machine.inner_step process st t out)
      stepped (respond resp) t = tt
      stepped (finished imsk) t = elim (Bool-cases (length imsk == 32)) [
        | inl e ↦ rw e tt
        | inr e ↦ rw e (fail-Closed t out bad_imsk)
      ]
      stepped failed t = fail-Closed t out inner_failed

      found : (o : Option RawTlv) → ClosedFlow (Machine.payload_found process o out s)
      found none = tt
      found (some raw) =
          let p = process s.inner (EapPayloadTlv.from_value raw.value).eap in
          stepped p.0 (record s { inner = p.1 })

  verified-Closed :
      (r : Result CryptoBindError (Unit {0})) (s : TeapSession I) (out : List RawTlv) (cmk : Cmk)
      (cb : CryptoBindingTlv)
      → ClosedFlow (Binding.verified_with r s out cmk cb)
  unfolding Binding.seal_response Binding.emit_response
  verified-Closed (err e) s out cmk cb = fail-Closed s out (crypto_binding e)
  verified-Closed (ok tt) s out cmk cb = sealed (CryptoBind.seal s.mac cmk (Binding.as_response cb))
    where
      sent : (r : Result TlvError RawTlv) → ClosedFlow (Binding.emitted r s out)
      sent (ok t) = tt
      sent (err e) = tt

      sealed :
          (r : Result CryptoBindError CryptoBindingTlv) → ClosedFlow (Binding.sealed_with r s out)
      sealed (ok resp) = sent (Binding.binding_response resp)
      sealed (err e) = fail-Closed s out (crypto_binding e)

  located-Closed :
      (r : Result SessionError (Option CryptoBindingTlv)) (s : TeapSession I) (out : List RawTlv)
      → ClosedFlow (Binding.located r s out)
  unfolding Binding.located Binding.check_binding Binding.verify_binding
  located-Closed (err e) s out = tt
  located-Closed (ok none) s out = fail-Closed s out missing_crypto_binding
  located-Closed (ok (some cb)) s out = elim (Bool-cases (Binding.wrong_fields cb)) [
    | inl e ↦ rw e (fail-Closed s out bad_crypto_binding_fields)
    | inr e ↦ rw e (keyed s.cmk)
  ]
    where
      keyed : (o : Option Cmk) → ClosedFlow (Binding.with_cmk o s out cb)
      keyed none = fail-Closed s out missing_crypto_binding
      keyed (some cmk) = verified-Closed (CryptoBind.verify s.mac cmk cb) s out cmk cb

  pub intermediate-Closed :
      (inbound out : List RawTlv) (s : TeapSession I)
      → ClosedFlow (Machine.intermediate_stage inbound out s)
  unfolding Machine.intermediate_stage Binding.handle_inner_success Binding.after_absorb
  intermediate-Closed inbound out s = found (find inbound TypeId.intermediate_result)
    where
      absorbed :
          (ir : IntermediateResultTlv) (p : Result KeyScheduleError (Unit {0}) × TeapSession I)
          → ClosedFlow (Binding.after_absorb p inbound ir out)
      absorbed ir (err e, t) = fail-Closed t out (key_schedule e)
      absorbed ir (ok tt, t) = located-Closed (Binding.find_crypto_binding inbound ir) t out

      keyed :
          (ir : IntermediateResultTlv) (o : Option (List ℕ))
          → ClosedFlow (Binding.inner_success_with o s inbound ir out)
      keyed ir none = fail-Closed s out inner_failed
      keyed ir (some imsk) = absorbed ir (Binding.absorb_once s imsk)

      checked :
          (ir : IntermediateResultTlv) (status : ResultStatus)
          → ClosedFlow (Machine.inner_result status ir inbound out s)
      checked ir ResultStatus.success = keyed ir s.imsk
      checked ir _ = fail-Closed s out inner_failed

      parsed :
          (r : Result TlvError IntermediateResultTlv)
          → ClosedFlow (Machine.intermediate_parsed r inbound out s)
      parsed (err e) = tt
      parsed (ok ir) = checked ir ir.status

      found : (o : Option RawTlv) → ClosedFlow (Machine.intermediate_found o inbound out s)
      found none = tt
      found (some raw) = parsed (IntermediateResultTlv.from_value raw.value)

  issued_mat-user :
      (s : TeapSession I) (inbound : List RawTlv) (mat : Option (List ℕ))
      → Machine.issued_mat s inbound ≡ ok mat
      → (is_user s.cfg.identity ≡ false) ⊎ (mat ≡ none)
  unfolding Machine.issued_mat
  issued_mat-user s inbound mat e = elim (Bool-cases (is_user s.cfg.identity)) [
    | inl u ↦ inr (rejected (is_user s.cfg.identity) u e)
    | inr u ↦ inl u
  ]
    where
      rejected :
          (b : Bool)
          → b ≡ true
          → (if b then ok none else Machine.find_mat inbound s.cfg.mat_vendor_id) ≡ ok mat
          → mat ≡ none
      rejected true u e = cc e
      rejected false u e = ground arith

  pub result-Closed :
      (inbound out : List RawTlv) (s : TeapSession I)
      → ClosedFlow (Machine.result_stage inbound out s)
  unfolding Machine.result_stage Machine.handle_result Machine.export_keys Machine.conclude
  result-Closed inbound out s = found (find inbound TypeId.result)
    where
      concluded :
          (r : Result SessionError (Option (List ℕ))) (keys : List ℕ × List ℕ)
          → Machine.issued_mat s inbound ≡ r
          → ClosedFlow (Machine.conclude r keys s out)
      concluded (err e) keys i = tt
      concluded (ok mat) (msk, emsk) i = (refl, (out, refl), issued_mat-user s inbound mat i)

      exported :
          (r : Result KeyScheduleError (List ℕ × List ℕ))
          → ClosedFlow (Machine.export_keys r s inbound out)
      exported (err e) = fail-Closed s out (key_schedule e)
      exported (ok keys) = concluded (Machine.issued_mat s inbound) keys refl

      keyed : (o : Option Cmk) → ClosedFlow (Machine.result_with o s inbound out)
      keyed none = fail-Closed s out missing_crypto_binding
      keyed (some cmk) = exported (derive_session_keys s.mac s.ks)

      parsed :
          (r : Result TlvError ResultStatus) → ClosedFlow (Machine.result_parsed r inbound out s)
      parsed (err e) = tt
      parsed (ok ResultStatus.success) = keyed s.cmk
      parsed (ok _) = fail-Closed s out server_failure

      found : (o : Option RawTlv) → ClosedFlow (Machine.result_found o inbound out s)
      found none = tt
      found (some raw) = parsed (ResultTlv.from_value raw.value)

  pub answer_of-Closed : (r : Flow × TeapSession I) → ClosedFlow r → Closed (Machine.answer_of r)
  unfolding Machine.answer_of
  answer_of-Closed (leave a, t) c = c
  answer_of-Closed (go_on out, t) c = tt
