-- ===== src/Session/Stages.antt =====
-- crates/teap/src/session.rs: the stages of `step` and the key that the outcome rests on.
use usg_supplicant.Common.{
  ℕ, not, ◌&&◌, List, Option, none, some, Result, ok, err, ◌==◌, length, ◌≡◌, refl, subst, ◌∙◌, ◌⊎◌,
  inl, inr, Bool-cases,
}
use usg_supplicant.KeySchedule.{TeapMac, Cmk}
use usg_supplicant.CryptoBind
use usg_supplicant.Tlv.Error.{TlvError}
use usg_supplicant.Tlv.Raw.{RawTlv}
use usg_supplicant.Tlv.TypeId
use usg_supplicant.Tlv.Body.Fields.{ResultStatus}
use usg_supplicant.Tlv.Body.IdentityType
use usg_supplicant.Tlv.Body.IdentityType.{IdentityType}
use usg_supplicant.Tlv.Body.EapPayloadTlv
use usg_supplicant.Tlv.Body.IntermediateResultTlv
use usg_supplicant.Tlv.Body.IntermediateResultTlv.{IntermediateResultTlv}
use usg_supplicant.Tlv.Body.CryptoBindingTlv.{CryptoBindingTlv}
use usg_supplicant.Session.Types.{
  matches, is_user, InnerStep, respond, finished, failed, success, failure, continues, done,
  TeapSession, Answer,
}
use usg_supplicant.Session.Flow.{Flow, leave, go_on, then_stage, find}
use usg_supplicant.Session.Binding
use usg_supplicant.Session.Machine

-- The message has a `Success` Intermediate-Result, and the Crypto-Binding that goes with it is a
-- request of version 1 on both sides that verifies under `cmk`.
pub record Confirmed (mac : TeapMac) (cmk : Cmk) (inbound : List RawTlv) : Type 0 where
  pub raw : RawTlv
  pub ir : IntermediateResultTlv
  pub cb : CryptoBindingTlv
  pub has_ir : find inbound TypeId.intermediate_result ≡ some raw
  pub ir_parsed : IntermediateResultTlv.from_value raw.value ≡ ok ir
  pub ir_success : ir.status ≡ ResultStatus.success
  pub has_cb : Binding.find_crypto_binding inbound ir ≡ ok (some cb)
  pub is_request : cb.sub_type ≡ 1
  pub is_version : cb.version ≡ 1
  pub is_received : cb.received_version ≡ 1
  pub verified : CryptoBind.verify mac cmk cb ≡ ok tt

abbrev pub NoSuccess : Answer → Type 0
NoSuccess (ok (done send (success msk emsk mat))) = ⊥
NoSuccess (ok (done send (failure reason))) = Unit {0}
NoSuccess (ok (continues out)) = ⊥
NoSuccess (err e) = Unit {0}

module _ {I : Type 0} where
  -- The key is as before, or a Crypto-Binding was verified under it.
  abbrev pub Keyed : TeapSession I → List RawTlv → TeapSession I → Type 0
  Keyed s inbound s' =
      (s'.cmk ≡ s.cmk) ⊎ ((cmk : Cmk) × (s'.cmk ≡ some cmk) × Confirmed s.mac cmk inbound)

  -- A stage that leaves does not succeed, or go on; one that goes on has the MAC, and is `Keyed`.
  abbrev pub Effect : TeapSession I → List RawTlv → Flow × TeapSession I → Type 0
  Effect s inbound (leave a, s') = NoSuccess a
  Effect s inbound (go_on out, s') = (s'.mac ≡ s.mac) × Keyed s inbound s'

  Keyed-trans :
      (s t u : TeapSession I) (inbound : List RawTlv)
      → t.mac ≡ s.mac
      → Keyed s inbound t
      → Keyed t inbound u
      → Keyed s inbound u
  Keyed-trans s t u inbound m (inl a) (inl b) = inl (b ∙ a)
  Keyed-trans s t u inbound m (inr (cmk, e, c)) (inl b) = inr (cmk, b ∙ e, c)
  Keyed-trans s t u inbound m a (inr (cmk, e, c)) =
      inr (cmk, e, subst (λ x. Confirmed x cmk inbound) m c)

  pub Effect-trans :
      (s t : TeapSession I) (inbound : List RawTlv) (r : Flow × TeapSession I)
      → t.mac ≡ s.mac
      → Keyed s inbound t
      → Effect t inbound r
      → Effect s inbound r
  Effect-trans s t inbound (leave a, u) m k e = e
  Effect-trans s t inbound (go_on out, u) m k (e, f) = (e ∙ m, Keyed-trans s t u inbound m k f)

  pub then_stage-Effect :
      (s : TeapSession I) (inbound : List RawTlv) (r : Flow × TeapSession I)
      (k : List RawTlv → TeapSession I → Flow × TeapSession I)
      → Effect s inbound r
      → ((out : List RawTlv) (t : TeapSession I) → Effect t inbound (k out t))
      → Effect s inbound (then_stage r k)
  then_stage-Effect s inbound (leave a, t) k e f = e
  then_stage-Effect s inbound (go_on out, t) k (m, e) f =
      Effect-trans s t inbound (k out t) m e (f out t)

  present_mat-Effect :
      (s : TeapSession I) (inbound : List RawTlv) → Effect s inbound (Machine.present_mat s)
  unfolding Machine.present_mat
  present_mat-Effect s inbound = elim (Bool-cases (is_user s.cfg.identity && not s.presented_mat)) [
    | inl e ↦ rw e (refl, inl refl)
    | inr e ↦ rw e (refl, inl refl)
  ]

  pub identity_stage-Effect :
      (s : TeapSession I) (inbound : List RawTlv)
      → Effect s inbound (Machine.identity_stage inbound s)
  unfolding Machine.identity_stage
  identity_stage-Effect s inbound = found (find inbound TypeId.identity_type)
    where
      parsed : (r : Result TlvError IdentityType) → Effect s inbound (Machine.identity_parsed r s)
      parsed (err e) = tt
      parsed (ok it) = elim (Bool-cases (matches s.cfg.identity it)) [
        | inl e ↦ rw e (present_mat-Effect s inbound)
        | inr e ↦ rw e tt
      ]

      found : (o : Option RawTlv) → Effect s inbound (Machine.identity_found o s)
      found none = (refl, inl refl)
      found (some raw) = parsed (IdentityType.from_value raw.value)

  pub payload_stage-Effect :
      (process : I → List ℕ → InnerStep × I) (inbound out : List RawTlv) (s : TeapSession I)
      → Effect s inbound (Machine.payload_stage process inbound out s)
  unfolding Machine.payload_stage
  payload_stage-Effect process inbound out s = found (find inbound TypeId.eap_payload)
    where
      stepped :
          (st : InnerStep) (inner : I)
          → Effect s inbound (Machine.inner_step process st (record s { inner = inner }) out)
      stepped (respond resp) inner = (refl, inl refl)
      stepped (finished imsk) inner = elim (Bool-cases (length imsk == 32)) [
        | inl e ↦ rw e (refl, inl refl)
        | inr e ↦ rw e tt
      ]
      stepped failed inner = tt

      found : (o : Option RawTlv) → Effect s inbound (Machine.payload_found process o out s)
      found none = (refl, inl refl)
      found (some raw) =
          let p = process s.inner (EapPayloadTlv.from_value raw.value).eap in stepped p.0 p.1
