-- ===== src/Session/Sourced/Stages.antt =====
-- crates/teap/src/session.rs: the stages of `step` and the sources of the keys.
use usg_supplicant.Common.{
  ℕ, not, ◌&&◌, List, [], ◌∷◌, ◌++◌, Option, none, some, Result, ok, err, length, ◌==◌, ==_iff, ◌≡◌,
  refl, ap, sym, subst, ◌∙◌, inl, inr, Bool-cases, arith,
}
use usg_supplicant.KeySchedule.{TeapMac, Cmk, KeySchedule, absorb_inner}
use usg_supplicant.KeySchedule.Errors.{KeyScheduleError}
use usg_supplicant.CryptoBind
use usg_supplicant.CryptoBind.Errors.{CryptoBindError}
use usg_supplicant.Tlv.Error.{TlvError}
use usg_supplicant.Tlv.Raw.{RawTlv}
use usg_supplicant.Tlv.TypeId
use usg_supplicant.Tlv.Body.Fields.{ResultStatus}
use usg_supplicant.Tlv.Body.IdentityType
use usg_supplicant.Tlv.Body.IdentityType.{IdentityType}
use usg_supplicant.Tlv.Body.EapPayloadTlv
use usg_supplicant.Tlv.Body.IntermediateResultTlv
use usg_supplicant.Tlv.Body.IntermediateResultTlv.{IntermediateResultTlv}
use usg_supplicant.Tlv.Body.CryptoBindingTlv.{CryptoBindingTlv}
use usg_supplicant.Session.Types.{
  matches, is_user, InnerStep, respond, finished, failed, SessionError, TeapSession,
}
use usg_supplicant.Session.Flow.{find}
use usg_supplicant.Session.Binding
use usg_supplicant.Session.Machine
use usg_supplicant.Session.Sourced.{fed, Released, fed-append, Sourced, FlowSourced, if-FlowSourced}

module _ {I : Type 0} (process : I → List ℕ → InnerStep × I) (start : I) (first : KeySchedule)
    (mac : TeapMac) where
  pub identity_stage-FlowSourced :
      (inbound : List RawTlv) (s : TeapSession I)
      → Sourced process start first mac s
      → FlowSourced process start first mac (Machine.identity_stage inbound s)
  unfolding Machine.identity_stage Machine.present_mat
  identity_stage-FlowSourced inbound s h = found (find inbound TypeId.identity_type)
    where
      parsed :
          (r : Result TlvError IdentityType)
          → FlowSourced process start first mac (Machine.identity_parsed r s)
      parsed (err e) = tt
      parsed (ok it) =
          if-FlowSourced process start first mac (matches s.cfg.identity it) (Machine.present_mat s)
            _
            (if-FlowSourced process start first mac (is_user s.cfg.identity && not s.presented_mat)
              _ _ h h)
            tt

      found : (o : Option RawTlv) → FlowSourced process start first mac (Machine.identity_found o s)
      found none = h
      found (some raw) = parsed (IdentityType.from_value raw.value)

  at_fed :
      (packets : List (List ℕ)) {i : I} {eap : List ℕ} {p : InnerStep × I}
      → fed process start packets ≡ i
      → process i eap ≡ p
      → process (fed process start packets) eap ≡ p
  at_fed packets {i} {eap} {p} f e = subst (λ j. process j eap ≡ p) (sym f) e

  -- A packet more for the inner method, and its key where it returns one.
  inner_step-FlowSourced :
      (eap : List ℕ) (s : TeapSession I) (out : List RawTlv) (p : InnerStep × I)
      → process s.inner eap ≡ p
      → Sourced process start first mac s
      → FlowSourced process start first mac
          (Machine.inner_step process p.0 (record s { inner = p.1 }) out)
  inner_step-FlowSourced eap s out (failed, i) e h = tt
  inner_step-FlowSourced eap s out (respond resp, i) e ((packets, f), k, a, m) = (
    (
      packets ++ eap ∷ [],
      fed-append process start packets eap ∙ ap (λ p. p.1) (at_fed packets f e),
    ),
    k,
    a,
    m,
  )
  inner_step-FlowSourced eap s out (finished imsk, i) e ((packets, f), k, a, m) =
      elim (Bool-cases (length imsk == 32)) [
        | inl t ↦ rw t (
          (
            packets ++ eap ∷ [],
            fed-append process start packets eap ∙ ap (λ p. p.1) (at_fed packets f e),
          ),
          λ x has.
              let same : imsk ≡ x = cc has in
              subst (Released process start) same (record {
                eaps = packets;
                eap = eap;
                returned = ap (λ p. p.0) (at_fed packets f e);
                full = omega (arith, (==_iff (length imsk) 32).0 t);
              }),
          a,
          m,
        )
        | inr t ↦ rw t tt
      ]

  pub payload_stage-FlowSourced :
      (inbound out : List RawTlv) (s : TeapSession I)
      → Sourced process start first mac s
      → FlowSourced process start first mac (Machine.payload_stage process inbound out s)
  unfolding Machine.payload_stage
  payload_stage-FlowSourced inbound out s h = found (find inbound TypeId.eap_payload)
    where
      found :
          (o : Option RawTlv)
          → FlowSourced process start first mac (Machine.payload_found process o out s)
      found none = h
      found (some raw) =
          let eap = (EapPayloadTlv.from_value raw.value).eap in
          inner_step-FlowSourced eap s out (process s.inner eap) refl h

  -- What stands behind the absorption changes nothing that is asked for here.
  check_binding-FlowSourced :
      (s : TeapSession I) (out : List RawTlv) (cb : CryptoBindingTlv)
      → Sourced process start first mac s
      → FlowSourced process start first mac (Binding.check_binding s out cb)
  unfolding Binding.check_binding Binding.verify_binding Binding.seal_response Binding.emit_response
  check_binding-FlowSourced s out cb h =
      if-FlowSourced process start first mac (Binding.wrong_fields cb) _ _ tt (with_cmk s.cmk)
    where
      emitted :
          (r : Result TlvError RawTlv)
          → FlowSourced process start first mac (Binding.emitted r s out)
      emitted (ok t) = h
      emitted (err e) = tt

      sealed :
          (r : Result CryptoBindError CryptoBindingTlv)
          → FlowSourced process start first mac (Binding.sealed_with r s out)
      sealed (ok resp) = emitted (Binding.binding_response resp)
      sealed (err e) = tt

      verified :
          (r : Result CryptoBindError (Unit {0})) (cmk : Cmk)
          → FlowSourced process start first mac (Binding.verified_with r s out cmk cb)
      verified (ok u) cmk = sealed (CryptoBind.seal s.mac cmk (Binding.as_response cb))
      verified (err e) cmk = tt

      with_cmk :
          (o : Option Cmk) → FlowSourced process start first mac (Binding.with_cmk o s out cb)
      with_cmk none = tt
      with_cmk (some cmk) = verified (CryptoBind.verify s.mac cmk cb) cmk

  after_absorb-FlowSourced :
      (r : Result KeyScheduleError (Unit {0})) (s : TeapSession I) (inbound out : List RawTlv)
      (ir : IntermediateResultTlv)
      → (r ≡ ok tt → Sourced process start first mac s)
      → FlowSourced process start first mac (Binding.after_absorb (r, s) inbound ir out)
  unfolding Binding.after_absorb Binding.located
  after_absorb-FlowSourced (err e) s inbound out ir h = tt
  after_absorb-FlowSourced (ok u) s inbound out ir h =
      located (Binding.find_crypto_binding inbound ir)
    where
      located :
          (r : Result SessionError (Option CryptoBindingTlv))
          → FlowSourced process start first mac (Binding.located r s out)
      located (err e) = tt
      located (ok none) = tt
      located (ok (some cb)) = check_binding-FlowSourced s out cb (h refl)

  -- The absorption: it runs only where there is no key yet, on the first schedule.
  absorb_once-Sourced :
      (s : TeapSession I) (imsk : List ℕ)
      → s.imsk ≡ some imsk
      → Sourced process start first mac s
      → (Binding.absorb_once s imsk).0 ≡ ok tt
      → Sourced process start first mac (Binding.absorb_once s imsk).1
  unfolding Binding.absorb_once
  absorb_once-Sourced s imsk i (f, k, a, m) went = at_key s.cmk refl went
    where
      stored :
          (p : Result KeyScheduleError Cmk × KeySchedule)
          → absorb_inner mac first imsk ≡ p
          → (Binding.store_cmk p.0 (record s { ks = p.1 })).0 ≡ ok tt
          → Sourced process start first mac (Binding.store_cmk p.0 (record s { ks = p.1 })).1
      stored (ok cmk, ks) e went = (
        f,
        k,
        inr (record { imsk = imsk; cmk = cmk; released = k imsk i; absorbed = e; stored = refl }),
        m,
      )
      stored (err x, ks) e went = let no : ⊥ = cc went in elim no [ ]

      at_key :
          (o : Option Cmk)
          → s.cmk ≡ o
          → (Binding.absorb_into o s imsk).0 ≡ ok tt
          → Sourced process start first mac (Binding.absorb_into o s imsk).1
      at_key (some cmk) e went = (f, k, a, m)
      at_key none e went = elim a [
        | inl (no_key, same) ↦
            stored (absorb_inner s.mac s.ks imsk)
              (ap (λ x. absorb_inner x first imsk) (sym m)
                ∙ ap (λ x. absorb_inner s.mac x imsk) (sym same))
              went
        | inr got ↦ let no : ⊥ = cc (sym e ∙ got.stored) in elim no [ ]
      ]

  pub intermediate_stage-FlowSourced :
      (inbound out : List RawTlv) (s : TeapSession I)
      → Sourced process start first mac s
      → FlowSourced process start first mac (Machine.intermediate_stage inbound out s)
  unfolding Machine.intermediate_stage Binding.handle_inner_success
  intermediate_stage-FlowSourced inbound out s h = found (find inbound TypeId.intermediate_result)
    where
      with_imsk :
          (ir : IntermediateResultTlv) (o : Option (List ℕ))
          → s.imsk ≡ o
          → FlowSourced process start first mac (Binding.inner_success_with o s inbound ir out)
      with_imsk ir none i = tt
      with_imsk ir (some imsk) i =
          let p = Binding.absorb_once s imsk in
          after_absorb-FlowSourced p.0 p.1 inbound out ir (λ e. absorb_once-Sourced s imsk i h e)

      inner :
          (status : ResultStatus) (ir : IntermediateResultTlv)
          → FlowSourced process start first mac (Machine.inner_result status ir inbound out s)
      inner ResultStatus.success ir = with_imsk ir s.imsk refl
      inner _ ir = tt

      parsed :
          (r : Result TlvError IntermediateResultTlv)
          → FlowSourced process start first mac (Machine.intermediate_parsed r inbound out s)
      parsed (err e) = tt
      parsed (ok ir) = inner ir.status ir

      found :
          (o : Option RawTlv)
          → FlowSourced process start first mac (Machine.intermediate_found o inbound out s)
      found none = h
      found (some raw) = parsed (IntermediateResultTlv.from_value raw.value)
