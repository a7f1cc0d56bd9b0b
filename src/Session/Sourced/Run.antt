-- ===== src/Session/Sourced/Run.antt =====
-- crates/teap/src/session.rs: what the keys of a whole conversation are derived from.
use usg_supplicant.Common.{
  ℕ, Bool, true, false, List, [], Option, none, some, Result, ok, err, if◌then◌else◌, ◌>>=◌, ◌≡◌,
  refl, ap, sym, subst, ◌∙◌, inl, inr,
}
use usg_supplicant.KeySchedule.{TeapMac, Cmk, KeySchedule, absorb_inner, derive_session_keys}
use usg_supplicant.KeySchedule.Errors.{KeyScheduleError}
use usg_supplicant.Tlv.Error.{TlvError}
use usg_supplicant.Tlv.Raw.{RawTlv}
use usg_supplicant.Tlv.TypeId
use usg_supplicant.Tlv.Body.Fields.{ResultStatus}
use usg_supplicant.Tlv.Body.ResultTlv
use usg_supplicant.Session.Types.{
  SessionConfig, critical_types, InnerStep, success, malformed_message, SessionError,
  already_terminated, done, TeapSession,
}
use usg_supplicant.KeySchedule
use usg_supplicant.Session.Confirmed.{Reaches, at_start, onward}
use usg_supplicant.Session.Flow
use usg_supplicant.Session.Flow.{Flow, leave, go_on, then_stage, fail, find, any_malformed}
use usg_supplicant.Session.Machine
use usg_supplicant.Session.Sourced.{
  fed, Absorbed, Sourced, Derived, AnswerSourced, FlowSourced, then_stage-FlowSourced,
}
use usg_supplicant.Session.Sourced.Stages.{
  identity_stage-FlowSourced, payload_stage-FlowSourced, intermediate_stage-FlowSourced,
}

module _ {I : Type 0} (process : I → List ℕ → InnerStep × I) (start : I) (first : KeySchedule)
    (mac : TeapMac) where
  result_stage-FlowSourced :
      (inbound out : List RawTlv) (s : TeapSession I)
      → Sourced process start first mac s
      → FlowSourced process start first mac (Machine.result_stage inbound out s)
  unfolding Machine.result_stage Machine.handle_result Machine.export_keys Machine.conclude
  result_stage-FlowSourced inbound out s (f, k, a, m) = found (find inbound TypeId.result)
    where
      concluded :
          (r : Result SessionError (Option (List ℕ))) (keys : List ℕ × List ℕ)
          → Absorbed process start first mac s.ks s.cmk
          → derive_session_keys mac s.ks ≡ ok keys
          → FlowSourced process start first mac (Machine.conclude r keys s out)
      concluded (err e) keys got d = tt
      concluded (ok mat) (msk, emsk) got d = (got, d)

      exported :
          (r : Result KeyScheduleError (List ℕ × List ℕ))
          → Absorbed process start first mac s.ks s.cmk
          → derive_session_keys mac s.ks ≡ r
          → FlowSourced process start first mac (Machine.export_keys r s inbound out)
      exported (err e) got d = tt
      exported (ok keys) got d = concluded (Machine.issued_mat s inbound) keys got d

      with_key :
          (o : Option Cmk)
          → s.cmk ≡ o
          → FlowSourced process start first mac (Machine.result_with o s inbound out)
      with_key none e = tt
      with_key (some cmk) e = elim a [
        | inl (no_key, same) ↦ let no : ⊥ = cc (sym e ∙ no_key) in elim no [ ]
        | inr got ↦
            exported (derive_session_keys s.mac s.ks) got
              (ap (λ x. derive_session_keys x s.ks) (sym m))
      ]

      handled :
          (status : ResultStatus)
          → FlowSourced process start first mac (Machine.handle_result s inbound status out)
      handled ResultStatus.success = with_key s.cmk refl
      handled _ = tt

      parsed :
          (r : Result TlvError ResultStatus)
          → FlowSourced process start first mac (Machine.result_parsed r inbound out s)
      parsed (err e) = tt
      parsed (ok status) = handled status

      found :
          (o : Option RawTlv)
          → FlowSourced process start first mac (Machine.result_found o inbound out s)
      found none = (f, k, a, m)
      found (some raw) = parsed (ResultTlv.from_value raw.value)

  answer_of-Sourced :
      (r : Flow × TeapSession I)
      → FlowSourced process start first mac r
      → AnswerSourced process start first mac (Machine.answer_of r).0 (Machine.answer_of r).1
  unfolding Machine.answer_of
  answer_of-Sourced (leave a, s) h = h
  answer_of-Sourced (go_on out, s) h = h

  stages-FlowSourced :
      (inbound : List RawTlv) (s : TeapSession I)
      → Sourced process start first mac s
      → FlowSourced process start first mac (Machine.stages process inbound s)
  unfolding Machine.stages
  stages-FlowSourced inbound s h =
      then_stage-FlowSourced process start first mac _ (Machine.result_stage inbound)
        (then_stage-FlowSourced process start first mac _ (Machine.intermediate_stage inbound)
          (then_stage-FlowSourced process start first mac (Machine.identity_stage inbound s)
            (Machine.payload_stage process inbound)
            (identity_stage-FlowSourced process start first mac inbound s h)
            (payload_stage-FlowSourced process start first mac inbound))
          (intermediate_stage-FlowSourced process start first mac inbound))
        (result_stage-FlowSourced inbound)

  -- A step from a sourced session.
  pub step-AnswerSourced :
      (s : TeapSession I) (inbound : List RawTlv)
      → Sourced process start first mac s
      → AnswerSourced process start first mac
          (Machine.step process s inbound).0
          (Machine.step process s inbound).1
  unfolding Machine.step
  step-AnswerSourced s inbound h = guarded s.terminated (any_malformed critical_types inbound)
    where
      guarded :
          (b c : Bool)
          → (let p =
                if b
                then (err already_terminated, s)
                else Machine.answer_of
                    (if c then fail s [] malformed_message else Machine.stages process inbound s) in
              AnswerSourced process start first mac p.0 p.1)
      guarded true c = tt
      guarded false true = answer_of-Sourced (fail s [] malformed_message) tt
      guarded false false =
          answer_of-Sourced (Machine.stages process inbound s) (stages-FlowSourced inbound s h)

  Reaches-Sourced :
      (s t : TeapSession I) (ms : List (List RawTlv))
      → Sourced process start first mac s
      → Reaches process s ms t
      → Sourced process start first mac t
  Reaches-Sourced s _ _ h at_start = h
  Reaches-Sourced s _ _ h (onward {ms} {t} {u} {m} r e) =
      subst (λ p. AnswerSourced process start first mac p.0 p.1) e
        (step-AnswerSourced t m (Reaches-Sourced s t ms h r))

module _ {I : Type 0} (process : I → List ℕ → InnerStep × I) where
  -- What `new` makes.
  abbrev pub MadeSourced : List ℕ → TeapMac → I → Result KeyScheduleError (TeapSession I) → Type 0
  MadeSourced seed mac start (ok s) =
      (first : KeySchedule) × (KeySchedule.new seed ≡ ok first) × Sourced process start first mac s
  MadeSourced seed mac start (err e) = Unit {0}

  pub new-MadeSourced :
      (cfg : SessionConfig) (seed : List ℕ) (mac : TeapMac) (start : I)
      → MadeSourced seed mac start (Flow.new cfg seed mac start)
  unfolding Flow.new fed
  new-MadeSourced cfg seed mac start = at_schedule (KeySchedule.new seed) refl
    where
      at_schedule :
          (r : Result KeyScheduleError KeySchedule)
          → KeySchedule.new seed ≡ r
          → MadeSourced seed mac start (
              r >>= λ ks. ok (record {
                cfg = cfg;
                mac = mac;
                inner = start;
                ks = ks;
                cmk = none;
                imsk = none;
                presented_mat = false;
                terminated = false;
              }))
      at_schedule (ok ks) e = (
        ks,
        e,
        (([], refl), (λ x has. let no : ⊥ = cc has in elim no [ ]), inl (refl, refl), refl),
      )
      at_schedule (err x) e = tt

  -- If a new session goes on for the messages `ms` and then ends in success, its keys were derived
  -- from the schedule that starts with the session key seed and absorbs, once, 32 octets which the
  -- inner method, fed from its start, returned as its key.
  pub success-Derived :
      (cfg : SessionConfig) (seed : List ℕ) (mac : TeapMac) (start : I) (s t u : TeapSession I)
      (ms : List (List RawTlv)) (m send : List RawTlv) (msk emsk : List ℕ) (mat : Option (List ℕ))
      → Flow.new cfg seed mac start ≡ ok s
      → Reaches process s ms t
      → Machine.step process t m ≡ (ok (done send (success msk emsk mat)), u)
      → (first : KeySchedule) × (KeySchedule.new seed ≡ ok first)
        × Derived process start first mac u msk emsk
  success-Derived cfg seed mac start s t u ms m send msk emsk mat new r e =
      let (first, k, h) : (first : KeySchedule) × (KeySchedule.new seed ≡ ok first)
          × Sourced process start first mac s =
        subst (λ x. MadeSourced seed mac start x) new (new-MadeSourced cfg seed mac start) in
      let end =
        step-AnswerSourced process start first mac t m
          (Reaches-Sourced process start first mac s t ms h r) in
      (first, k, subst (λ p. AnswerSourced process start first mac p.0 p.1) e end)
