-- ===== src/Session/Confirmed.antt =====
-- crates/teap/src/session.rs: what a whole conversation shows when it ends in `Success`.
use mathlib.Core.List.{Memᴰ}
use mathlib.Core.List.Memᴰ.{head, tail}
use usg_supplicant.Common.{
  ℕ, Bool, true, false, List, [], ◌∷◌, Option, none, some, Result, ok, err, if◌then◌else◌, ◌≡◌,
  refl, sym, ap, subst, ◌∙◌, ◌⊎◌, inl, inr,
}
use usg_supplicant.KeySchedule.{Cmk, derive_session_keys}
use usg_supplicant.KeySchedule.Errors.{KeyScheduleError}
use usg_supplicant.Tlv.Error.{TlvError}
use usg_supplicant.Tlv.Raw.{RawTlv}
use usg_supplicant.Tlv.TypeId
use usg_supplicant.Tlv.Body.Fields.{ResultStatus}
use usg_supplicant.Tlv.Body.ResultTlv
use usg_supplicant.Session.Types.{
  critical_types, InnerStep, malformed_message, success, failure, SessionError, already_terminated,
  continues, done, TeapSession, Answer,
}
use usg_supplicant.Session.Flow.{Flow, leave, go_on, then_stage, fail, find, any_malformed}
use usg_supplicant.Session.Machine
use usg_supplicant.Session.Verified.{intermediate_stage-Effect}
use usg_supplicant.Session.Stages.{
  Confirmed, Keyed, Effect, NoSuccess, then_stage-Effect, identity_stage-Effect,
  payload_stage-Effect,
}

module _ {I : Type 0} where
  -- A successful end: the key was there already or the last message was `Confirmed` under it, and
  -- the exported keys are those of the schedule at the end.
  pub record Concluded (s : TeapSession I) (inbound : List RawTlv) (msk emsk : List ℕ)
      (t : TeapSession I) : Type 0 where
    pub cmk : Cmk
    pub stored : t.cmk ≡ some cmk
    pub has_cmk : (s.cmk ≡ some cmk) ⊎ Confirmed s.mac cmk inbound
    pub keys : derive_session_keys s.mac t.ks ≡ ok (msk, emsk)
    pub ended : t.terminated ≡ true

  abbrev Conclusion : TeapSession I → List RawTlv → Answer → TeapSession I → Type 0
  Conclusion s inbound (ok (done send (success msk emsk mat))) t = Concluded s inbound msk emsk t
  Conclusion s inbound (ok (done send (failure reason))) t = Unit {0}
  Conclusion s inbound (ok (continues out)) t = ⊥
  Conclusion s inbound (err e) t = Unit {0}

  -- What `step` does: it goes on `Keyed`, or ends as in `Conclusion`.
  abbrev Ends : TeapSession I → List RawTlv → Flow × TeapSession I → Type 0
  Ends s inbound (leave a, t) = Conclusion s inbound a t
  Ends s inbound (go_on out, t) = (t.mac ≡ s.mac) × Keyed s inbound t

  NoSuccess-Conclusion :
      (a : Answer) (s : TeapSession I) (inbound : List RawTlv) (t : TeapSession I)
      → NoSuccess a
      → Conclusion s inbound a t
  NoSuccess-Conclusion (ok (continues out)) s inbound t n = elim n [ ]
  NoSuccess-Conclusion (ok (done send (success msk emsk mat))) s inbound t n = elim n [ ]
  NoSuccess-Conclusion (ok (done send (failure reason))) s inbound t n = tt
  NoSuccess-Conclusion (err e) s inbound t n = tt

  conclude-Ends :
      (r : Result SessionError (Option (List ℕ))) (keys : List ℕ × List ℕ) (s t : TeapSession I)
      (inbound out : List RawTlv) (cmk : Cmk)
      → t.cmk ≡ some cmk
      → (s.cmk ≡ some cmk) ⊎ Confirmed s.mac cmk inbound
      → derive_session_keys s.mac t.ks ≡ ok keys
      → Ends s inbound (Machine.conclude r keys t out)
  unfolding Machine.conclude
  conclude-Ends (err e) keys s t inbound out cmk h c k = tt
  conclude-Ends (ok mat) (msk, emsk) s t inbound out cmk h c k = record {
    cmk = cmk;
    stored = h;
    has_cmk = c;
    keys = k;
    ended = refl;
  }

  export_keys-Ends :
      (r : Result KeyScheduleError (List ℕ × List ℕ)) (s t : TeapSession I)
      (inbound out : List RawTlv) (cmk : Cmk)
      → t.cmk ≡ some cmk
      → (s.cmk ≡ some cmk) ⊎ Confirmed s.mac cmk inbound
      → derive_session_keys s.mac t.ks ≡ r
      → Ends s inbound (Machine.export_keys r t inbound out)
  unfolding Machine.export_keys
  export_keys-Ends (err e) s t inbound out cmk h c k = tt
  export_keys-Ends (ok keys) s t inbound out cmk h c k =
      conclude-Ends (Machine.issued_mat t inbound) keys s t inbound out cmk h c k

  -- The key of a `Keyed` state is as `Concluded` has it.
  has_key :
      (s t : TeapSession I) (inbound : List RawTlv) (cmk : Cmk)
      → Keyed s inbound t
      → t.cmk ≡ some cmk
      → (s.cmk ≡ some cmk) ⊎ Confirmed s.mac cmk inbound
  has_key s t inbound cmk (inl e) h = inl (sym e ∙ h)
  has_key s t inbound cmk (inr (c, e, f)) h =
      inr (subst (λ x. Confirmed s.mac x inbound) (cc (sym e ∙ h)) f)

  handle_result-Ends :
      (status : ResultStatus) (s t : TeapSession I) (inbound out : List RawTlv)
      → t.mac ≡ s.mac
      → Keyed s inbound t
      → Ends s inbound (Machine.handle_result t inbound status out)
  unfolding Machine.handle_result
  handle_result-Ends ResultStatus.success s t inbound out m k = with_key t.cmk refl
    where
      with_key : (o : Option Cmk) → t.cmk ≡ o → Ends s inbound (Machine.result_with o t inbound out)
      with_key none e = tt
      with_key (some cmk) e =
          export_keys-Ends (derive_session_keys t.mac t.ks) s t inbound out cmk e
            (has_key s t inbound cmk k e) (ap (λ x. derive_session_keys x t.ks) (sym m))
  handle_result-Ends _ s t inbound out m k = tt

  result_stage-Ends :
      (s t : TeapSession I) (inbound out : List RawTlv)
      → t.mac ≡ s.mac
      → Keyed s inbound t
      → Ends s inbound (Machine.result_stage inbound out t)
  unfolding Machine.result_stage
  result_stage-Ends s t inbound out m k = found (find inbound TypeId.result)
    where
      parsed :
          (r : Result TlvError ResultStatus)
          → Ends s inbound (Machine.result_parsed r inbound out t)
      parsed (err e) = tt
      parsed (ok status) = handle_result-Ends status s t inbound out m k

      found : (o : Option RawTlv) → Ends s inbound (Machine.result_found o inbound out t)
      found none = (m, k)
      found (some raw) = parsed (ResultTlv.from_value raw.value)

  last_stage :
      (s : TeapSession I) (inbound : List RawTlv) (r : Flow × TeapSession I)
      → Effect s inbound r
      → Ends s inbound (then_stage r (Machine.result_stage inbound))
  last_stage s inbound (leave a, t) e = NoSuccess-Conclusion a s inbound t e
  last_stage s inbound (go_on out, t) (m, k) = result_stage-Ends s t inbound out m k

module _ {I : Type 0} (process : I → List ℕ → InnerStep × I) where
  stages-Ends :
      (inbound : List RawTlv) (s : TeapSession I)
      → Ends s inbound (Machine.stages process inbound s)
  unfolding Machine.stages
  stages-Ends inbound s = last_stage s inbound _ (
      then_stage-Effect s inbound _ (Machine.intermediate_stage inbound)
        (then_stage-Effect s inbound (Machine.identity_stage inbound s)
          (Machine.payload_stage process inbound) (identity_stage-Effect s inbound)
          (payload_stage-Effect process inbound))
        (intermediate_stage-Effect inbound))

  -- The same of the answer of `step`.
  abbrev pub Answered : TeapSession I → List RawTlv → Answer × TeapSession I → Type 0
  Answered s inbound (ok (continues out), t) = (t.mac ≡ s.mac) × Keyed s inbound t
  Answered s inbound (ok (done send (success msk emsk mat)), t) = Concluded s inbound msk emsk t
  Answered s inbound (ok (done send (failure reason)), t) = Unit {0}
  Answered s inbound (err e, t) = Unit {0}

  Ends-Answered :
      (s : TeapSession I) (inbound : List RawTlv) (r : Flow × TeapSession I)
      → Ends s inbound r
      → Answered s inbound (Machine.answer_of r)
  unfolding Machine.answer_of
  Ends-Answered s inbound (leave (ok (continues out)), t) e = elim e [ ]
  Ends-Answered s inbound (leave (ok (done send (success msk emsk mat))), t) e = e
  Ends-Answered s inbound (leave (ok (done send (failure reason))), t) e = tt
  Ends-Answered s inbound (leave (err x), t) e = tt
  Ends-Answered s inbound (go_on out, t) e = e

  pub step-Answered :
      (s : TeapSession I) (inbound : List RawTlv)
      → Answered s inbound (Machine.step process s inbound)
  unfolding Machine.step
  step-Answered s inbound = guarded s.terminated (any_malformed critical_types inbound)
    where
      guarded :
          (b c : Bool)
          → Answered s inbound (
              if b
              then (err already_terminated, s)
              else Machine.answer_of
                  (if c then fail s [] malformed_message else Machine.stages process inbound s))
      guarded true c = tt
      guarded false true = Ends-Answered s inbound (fail s [] malformed_message) tt
      guarded false false =
          Ends-Answered s inbound (Machine.stages process inbound s) (stages-Ends inbound s)

  -- A conversation that has not ended: the messages and the state that they lead to.
  pub data Reaches (s : TeapSession I) : List (List RawTlv) → TeapSession I → Type 0 where
    at_start : Reaches s [] s
    onward :
        {ms : List (List RawTlv)} {t u : TeapSession I} {m out : List RawTlv}
        → Reaches s ms t
        → Machine.step process t m ≡ (ok (continues out), u)
        → Reaches s (m ∷ ms) u

  -- What a conversation keeps: the MAC, and that a key is there only with a message, of those that
  -- came, which is `Confirmed` under it.
  abbrev Backed : TeapSession I → List (List RawTlv) → TeapSession I → Type 0
  Backed s ms t =
      (t.mac ≡ s.mac)
      × ((cmk : Cmk) → t.cmk ≡ some cmk → (m : List RawTlv) × Memᴰ m ms × Confirmed s.mac cmk m)

  Backed-step :
      (s t u : TeapSession I) (ms : List (List RawTlv)) (m : List RawTlv)
      → Backed s ms t
      → u.mac ≡ t.mac
      → Keyed t m u
      → Backed s (m ∷ ms) u
  Backed-step s t u ms m (a, b) e (inl k) =
      (e ∙ a, λ cmk h. let (x, i, c) = b cmk (sym k ∙ h) in (x, tail i, c))
  Backed-step s t u ms m (a, b) e (inr (key, k, c)) = (
    e ∙ a,
    λ cmk h. (
      m,
      head refl,
      subst (λ x. Confirmed x cmk m) a (subst (λ x. Confirmed t.mac x m) (cc (sym k ∙ h)) c),
    ),
  )

  Reaches-Backed :
      (s t : TeapSession I) (ms : List (List RawTlv))
      → s.cmk ≡ none
      → Reaches s ms t
      → Backed s ms t
  Reaches-Backed s _ _ z at_start = (refl, λ cmk h. let n : ⊥ = cc (sym z ∙ h) in elim n [ ])
  Reaches-Backed s _ _ z (onward {ms} {t} {u} {m} r e) =
      let (a, b) = subst (Answered t m) e (step-Answered t m) in
      Backed-step s t u ms m (Reaches-Backed s t ms z r) a b

  -- If a session that starts without a key goes on for the messages `ms` and then ends in success
  -- on `m`, then it holds a compound key, some message among them had a `Success`
  -- Intermediate-Result whose Crypto-Binding is a version 1 request that verifies under this key
  -- and the MAC of the session, the exported keys are those of the session's schedule, and the
  -- session is terminated.
  pub success-Confirmed :
      (s t u : TeapSession I) (ms : List (List RawTlv)) (m send : List RawTlv) (msk emsk : List ℕ)
      (mat : Option (List ℕ))
      → s.cmk ≡ none
      → Reaches s ms t
      → Machine.step process t m ≡ (ok (done send (success msk emsk mat)), u)
      → ((cmk : Cmk) × (x : List RawTlv) × (u.cmk ≡ some cmk)
          × Memᴰ x (m ∷ ms)
          × Confirmed s.mac cmk x)
        × (derive_session_keys s.mac u.ks ≡ ok (msk, emsk))
        × (u.terminated ≡ true)
  success-Confirmed s t u ms m send msk emsk mat z r e =
      let (a, b) = Reaches-Backed s t ms z r in
      let c = subst (Answered t m) e (step-Answered t m) in
      let k = subst (λ x. derive_session_keys x u.ks ≡ ok (msk, emsk)) a c.keys in
      elim c.has_cmk [
        | inl h ↦ (let (x, i, f) = b c.cmk h in (c.cmk, x, c.stored, tail i, f), k, c.ended)
        | inr f ↦
            ((c.cmk, m, c.stored, head refl, subst (λ x. Confirmed x c.cmk m) a f), k, c.ended)
      ]
