-- ===== src/Session/Terminal.antt =====
-- crates/teap/src/session.rs: how a session ends.
use usg_supplicant.Common.{ℕ, Bool, true, false, List, [], ok, err, if◌then◌else◌, ◌≡◌, refl, subst}
use usg_supplicant.Tlv.Raw.{RawTlv}
use usg_supplicant.Session.Types.{
  critical_types, InnerStep, malformed_message, Outcome, success, failure, already_terminated, done,
  TeapSession,
}
use usg_supplicant.Session.Flow.{fail, any_malformed}
use usg_supplicant.Session.Machine
use usg_supplicant.Session.Closing.{
  Closed, ClosedFlow, then_stage-Closed, identity-Closed, payload-Closed, intermediate-Closed,
  result-Closed, answer_of-Closed,
}

module _ {I : Type 0} (process : I → List ℕ → InnerStep × I) where
  stages-Closed :
      (inbound : List RawTlv) (s : TeapSession I) → ClosedFlow (Machine.stages process inbound s)
  unfolding Machine.stages
  stages-Closed inbound s =
      then_stage-Closed _ (Machine.result_stage inbound)
        (then_stage-Closed _ (Machine.intermediate_stage inbound)
          (then_stage-Closed (Machine.identity_stage inbound s)
            (Machine.payload_stage process inbound) (identity-Closed inbound s)
            (payload-Closed process inbound))
          (intermediate-Closed inbound))
        (result-Closed inbound)

  -- Whatever message comes, and in whatever state: a step that ends the session leaves it
  -- terminated and has the overall Result, of the outcome's status, as the last TLV to send; a
  -- success hands out no issued MAT in a user session.
  pub step_ends :
      (s : TeapSession I) (inbound : List RawTlv) → Closed (Machine.step process s inbound)
  unfolding Machine.step
  step_ends s inbound = guarded s.terminated (any_malformed critical_types inbound)
    where
      guarded :
          (b c : Bool)
          → Closed (
              if b
              then (err already_terminated, s)
              else Machine.answer_of
                  (if c then fail s [] malformed_message else Machine.stages process inbound s))
      guarded true c = tt
      guarded false true = answer_of-Closed (fail s [] malformed_message) (refl, ([], refl))
      guarded false false =
          answer_of-Closed (Machine.stages process inbound s) (stages-Closed inbound s)

  done-terminated :
      (t : TeapSession I) (send : List RawTlv) (outcome : Outcome)
      → Closed (ok (done send outcome), t)
      → t.terminated ≡ true
  done-terminated t send (success msk emsk mat) c = c.0
  done-terminated t send (failure reason) c = c.0

  -- After a step that ended the session, every further message is refused with
  -- `already_terminated`, and the state stays.
  pub done_is_final :
      (s t : TeapSession I) (m n send : List RawTlv) (outcome : Outcome)
      → Machine.step process s m ≡ (ok (done send outcome), t)
      → Machine.step process t n ≡ (err already_terminated, t)
  unfolding Machine.step
  done_is_final s t m n send outcome e =
      let c : t.terminated ≡ true =
        done-terminated t send outcome (subst Closed e (step_ends s m)) in
      rw c refl
