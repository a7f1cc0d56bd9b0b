-- ===== src/Session/Sourced.antt =====
-- crates/teap/src/session.rs: where the keys of a session come from.
pub mod Stages
pub mod Run
use usg_supplicant.Common.{
  ℕ, Bool, true, false, not, ◌&&◌, List, [], ◌∷◌, ◌++◌, Option, none, some, Result, ok, err,
  if◌then◌else◌, length, ◌==◌, ==_iff, ◌>>=◌, ◌≡◌, refl, ap, sym, subst, ◌∙◌, ◌⊎◌, inl, inr,
  Bool-cases, arith,
}
use usg_supplicant.KeySchedule.{TeapMac, Cmk, KeySchedule, absorb_inner, derive_session_keys}
use usg_supplicant.KeySchedule.Errors.{KeyScheduleError}
use usg_supplicant.CryptoBind
use usg_supplicant.CryptoBind.Errors.{CryptoBindError}
use usg_supplicant.Tlv.Error.{TlvError}
use usg_supplicant.Tlv.Raw.{RawTlv}
use usg_supplicant.Tlv.TypeId
use usg_supplicant.Tlv.Body.Fields.{ResultStatus}
use usg_supplicant.Tlv.Body.IdentityType
use usg_supplicant.Tlv.Body.IdentityType.{IdentityType}
use usg_supplicant.Tlv.Body.ResultTlv
use usg_supplicant.Tlv.Body.EapPayloadTlv
use usg_supplicant.Tlv.Body.IntermediateResultTlv
use usg_supplicant.Tlv.Body.IntermediateResultTlv.{IntermediateResultTlv}
use usg_supplicant.Tlv.Body.CryptoBindingTlv.{CryptoBindingTlv}
use usg_supplicant.Session.Types.{
  SessionConfig, matches, is_user, critical_types, InnerStep, respond, finished, failed, success,
  failure, malformed_message, SessionError, already_terminated, continues, done, TeapSession,
  Answer,
}
use usg_supplicant.KeySchedule
use usg_supplicant.Session.Confirmed.{Reaches, at_start, onward}
use usg_supplicant.Session.Flow
use usg_supplicant.Session.Flow.{Flow, leave, go_on, then_stage, fail, find, any_malformed}
use usg_supplicant.Session.Binding
use usg_supplicant.Session.Machine

module _ {I : Type 0} (process : I → List ℕ → InnerStep × I) where
  -- The packets for the inner method, one after the other.
  unfoldable pub fed : I → List (List ℕ) → I
  fed i [] = i
  fed i (eap ∷ eaps) = fed (process i eap).1 eaps

  -- The inner method, fed from its start, returned these octets as its key.
  pub record Released (start : I) (imsk : List ℕ) : Type 0 where
    pub eaps : List (List ℕ)
    pub eap : List ℕ
    pub returned : (process (fed start eaps) eap).0 ≡ finished imsk
    pub full : length imsk ≡ 32

  pub fed-append :
      (i : I) (eaps : List (List ℕ)) (eap : List ℕ)
      → fed i (eaps ++ eap ∷ []) ≡ (process (fed i eaps) eap).1
  unfolding fed
  fed-append i [] eap = refl
  fed-append i (e ∷ eaps) eap = fed-append (process i e).1 eaps eap

  module _ (start : I) (first : KeySchedule) (mac : TeapMac) where
    -- A released key was absorbed once.
    pub record Absorbed (ks : KeySchedule) (present : Option Cmk) : Type 0 where
      pub imsk : List ℕ
      pub cmk : Cmk
      pub released : Released start imsk
      pub absorbed : absorb_inner mac first imsk ≡ (ok cmk, ks)
      pub stored : present ≡ some cmk

    -- The inner method was fed from its start, its key is released, and there is no key yet or one
    -- was absorbed.
    abbrev pub Sourced : TeapSession I → Type 0
    Sourced s =
        ((packets : List (List ℕ)) × (fed start packets ≡ s.inner))
        × ((imsk : List ℕ) → s.imsk ≡ some imsk → Released start imsk)
        × (((s.cmk ≡ none) × (s.ks ≡ first)) ⊎ Absorbed s.ks s.cmk)
        × (s.mac ≡ mac)

    abbrev pub Derived : TeapSession I → List ℕ → List ℕ → Type 0
    Derived s msk emsk = Absorbed s.ks s.cmk × (derive_session_keys mac s.ks ≡ ok (msk, emsk))

    abbrev pub AnswerSourced : Answer → TeapSession I → Type 0
    AnswerSourced (ok (done send (success msk emsk mat))) s = Derived s msk emsk
    AnswerSourced (ok (done send (failure reason))) s = Unit {0}
    AnswerSourced (ok (continues out)) s = Sourced s
    AnswerSourced (err e) s = Unit {0}

    -- What a stage leaves with, or goes on with.
    abbrev pub FlowSourced : Flow × TeapSession I → Type 0
    FlowSourced (leave a, s) = AnswerSourced a s
    FlowSourced (go_on out, s) = Sourced s

    pub then_stage-FlowSourced :
        (r : Flow × TeapSession I) (k : List RawTlv → TeapSession I → Flow × TeapSession I)
        → FlowSourced r
        → ((out : List RawTlv) (t : TeapSession I) → Sourced t → FlowSourced (k out t))
        → FlowSourced (then_stage r k)
    then_stage-FlowSourced (leave a, t) k h f = h
    then_stage-FlowSourced (go_on out, t) k h f = f out t h

    pub if-FlowSourced :
        (b : Bool) (x y : Flow × TeapSession I)
        → FlowSourced x
        → FlowSourced y
        → FlowSourced (if b then x else y)
    if-FlowSourced true x y hx hy = hx
    if-FlowSourced false x y hx hy = hy
