-- ===== src/Session/Malformed.antt =====
-- crates/teap/src/session.rs: the check on critical TLVs at the start of `step`.
use mathlib.Core.List.{Memᴰ}
use mathlib.Core.List.Memᴰ.{head, tail}
use usg_supplicant.Common.{
  ℕ, ◌≤◌, true, false, List, [], ◌∷◌, ◌++◌, ok, ◌==◌, length, length-append, ◌≡◌, refl, ap, ◌∙◌,
  arith, Bool-cases, inl, inr,
}
use usg_supplicant.Tlv.Raw.{RawTlv}
use usg_supplicant.Session.Types.{
  critical_types, InnerStep, malformed_message, failure, done, TeapSession,
}
use usg_supplicant.Session.Flow.{failure_tlv, of_type, is_malformed, any_malformed}
use usg_supplicant.Session.Machine

of_type-append : (k : ℕ) (xs ys : List RawTlv) → of_type k (xs ++ ys) ≡ of_type k xs ++ of_type k ys
unfolding of_type
of_type-append k [] ys = refl
of_type-append k (x ∷ xs) ys = elim (Bool-cases (x.tlv_type == k)) [
  | inl e ↦ rw e (ap (◌∷◌ x) (of_type-append k xs ys))
  | inr e ↦ rw e (of_type-append k xs ys)
]

of_type-hit :
    (k : ℕ) (t : RawTlv) (ts : List RawTlv) → t.tlv_type ≡ k → of_type k (t ∷ ts) ≡ t ∷ of_type k ts
unfolding of_type
of_type-hit k t ts e = ground arith

two-is_malformed : (ts : List RawTlv) → 2 ≤ length ts → is_malformed ts ≡ true
two-is_malformed [] h = absurd (omega arith)
two-is_malformed (t ∷ []) h = absurd (omega arith)
two-is_malformed (t ∷ u ∷ ts) h = refl

duplicate-is_malformed :
    (k : ℕ) (pre mid post : List RawTlv) (t u : RawTlv)
    → t.tlv_type ≡ k
    → u.tlv_type ≡ k
    → is_malformed (of_type k (pre ++ t ∷ (mid ++ u ∷ post))) ≡ true
duplicate-is_malformed k pre mid post t u a b =
    let later : of_type k (mid ++ u ∷ post) ≡ of_type k mid ++ u ∷ of_type k post =
      of_type-append k mid (u ∷ post) ∙ ap (λ x. of_type k mid ++ x) (of_type-hit k u post b) in
    let all : of_type k (pre ++ t ∷ (mid ++ u ∷ post))
        ≡ of_type k pre ++ t ∷ (of_type k mid ++ u ∷ of_type k post) =
      of_type-append k pre (t ∷ (mid ++ u ∷ post))
      ∙ ap (λ x. of_type k pre ++ x) (of_type-hit k t (mid ++ u ∷ post) a ∙ ap (◌∷◌ t) later) in
    rw all (
      two-is_malformed (of_type k pre ++ t ∷ (of_type k mid ++ u ∷ of_type k post)) (
        omega (
          arith,
          length-append (of_type k pre) (t ∷ (of_type k mid ++ u ∷ of_type k post)),
          length-append (of_type k mid) (u ∷ of_type k post),
        )))

is_malformed-any_malformed :
    (types : List ℕ) (k : ℕ) (inbound : List RawTlv)
    → Memᴰ k types
    → is_malformed (of_type k inbound) ≡ true
    → any_malformed types inbound ≡ true
unfolding any_malformed
is_malformed-any_malformed [] k inbound m h = elim m [ ]
is_malformed-any_malformed (x ∷ types) k inbound (head e) h = rw (← e, h) refl
is_malformed-any_malformed (x ∷ types) k inbound (tail m) h =
    rw (is_malformed-any_malformed types k inbound m h) (ground arith)

module _ {I : Type 0} (process : I → List ℕ → InnerStep × I) where
  -- A message with two TLVs of one critical type, wherever they stand and whatever else is in it,
  -- fails a session that has not ended, with `malformed_message` and nothing sent but the
  -- `Failure` Result; only the mark that the session has ended changes.
  pub step_duplicate :
      (s : TeapSession I) (pre mid post : List RawTlv) (t u : RawTlv)
      → s.terminated ≡ false
      → Memᴰ t.tlv_type critical_types
      → u.tlv_type ≡ t.tlv_type
      → Machine.step process s (pre ++ t ∷ (mid ++ u ∷ post))
        ≡ (ok (done (failure_tlv ∷ []) (failure malformed_message)), record s { terminated = true })
  unfolding Machine.step Machine.answer_of
  step_duplicate s pre mid post t u live critical same =
      let bad : any_malformed critical_types (pre ++ t ∷ (mid ++ u ∷ post)) ≡ true =
        is_malformed-any_malformed critical_types t.tlv_type (pre ++ t ∷ (mid ++ u ∷ post)) critical
          (duplicate-is_malformed t.tlv_type pre mid post t u refl same) in
      rw (live, bad) refl
